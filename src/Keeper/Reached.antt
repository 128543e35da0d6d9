-- ===== src/Keeper/Reached.antt =====
-- What holds of every keeper that is reached from the start.
use mass_net_miner.Common.{
  ◌≡◌, sym, ◌∙◌, ap, Bool, true, false, inl, inr, List, some, if◌then◌else◌, Bool-cases,
  Option-cases,
}
use mass_net_miner.Engine
use mass_net_miner.Engine.{WorkSpaceState, registered, plotting, ready, mining}
use mass_net_miner.Keeper.Index.{Sid, Ref, get}
use mass_net_miner.Keeper.State.{WorkSpace, QueuedRef, DbReplies, busy, taken, SpaceKeeper, sid_of}
use mass_net_miner.Keeper.Actions.{act_on_work_space}
use mass_net_miner.Keeper.Plotting.{pop_item, begin_plot, end_plot, add_space, quit_plotter}
use mass_net_miner.Keeper.Coherent.{Coherent}
use mass_net_miner.Keeper.Invariant.{Inv}
use mass_net_miner.Keeper.Steps.{
  Step, PlotterStep, plots, acts, wakes, pops, begins, ends, adds, adds_another, has_added,
  quits_idle, quits_awake,
}
use mass_net_miner.Keeper.Turns.{
  Cause, acted, begun, ended, waited, Turn, begin_stays, begins_plot, queued_mines, others_stay,
  plot_is_stopped, plot_is_ready, plot_is_mined, waiting_stays, Turned, done-Turned, move-Turned,
  act_on_work_space-Turned,
}
use mass_net_miner.Keeper.Replies.{Sound, ReportsOthers}
use mass_net_miner.Keeper.Safe.{Breaks, act_on_work_space-Sound}
use mass_net_miner.Keeper.Steps.{Steps, Steps-Inv}
use mass_net_miner.Keeper.Initial.{NonePlots, started, started-Inv}

begin_plot-Turned :
    (k : SpaceKeeper) (q : QueuedRef)
    → k.plotter ≡ taken q
    → Inv k
    → Turned k (begun (k.queued q).ws (k.queued q).would_mining) (begin_plot k q)
unfolding begin_plot
begin_plot-Turned k q serves v = elim (Option-cases (get (k.by_state registered) (sid_of k q))) [
  | inr (r, e) ↦
      rw (begin_plot, e)
        (move-Turned k c registered plotting (sid_of k q) (k.queued q).ws (stated_at registered r e)
          begins_plot (λ p s other. begin_stays))
  | inl e ↦ elim (Option-cases (get (k.by_state ready) (sid_of k q))) [
    | inr (r, f) ↦ elim (Bool-cases (k.queued q).would_mining) [
      | inl would ↦
          rw (begin_plot, e, f, would)
            (move-Turned k (begun (k.queued q).ws true) ready mining (sid_of k q) (k.queued q).ws
              (stated_at ready r f) queued_mines (λ p s other. begin_stays))
      | inr not_so ↦ rw (begin_plot, e, f, not_so) (λ p. begin_stays)
    ]
    | inl f ↦ rw (begin_plot, e, f) (λ p. begin_stays)
  ]
]
  where
    c : Cause
    c = begun (k.queued q).ws (k.queued q).would_mining

    stated_at :
        (s : WorkSpaceState) (r : Ref)
        → get (k.by_state s) (sid_of k q) ≡ some r
        → (k.heap (k.queued q).ws).state ≡ s
    stated_at s r e =
        let (there, is) = v.coherent.stated s (sid_of k q) r e in
        ap (λ p. (k.heap p).state)
          (v.requests q (v.popped_made q (v.taken_popped q serves)) r there)
        ∙ is

end_plot-Turned :
    (k : SpaceKeeper) (q : QueuedRef) (plotted : Bool)
    → k.plotter ≡ busy q
    → Inv k
    → Turned k (ended (k.queued q).ws plotted (k.queued q).would_mining) (end_plot k q plotted)
unfolding end_plot
end_plot-Turned k q plotted serves v =
    move-Turned k (ended (k.queued q).ws plotted (k.queued q).would_mining) plotting _ (sid_of k q)
      (k.queued q).ws
      (v.coherent.stated plotting (sid_of k q) (k.queued q).ws (v.busy_plotting q serves)).1
      (target plotted (k.queued q).would_mining) (λ p s other. others_stay other)
  where
    target :
        (done_all would : Bool)
        → Turn k.all
            (ended (k.queued q).ws done_all would)
            (k.queued q).ws
            plotting
            (if done_all then if would then mining else ready else registered)
    target false would = plot_is_stopped
    target true false = plot_is_ready
    target true true = plot_is_mined

-- What a step of the plotter is about.
unfoldable plotter_cause : (k l : SpaceKeeper) → PlotterStep k l → Cause
plotter_cause k l (begins q h) = begun (k.queued q).ws (k.queued q).would_mining
plotter_cause k l (ends q plotted h) = ended (k.queued q).ws plotted (k.queued q).would_mining
plotter_cause k l (wakes i h) = waited
plotter_cause k l (pops before q after a h) = waited
plotter_cause k l (adds q others i none_left c) = waited
plotter_cause k l (adds_another q others a c) = waited
plotter_cause k l (has_added a c) = waited
plotter_cause k l (quits_idle i) = waited
plotter_cause k l (quits_awake a) = waited

unfoldable pub cause : (k l : SpaceKeeper) → Step k l → Cause
unfolding plotter_cause
cause k l (acts sid act db other h) = acted act sid
cause k l (plots s) = plotter_cause k l s

PlotterStep-Turned :
    (k l : SpaceKeeper) (s : PlotterStep k l) → Inv k → Turned k (plotter_cause k l s) l
unfolding plotter_cause pop_item add_space quit_plotter
PlotterStep-Turned k l (wakes i h) v = λ p. waiting_stays
PlotterStep-Turned k l (pops before q after a h) v = λ p. waiting_stays
PlotterStep-Turned k l (begins q h) v = begin_plot-Turned k q h v
PlotterStep-Turned k l (ends q plotted h) v = end_plot-Turned k q plotted h v
PlotterStep-Turned k l (adds q others i none_left c) v = λ p. waiting_stays
PlotterStep-Turned k l (adds_another q others a c) v = λ p. waiting_stays
PlotterStep-Turned k l (has_added a c) v = λ p. waiting_stays
PlotterStep-Turned k l (quits_idle i) v = λ p. waiting_stays
PlotterStep-Turned k l (quits_awake a) v = λ p. waiting_stays

Step-Turned : (k l : SpaceKeeper) (s : Step k l) → Inv k → Turned k (cause k l s) l
unfolding cause
Step-Turned k l (acts {e = e} sid act db other h) v =
    done-Turned k (acted act sid) l e (act_on_work_space k sid act db)
      (act_on_work_space-Turned k sid act v db) h
Step-Turned k l (plots s) v = PlotterStep-Turned k l s v

-- From the keeper that indexes the spaces found at start, none of which plots, any interleaving of
-- actions that return with the steps of the plotter leads to a keeper on which every action, of any
-- number, waits for room in the channel, or returns, or panics; it panics only when it is a StopWS of a
-- space that plots and StopPlot of its database panics. A keeper that it returns has the invariant, and
-- the error that it returns is not ErrWorkSpaceIsNotPlotting. No action dereferences the request of a
-- plotter that has none. In the interleaving and after it, neither Delete nor StopPlot of a database
-- reports ErrWorkSpaceIsNotPlotting.
pub reached-Sound :
    (heap : Ref → WorkSpace) (found : List Ref) (k : SpaceKeeper)
    → NonePlots heap
    → Steps (started heap found) k
    → (sid : Sid) (act : Engine.ActionType) (db : DbReplies) → ReportsOthers db
    → Sound (Breaks k sid act db) (act_on_work_space k sid act db)
reached-Sound heap found k still reached sid act db other =
    act_on_work_space-Sound k sid act db
      (Steps-Inv (started heap found) k reached (started-Inv heap found still)) other

-- Of a keeper that is reached from the start, with no space plotting there, at most one space is in
-- the plotting index: two ids under which a space stands there are the same id.
pub reached-one_plots :
    (heap : Ref → WorkSpace) (found : List Ref) (k : SpaceKeeper)
    → NonePlots heap
    → Steps (started heap found) k
    → (i j : Sid) (p q : Ref) → get (k.by_state plotting) i ≡ some p
    → get (k.by_state plotting) j ≡ some q
    → i ≡ j
reached-one_plots heap found k still reached i j p q at_i at_j =
    let v = Steps-Inv (started heap found) k reached (started-Inv heap found still) in
    let (a, serves_a, is_i) = v.one_plotting i p at_i in
    let (b, serves_b, is_j) = v.one_plotting j q at_j in
    let same : a ≡ b = cc in sym is_i ∙ ap (sid_of k) same ∙ is_j

-- A keeper that is reached from the start, with no space plotting there, has each space in the index
-- of the state that the space itself records, under the space's own id; and a space that stands in
-- the index of a state is among all, and records that state.
pub reached-Coherent :
    (heap : Ref → WorkSpace) (found : List Ref) (k : SpaceKeeper)
    → NonePlots heap
    → Steps (started heap found) k
    → Coherent k
reached-Coherent heap found k still reached =
    (Steps-Inv (started heap found) k reached (started-Inv heap found still)).coherent

-- Each step from a keeper that is reached from the start, with no space plotting there, takes every
-- space along the state machine of the comments. An action keeps the state of every space, but Mine may
-- take the space of its id from ready to mining, and Stop may take it from mining to ready. Step 1 of
-- plotSpace may take the space of the popped request from registered to plotting, and from ready to
-- mining if it would mine. Step 3 takes the space of that request from plotting to registered if the
-- plot is not whole, and otherwise to mining if it would mine, to ready if not; every other space stays.
-- The plotter's other steps change no state.
pub reached-Turned :
    (heap : Ref → WorkSpace) (found : List Ref) (k l : SpaceKeeper)
    → NonePlots heap
    → Steps (started heap found) k
    → (step : Step k l) → Turned k (cause k l step) l
reached-Turned heap found k l still reached step =
    Step-Turned k l step (Steps-Inv (started heap found) k reached (started-Inv heap found still))
