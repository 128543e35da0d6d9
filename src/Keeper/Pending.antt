-- ===== src/Keeper/Pending.antt =====
-- A request that waits in the channel.
use mass_net_miner.Common.{
  ◌≡◌, ◌≢◌, refl, sym, ◌∙◌, ap, subst, true, false, inl, inr, List, [], ◌∷◌, ◌++◌, none, some, ◌<◌,
  Option-cases, arith, leb, length,
}
use mass_net_miner.Engine.{WorkSpaceState, registered, plotting, mining}
use mass_net_miner.Keeper.Index.{Sid, Ref, get}
use mass_net_miner.Keeper.State.{
  QueuedRef, StopReply, idle, adding, awake, SpaceKeeper, done, sid_of, send, keep_others,
  queue_delete, plotter_max_chan_size,
}
use mass_net_miner.Keeper.Actions.{is_used, plot_ws, stop_now, stop_ws}
use mass_net_miner.Keeper.Plotting.{pop_item, begin_plot, add_space}
use mass_net_miner.Keeper.Coherent.{get-move}
use mass_net_miner.Keeper.Invariant.{Inv}
use mass_net_miner.Keeper.Served.{at}
use mass_net_miner.Keeper.Behaviour.{Used}
use mass_net_miner.Keeper.Replies.{sent, sent-new}
use mass_net_miner.Keeper.Steps.{
  PlotterStep, Many, none_yet, then_step, wakes, pops, begins, adds, adds_another, has_added,
}

begin_plot-plotting :
    (k : SpaceKeeper) (q : QueuedRef) (sid : Sid) (r : Ref)
    → (k.queued q).ws ≡ r
    → sid_of k q ≡ sid
    → get (k.by_state registered) sid ≡ some r
    → get ((begin_plot k q).by_state plotting) sid ≡ some r
unfolding begin_plot
begin_plot-plotting k q sid r is_r is_sid there =
    let e = ap (get (k.by_state registered)) is_sid ∙ there in
    rw (begin_plot, e)
      (ground (
        arith,
        is_r,
        is_sid,
        get-move k registered plotting (sid_of k q) (k.queued q).ws plotting sid,
      ))

append-cons : (qs : List QueuedRef) (q : QueuedRef) → qs ++ (q ∷ []) ≢ []
append-cons [] q e = cc
append-cons (p ∷ qs) q e = cc

append-nil : (qs : List QueuedRef) → qs ++ [] ≡ qs
append-nil [] = refl
append-nil (q ∷ qs) = ap (λ l. q ∷ l) (append-nil qs)

append-one :
    (qs : List QueuedRef) (q : QueuedRef) (rs : List QueuedRef)
    → (qs ++ (q ∷ [])) ++ rs ≡ qs ++ (q ∷ rs)
append-one [] q rs = refl
append-one (p ∷ qs) q rs = ap (λ l. p ∷ l) (append-one qs q rs)

first_step : {k l m : SpaceKeeper} → PlotterStep k l → Many PlotterStep l m → Many PlotterStep k m
first_step s none_yet = then_step none_yet s
first_step s (then_step before t) = then_step (first_step s before) t

-- The requests of the channel are in the queue.
abbrev all_added : SpaceKeeper → List QueuedRef → SpaceKeeper
all_added k qs = record k { queue = k.queue ++ qs; channel = []; plotter = idle }

all_others_add :
    (k : SpaceKeeper) (qs : List QueuedRef)
    → k.plotter ≡ adding
    → k.channel ≡ qs
    → Many PlotterStep k (all_added k qs)
unfolding add_space
all_others_add k [] a c =
    subst (λ l. Many PlotterStep k (record k { queue = l; channel = []; plotter = idle }))
      (sym (append-nil k.queue))
      (subst (λ l. Many PlotterStep k (record k { channel = l; plotter = idle })) c
        (then_step none_yet (has_added a c)))
all_others_add k (q ∷ qs) a c =
    subst (λ l. Many PlotterStep k (record k { queue = l; channel = []; plotter = idle }))
      (append-one k.queue q qs)
      (first_step (adds_another q qs a c) (all_others_add (add_space k q qs) qs refl refl))

-- addSpaces as a whole, from an empty queue.
all_adds :
    (k : SpaceKeeper) (qs : List QueuedRef)
    → k.plotter ≡ idle
    → k.queue ≡ []
    → k.channel ≡ qs
    → qs ≢ []
    → Many PlotterStep k (all_added k qs)
unfolding add_space
all_adds k [] i empty c some_left = absurd (some_left refl)
all_adds k (q ∷ qs) i empty c some_left =
    subst (λ l. Many PlotterStep k (record k { queue = l; channel = []; plotter = idle }))
      (append-one k.queue q qs)
      (first_step (adds q qs i empty c) (all_others_add (add_space k q qs) qs refl refl))

-- From here on the queue is empty and the plotter idle.
module _ (k : SpaceKeeper) (sid : Sid) (r : Ref) (v : Inv k) (used : is_used k sid ≡ true)
    (there : get (k.by_state registered) sid ≡ some r)
    (room : length k.channel < plotter_max_chan_size) (rests : k.plotter ≡ idle)
    (served : k.queue ≡ []) where
  asked : SpaceKeeper
  asked = sent k sid r false

  plot_ws-asked : plot_ws k sid ≡ done asked none
  unfolding plot_ws send asked
  plot_ws-asked =
      let has_room : leb plotter_max_chan_size (length k.channel) ≡ false = ground (arith, room) in
      rw (plot_ws, used, there, send, has_room) refl

  stopped : SpaceKeeper
  stopped = queue_delete asked sid

  elsewhere : (s : WorkSpaceState) → s ≢ registered → get (k.by_state s) sid ≡ none
  elsewhere s other = elim (Option-cases (get (k.by_state s) sid)) [
    | inl e ↦ e
    | inr (p, e) ↦
        let (all_p, is_s) = v.coherent.stated s sid p e in
        let (all_r, is_registered) = v.coherent.stated registered sid r there in
        let same : p ≡ r = cc in
        absurd (other (sym is_s ∙ ap (λ x. (k.heap x).state) same ∙ is_registered))
  ]

  stop_ws-stopped : (stop_plot : StopReply) → stop_ws asked sid stop_plot ≡ done stopped none
  unfolding stop_ws stop_now asked stopped queue_delete is_used
  stop_ws-stopped stop_plot =
      rw (stop_ws, used, stop_now, elsewhere plotting (λ e. cc), elsewhere mining (λ e. cc)) refl

  stopped-queue : stopped.queue ≡ []
  unfolding stopped asked queue_delete keep_others
  stopped-queue = ap (keep_others asked sid) served

  filled : SpaceKeeper
  filled = all_added stopped (k.channel ++ (k.next_queued ∷ []))

  filled-queue : filled.queue ≡ k.channel ++ (k.next_queued ∷ [])
  unfolding filled stopped asked queue_delete
  filled-queue = ap (λ qs. qs ++ (k.channel ++ (k.next_queued ∷ []))) stopped-queue

  filled_steps : Many PlotterStep stopped filled
  unfolding filled stopped asked queue_delete
  filled_steps =
      all_adds stopped (k.channel ++ (k.next_queued ∷ [])) rests stopped-queue refl
        (append-cons k.channel k.next_queued)

  popped_last : SpaceKeeper
  popped_last = pop_item (at filled awake) k.channel k.next_queued []

  begun : SpaceKeeper
  begun = begin_plot popped_last k.next_queued

  begun_steps : Many PlotterStep stopped begun
  unfolding begun popped_last filled stopped asked queue_delete pop_item
  begun_steps =
      then_step
        (then_step
          (then_step filled_steps
            (wakes refl (λ e. append-cons k.channel k.next_queued (sym filled-queue ∙ e))))
          (pops k.channel k.next_queued [] refl filled-queue))
        (begins k.next_queued refl)

  begun-plotting : get (begun.by_state plotting) sid ≡ some r
  unfolding begun popped_last filled stopped asked queue_delete pop_item
  begun-plotting =
      let is_r = sent-new k sid r false in
      begin_plot-plotting popped_last k.next_queued sid r is_r
        (ap (λ p. (k.heap p).id) is_r
          ∙ (v.coherent.indexed sid r (v.coherent.stated registered sid r there).0).0)
        there

-- The channel has room, the plotter is idle and its queue empty: PlotWS of a used space that is
-- registered returns without error, and so does StopWS of it that follows, whatever StopPlot would
-- do; but steps of the plotter alone lead from there to a keeper in which the space is plotting.
pub stop_ws-pending :
    (k : SpaceKeeper) (sid : Sid) (r : Ref) (stop_plot : StopReply)
    → Inv k
    → Used k sid
    → get (k.by_state registered) sid ≡ some r
    → length k.channel < plotter_max_chan_size
    → k.plotter ≡ idle
    → k.queue ≡ []
    → (l : SpaceKeeper) × (m : SpaceKeeper) × (n : SpaceKeeper) × (plot_ws k sid ≡ done l none)
      × (stop_ws l sid stop_plot ≡ done m none)
      × Many PlotterStep m n
      × (get (n.by_state plotting) sid ≡ some r)
stop_ws-pending k sid r stop_plot v used there room rests served = (
  asked k sid r v used there room rests served,
  stopped k sid r v used there room rests served,
  begun k sid r v used there room rests served,
  plot_ws-asked k sid r v used there room rests served,
  stop_ws-stopped k sid r v used there room rests served stop_plot,
  begun_steps k sid r v used there room rests served,
  begun-plotting k sid r v used there room rests served,
)
