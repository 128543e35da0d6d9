-- ===== src/Keeper/Tests.antt =====
-- The keeper with one space.
use mass_net_miner.Common.{◌≡◌, refl, true, [], ◌∷◌, none, some, arith, length, ◌<◌}
use mass_net_miner.Engine
use mass_net_miner.Engine.{WorkSpaceState, registered, plotting, ready, mining}
use mass_net_miner.Keeper.Index.{Ref, Sid, get, drop_key, put}
use mass_net_miner.Keeper.State.{
  does_not_exist, is_not_plotting, delete_failed, stop_reports, stop_breaks, DbReplies, panics,
  redirect, queue_delete, keep_others, WorkSpace, idle, awake, SpaceKeeper, done, sid_of, move,
  new_space_keeper, add_work_space_to_index, add_work_spaces, send, plotter_max_chan_size,
}
use mass_net_miner.Keeper.Actions.{
  is_used, plot_ws, mine_ws, stop_now, stop_ws, still, remove_ws, delete_ws, act_on_work_space,
}
use mass_net_miner.Keeper.Plotting.{pop_item, begin_plot, end_plot, add_space}
use mass_net_miner.Keeper.Coherent.{Coherent}
use mass_net_miner.Keeper.Invariant.{Inv, All}
use mass_net_miner.Keeper.Replies.{Sound, ReportsOthers, sent}
use mass_net_miner.Keeper.Safe.{Breaks}
use mass_net_miner.Keeper.Served.{at}
use mass_net_miner.Keeper.Steps.{
  Steps, Step, PlotterStep, Many, acts, plots, none_yet, then_step, adds, has_added, wakes, pops,
  begins, ends, Steps-Inv,
}
use mass_net_miner.Keeper.Initial.{NonePlots, started, started-Inv}
use mass_net_miner.Keeper.Turns.{Turned}
use mass_net_miner.Keeper.Reached.{
  cause, reached-Sound, reached-one_plots, reached-Coherent, reached-Turned,
}
use mass_net_miner.Keeper.Behaviour.{
  remove_ws-act_on_work_space, delete_ws-act_on_work_space, mine_ws-stop_ws, stop_ws-empties,
}
use mass_net_miner.Keeper.Pending.{stop_ws-pending}

abbrev new_space : Ref → WorkSpace
new_space r = record { id = 5; state = registered; using = true }

abbrev plotted_space : Ref → WorkSpace
plotted_space r = record { id = 5; state = ready; using = true }

new_space-NonePlots : NonePlots new_space
new_space-NonePlots r e = cc

plotted_space-NonePlots : NonePlots plotted_space
plotted_space-NonePlots r e = cc

abbrev quiet : DbReplies
quiet = record { delete_reply = none; stop_reply = stop_reports none }

abbrev breaking : DbReplies
breaking = record { delete_reply = none; stop_reply = stop_breaks }

quiet-ReportsOthers : ReportsOthers quiet
quiet-ReportsOthers = record { other_delete = λ e. cc; other_stop = λ e. not_none (reported e) }
  where
    reported : stop_reports none ≡ stop_reports (some is_not_plotting) → none ≡ some is_not_plotting
    reported e = cc

    not_none : ¬ (none ≡ some is_not_plotting)
    not_none e = cc

breaking-ReportsOthers : ReportsOthers breaking
breaking-ReportsOthers = record { other_delete = λ e. cc; other_stop = λ e. cc }

abbrev fresh : SpaceKeeper
fresh = started new_space (0 ∷ [])

abbrev still_one : SpaceKeeper
still_one = started plotted_space (0 ∷ [])

abbrev asked : SpaceKeeper
asked = sent fresh 5 0 true

asks : Step fresh asked
unfolding act_on_work_space Engine.action_is_valid mine_ws is_used send started new_space_keeper
    add_work_spaces add_work_space_to_index get put drop_key
asks = acts {e = none} 5 Engine.mine quiet quiet-ReportsOthers refl

abbrev woken : SpaceKeeper
woken = at (at (add_space asked 0 []) idle) awake

woken-Steps : Steps fresh woken
unfolding add_space started new_space_keeper add_work_spaces add_work_space_to_index get
woken-Steps =
    then_step
      (then_step (then_step (then_step none_yet asks) (plots (adds 0 [] refl refl refl)))
        (plots (has_added refl refl)))
      (plots (wakes refl (λ e. cc)))

abbrev plotting_one : SpaceKeeper
plotting_one = begin_plot (pop_item woken [] 0 []) 0

plotting-Steps : Steps fresh plotting_one
unfolding add_space pop_item started new_space_keeper add_work_spaces add_work_space_to_index get
plotting-Steps =
    then_step (then_step woken-Steps (plots (pops [] 0 [] refl refl))) (plots (begins 0 refl))

plots_five : get (plotting_one.by_state plotting) 5 ≡ some 0
unfolding begin_plot move pop_item add_space started new_space_keeper add_work_spaces
    add_work_space_to_index get put drop_key
plots_five = refl

reached-Sound_example :
    Sound
      (Breaks plotting_one 5 Engine.stop breaking)
      (act_on_work_space plotting_one 5 Engine.stop breaking)
reached-Sound_example =
    reached-Sound new_space (0 ∷ []) plotting_one new_space-NonePlots plotting-Steps 5 Engine.stop
      breaking breaking-ReportsOthers

-- That action panics.
stop_breaks_now : act_on_work_space plotting_one 5 Engine.stop breaking ≡ panics
unfolding act_on_work_space Engine.action_is_valid stop_ws stop_now redirect queue_delete
    keep_others is_used begin_plot move pop_item add_space started new_space_keeper add_work_spaces
    add_work_space_to_index get put drop_key
stop_breaks_now = refl

reached-one_plots_example : ◌≡◌ {A = Sid} 5 5
reached-one_plots_example =
    reached-one_plots new_space (0 ∷ []) plotting_one new_space-NonePlots plotting-Steps 5 5 0 0
      plots_five plots_five

reached-Coherent_example : Coherent plotting_one
reached-Coherent_example =
    reached-Coherent new_space (0 ∷ []) plotting_one new_space-NonePlots plotting-Steps

-- The plot is whole, and its request would mine.
plot_ends : Step plotting_one (end_plot plotting_one 0 true)
unfolding begin_plot move pop_item add_space started new_space_keeper add_work_spaces
    add_work_space_to_index get put drop_key
plot_ends = plots (ends 0 true refl)

reached-Turned_example :
    Turned plotting_one
      (cause plotting_one (end_plot plotting_one 0 true) plot_ends)
      (end_plot plotting_one 0 true)
reached-Turned_example =
    reached-Turned new_space (0 ∷ []) plotting_one (end_plot plotting_one 0 true)
      new_space-NonePlots plotting-Steps plot_ends

still_one-Inv : Inv still_one
still_one-Inv = started-Inv plotted_space (0 ∷ []) plotted_space-NonePlots

five_used : is_used still_one 5 ≡ true
unfolding is_used started new_space_keeper add_work_spaces add_work_space_to_index get put drop_key
five_used = refl

five_ready : get (still_one.by_state ready) 5 ≡ some 0
unfolding started new_space_keeper add_work_spaces add_work_space_to_index get put drop_key
five_ready = refl

five_still : still still_one 5 ≡ some 0
unfolding still started new_space_keeper add_work_spaces add_work_space_to_index get put drop_key
five_still = refl

mine_is_valid : Engine.action_is_valid Engine.mine ≡ true
unfolding Engine.action_is_valid
mine_is_valid = refl

remove_ws-act_on_work_space_example :
    (l : SpaceKeeper) × (remove_ws still_one 5 ≡ done l none)
    × (act_on_work_space l 5 Engine.mine quiet ≡ done l (some does_not_exist))
remove_ws-act_on_work_space_example =
    remove_ws-act_on_work_space still_one 5 0 Engine.mine quiet still_one-Inv five_used five_still
      mine_is_valid

delete_ws-act_on_work_space_example :
    (l : SpaceKeeper) × (delete_ws still_one 5 (some delete_failed) ≡ done l (some delete_failed))
    × (act_on_work_space l 5 Engine.mine quiet ≡ done l (some does_not_exist))
delete_ws-act_on_work_space_example =
    delete_ws-act_on_work_space still_one 5 0 Engine.mine (some delete_failed) quiet five_used
      five_still mine_is_valid

mine_ws-stop_ws_example :
    (l : SpaceKeeper) × (m : SpaceKeeper) × (mine_ws still_one 5 ≡ done l none)
    × (get (l.by_state mining) 5 ≡ some 0)
    × (stop_ws l 5 (stop_reports none) ≡ done m none)
    × ((s : WorkSpaceState) (j : Sid) → get (m.by_state s) j ≡ get (still_one.by_state s) j)
mine_ws-stop_ws_example =
    mine_ws-stop_ws still_one 5 0 (stop_reports none) still_one-Inv five_used five_ready

woken_used : is_used woken 5 ≡ true
unfolding is_used add_space started new_space_keeper add_work_spaces add_work_space_to_index get put
    drop_key
woken_used = refl

woken_queue : All (λ q. sid_of woken q ≡ 5) woken.queue
unfolding add_space started new_space_keeper add_work_spaces add_work_space_to_index get put
    drop_key
woken_queue = (refl, tt)

stop_ws-empties_example :
    (l : SpaceKeeper) × (stop_ws woken 5 (stop_reports none) ≡ done l none)
    × (l.queue ≡ [])
    × (l.plotter ≡ awake)
stop_ws-empties_example =
    stop_ws-empties woken 5 (stop_reports none)
      (Steps-Inv fresh woken woken-Steps (started-Inv new_space (0 ∷ []) new_space-NonePlots))
      woken_used refl woken_queue

fresh_used : is_used fresh 5 ≡ true
unfolding is_used started new_space_keeper add_work_spaces add_work_space_to_index get put drop_key
fresh_used = refl

fresh_registered : get (fresh.by_state registered) 5 ≡ some 0
unfolding started new_space_keeper add_work_spaces add_work_space_to_index get put drop_key
fresh_registered = refl

fresh_room : length fresh.channel < plotter_max_chan_size
unfolding started new_space_keeper add_work_spaces add_work_space_to_index get
fresh_room = omega arith

fresh_idle : (fresh.plotter ≡ idle) × (fresh.queue ≡ [])
unfolding started new_space_keeper add_work_spaces add_work_space_to_index get
fresh_idle = (refl, refl)

stop_ws-pending_example :
    (l : SpaceKeeper) × (m : SpaceKeeper) × (n : SpaceKeeper) × (plot_ws fresh 5 ≡ done l none)
    × (stop_ws l 5 (stop_reports none) ≡ done m none)
    × Many PlotterStep m n
    × (get (n.by_state plotting) 5 ≡ some 0)
stop_ws-pending_example =
    stop_ws-pending fresh 5 0 (stop_reports none)
      (started-Inv new_space (0 ∷ []) new_space-NonePlots) fresh_used fresh_registered fresh_room
      fresh_idle.0 fresh_idle.1
