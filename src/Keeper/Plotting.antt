-- ===== src/Keeper/Plotting.antt =====
-- poc/engine/spacekeeper/capacity/space_plotter.go: the critical sections of the plotter.
use mass_net_miner.Common.{Bool, List, [], ◌∷◌, ◌++◌, none, some, if◌then◌else◌}
use mass_net_miner.Engine.{registered, plotting, ready, mining}
use mass_net_miner.Keeper.Index.{get}
use mass_net_miner.Keeper.State.{QueuedRef, idle, adding, taken, busy, SpaceKeeper, sid_of, move}

-- PopItem takes one request, with others before and after it in the bag.
unfoldable pub pop_item : SpaceKeeper → List QueuedRef → QueuedRef → List QueuedRef → SpaceKeeper
pop_item k before q after = record k { queue = before ++ after; popped = some q; plotter = taken q }

-- Step 1 of plotSpace.
unfoldable pub begin_plot : SpaceKeeper → QueuedRef → SpaceKeeper
unfolding move
begin_plot k q =
    let r = (k.queued q).ws in
    let sid = sid_of k q in
    elim (get (k.by_state registered) sid) [
      | some _ ↦ record (move k registered plotting sid r) { plotter = busy q }
      | none ↦ elim (get (k.by_state ready) sid) [
        | some _ ↦
            if (k.queued q).would_mining
            then record (move k ready mining sid r) { plotter = idle }
            else record k { plotter = idle }
        | none ↦ record k { plotter = idle }
      ]
    ]

-- Step 3 of plotSpace. `plotted`: the progress has come to 100.
unfoldable pub end_plot : SpaceKeeper → QueuedRef → Bool → SpaceKeeper
unfolding move
end_plot k q plotted =
    let r = (k.queued q).ws in
    let sid = sid_of k q in
    let target =
      if plotted then if (k.queued q).would_mining then mining else ready else registered in
    record (move k plotting target sid r) { plotter = idle }

-- addSpaces pushes the request at the head of the channel, one at a time, until the channel is empty.
-- The push takes no lock and is one step here: that it meets plotterQueue.Delete or Reset while they
-- replace the queue, a data race, is left out.
unfoldable pub add_space : SpaceKeeper → QueuedRef → List QueuedRef → SpaceKeeper
add_space k q others = record k { queue = k.queue ++ (q ∷ []); channel = others; plotter = adding }

-- The plotter leaves: the queue is reset.
unfoldable pub quit_plotter : SpaceKeeper → SpaceKeeper
quit_plotter k = record k { queue = []; popped = none; plotter = idle }
