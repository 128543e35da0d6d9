-- ===== src/Configure/Apply.antt =====
-- useWorkSpace and applyConfiguredWorkSpaces.
use mass_net_miner.Common.{
  suc, Bool, true, false, ◌||◌, List, [], ◌∷◌, ◌++◌, none, ◌==◌, if◌then◌else◌,
}
use mass_net_miner.Keeper.Index.{Sid, Ref}
use mass_net_miner.Keeper.State.{WorkSpace, SpaceKeeper, put_at}

pub data Applied : Type 0 where
  configured_nothing : Applied
  applied : SpaceKeeper → Applied

-- A space of the list has the id.
unfoldable pub lists_id : (Ref → WorkSpace) → Sid → List Ref → Bool
lists_id heap sid [] = false
lists_id heap sid (r ∷ rs) =
    let rest = lists_id heap sid rs in if (heap r).id == sid then true else rest

unfoldable pub use_work_space : SpaceKeeper → Ref → SpaceKeeper
unfolding lists_id
use_work_space k r = if lists_id k.heap (k.heap r).id k.list then k else record k {
  list = k.list ++ (r ∷ []);
  heap = put_at k.heap r (record (k.heap r) { using = true });
}

-- for _, ws := range sk.workSpaceList { ws.using = false }
unfoldable pub disuse_each : (Ref → WorkSpace) → List Ref → Ref → WorkSpace
disuse_each heap [] = heap
disuse_each heap (r ∷ rs) = disuse_each (put_at heap r (record (heap r) { using = false })) rs

-- plotterQueue.Reset
unfoldable pub reset_queue : SpaceKeeper → SpaceKeeper
reset_queue k = record k { queue = []; popped = none }

-- A request for the space is pushed.
unfoldable pub push_request : SpaceKeeper → Ref → Bool → SpaceKeeper
push_request k r would_mining = record k {
  queued = put_at k.queued k.next_queued (record { ws = r; would_mining = would_mining });
  next_queued = suc k.next_queued;
  queue = k.queue ++ (k.next_queued ∷ []);
}

-- The spaces in the order in which the temporary queue gives them.
unfoldable pub apply_each : SpaceKeeper → Bool → List Ref → SpaceKeeper
unfolding push_request use_work_space
apply_each k exec_mine [] = k
apply_each k exec_mine (r ∷ rs) =
    apply_each (use_work_space (push_request k r exec_mine) r) exec_mine rs

-- `order` is what the temporary queue makes of a list.
unfoldable pub apply_configured_work_spaces :
    (List Ref → List Ref) → SpaceKeeper → List Ref → Bool → Bool → Applied
unfolding disuse_each reset_queue apply_each
apply_configured_work_spaces order k [] exec_plot exec_mine = configured_nothing
apply_configured_work_spaces order k (r ∷ rs) exec_plot exec_mine =
    let cleared = reset_queue (record k { heap = disuse_each k.heap k.list; list = [] }) in
    let done = apply_each cleared exec_mine (order (r ∷ rs)) in
    applied (if exec_mine || exec_plot then done else reset_queue done)
