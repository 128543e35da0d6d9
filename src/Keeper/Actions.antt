-- ===== src/Keeper/Actions.antt =====
-- poc/engine/spacekeeper/capacity/capacity.go: Plot, Mine, Stop, Remove and Delete of one space.
use mass_net_miner.Common.{
  Bool, true, false, not, List, [], ◌∷◌, Option, none, some, ◌==◌, if◌then◌else◌,
}
use mass_net_miner.Engine
use mass_net_miner.Engine.{WorkSpaceState, registered, plotting, ready, mining}
use mass_net_miner.Keeper.Index.{Sid, Ref, get, drop_key}
use mass_net_miner.Keeper.State.{
  SkError, does_not_exist, is_not_still, invalid_action, unimplemented_action, WorkSpace, StopReply,
  stop_reports, stop_breaks, DbReplies, SpaceKeeper, Reply, done, blocks, panics, put_at,
  update_state, move, queue_delete, send, redirect,
}

-- if ws, ok := sk.workSpaceIndex[allState].Get(sid); !ok || !ws.using
unfoldable pub is_used : SpaceKeeper → Sid → Bool
is_used k sid = elim (get k.all sid) [ none ↦ false | some r ↦ (k.heap r).using ]

unfoldable pub plot_ws : SpaceKeeper → Sid → Reply
unfolding is_used send redirect
plot_ws k sid =
    if is_used k sid
    then elim (get (k.by_state registered) sid) [
      | some r ↦ send k r false
      | none ↦ elim (get (k.by_state plotting) sid) [
        | some r ↦ redirect k sid false
        | none ↦ done k none
      ]
    ]
    else done k (some does_not_exist)

unfoldable pub mine_ws : SpaceKeeper → Sid → Reply
unfolding is_used send redirect move
mine_ws k sid =
    if is_used k sid
    then elim (get (k.by_state registered) sid) [
      | some r ↦ send k r true
      | none ↦ elim (get (k.by_state plotting) sid) [
        | some r ↦ redirect k sid true
        | none ↦ elim (get (k.by_state ready) sid) [
          | some r ↦ done (move k ready mining sid r) none
          | none ↦ done k none
        ]
      ]
    ]
    else done k (some does_not_exist)

-- return ws.StopPlot(), behind a redirection that reports no error.
abbrev pub then_stop_plot : StopReply → Reply → Reply
then_stop_plot (stop_reports e) (done k none) = done k e
then_stop_plot stop_breaks (done k none) = panics
then_stop_plot stop_plot (done k (some e)) = done k (some e)
then_stop_plot stop_plot blocks = blocks
then_stop_plot stop_plot panics = panics

-- StopPlot waits for the plot to end, under the lock, so that no step of the keeper comes between.
unfoldable pub stop_now : SpaceKeeper → Sid → StopReply → Reply
unfolding redirect move
stop_now k sid stop_plot = elim (get (k.by_state plotting) sid) [
  | some r ↦ then_stop_plot stop_plot (redirect k sid false)
  | none ↦ elim (get (k.by_state mining) sid) [
    | some r ↦ done (move k mining ready sid r) none
    | none ↦ done k none
  ]
]

unfoldable pub stop_ws : SpaceKeeper → Sid → StopReply → Reply
unfolding is_used queue_delete stop_now
stop_ws k sid stop_plot =
    if is_used k sid
    then stop_now (queue_delete k sid) sid stop_plot
    else done k (some does_not_exist)

-- deleteFromSlice: the first entry of the space.
unfoldable pub delete_from_slice : (Ref → WorkSpace) → List Ref → Sid → List Ref
delete_from_slice heap [] sid = []
delete_from_slice heap (r ∷ rs) sid =
    let rest = r ∷ delete_from_slice heap rs sid in if (heap r).id == sid then rs else rest

unfoldable pub disuse_work_space : SpaceKeeper → Ref → SpaceKeeper
unfolding delete_from_slice
disuse_work_space k r = record k {
  heap = put_at k.heap r (record (k.heap r) { using = false });
  list = delete_from_slice k.heap k.list (k.heap r).id;
}

-- The space, if it is registered or ready.
unfoldable pub still : SpaceKeeper → Sid → Option Ref
still k sid = elim (get (k.by_state registered) sid) [
  | some r ↦ some r
  | none ↦ get (k.by_state ready) sid
]

unfoldable pub remove_still : SpaceKeeper → Option Ref → Reply
unfolding disuse_work_space
remove_still k none = done k (some is_not_still)
remove_still k (some r) = done (disuse_work_space k r) none

unfoldable pub remove_ws : SpaceKeeper → Sid → Reply
unfolding is_used queue_delete still remove_still
remove_ws k sid =
    if is_used k sid
    then (let k' = queue_delete k sid in remove_still k' (still k' sid))
    else done k (some does_not_exist)

-- `failure` is what MassDB's Delete reports.
unfoldable pub delete_still : SpaceKeeper → Sid → Option SkError → Option Ref → Reply
unfolding disuse_work_space
delete_still k sid failure none = done k (some is_not_still)
delete_still k sid failure (some r) =
    let s = (k.heap r).state in
    let k' = record k {
      by_state = update_state k.by_state s (drop_key (k.by_state s) sid);
      all = drop_key k.all sid;
    } in
    done (disuse_work_space k' r) failure

unfoldable pub delete_ws : SpaceKeeper → Sid → Option SkError → Reply
unfolding is_used queue_delete still delete_still
delete_ws k sid failure =
    if is_used k sid
    then (let k' = queue_delete k sid in delete_still k' sid failure (still k' sid))
    else done k (some does_not_exist)

unfoldable pub act_on_work_space : SpaceKeeper → Sid → Engine.ActionType → DbReplies → Reply
act_on_work_space k sid act db =
    if not (Engine.action_is_valid act)
    then done k (some invalid_action)
    else if act == Engine.plot
    then plot_ws k sid
    else if act == Engine.mine
    then mine_ws k sid
    else if act == Engine.stop
    then stop_ws k sid db.stop_reply
    else if act == Engine.remove
    then remove_ws k sid
    else if act == Engine.delete
    then delete_ws k sid db.delete_reply
    else done k (some unimplemented_action)
