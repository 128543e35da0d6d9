-- ===== src/Keeper/Behaviour.antt =====
-- What a sequence of actions does to a space.
use mass_net_miner.Common.{
  ◌≡◌, ◌≢◌, refl, sym, ◌∙◌, ap, true, false, inl, inr, List, [], ◌∷◌, Option, none, some,
  Option-cases, arith,
}
use mass_net_miner.Engine
use mass_net_miner.Engine.{WorkSpaceState, registered, plotting, ready, mining}
use mass_net_miner.Keeper.Index.{Sid, Ref, get, get-drop_key}
use mass_net_miner.Keeper.State.{
  SkError, does_not_exist, StopReply, DbReplies, QueuedRef, awake, SpaceKeeper, done, sid_of, move,
  keep_others, queue_delete,
}
use mass_net_miner.Keeper.Actions.{
  is_used, plot_ws, mine_ws, stop_now, stop_ws, still, remove_still, remove_ws, delete_still,
  delete_ws, act_on_work_space, disuse_work_space,
}
use mass_net_miner.Keeper.Coherent.{Coherent, get-move, same_state→eq, eq→same_state}
use mass_net_miner.Keeper.Invariant.{Inv, All}
use mass_net_miner.Keeper.Disuse.{unindexed}

-- The space of an id, where it is used.
abbrev pub Used : SpaceKeeper → Sid → Type 0
Used k sid = is_used k sid ≡ true

act_on_unused :
    (k : SpaceKeeper) (sid : Sid) (act : Engine.ActionType) (db : DbReplies)
    → is_used k sid ≡ false
    → Engine.action_is_valid act ≡ true
    → act_on_work_space k sid act db ≡ done k (some does_not_exist)
unfolding act_on_work_space plot_ws mine_ws stop_ws remove_ws delete_ws Engine.action_is_valid
act_on_unused k sid act db unused valid = ground arith

removed_unused :
    (k : SpaceKeeper) (sid : Sid) (r : Ref)
    → still k sid ≡ some r
    → Coherent k
    → is_used (disuse_work_space k r) sid ≡ false
unfolding is_used disuse_work_space still
removed_unused k sid r e c = ground (arith, c.stated registered sid r, c.stated ready sid r)

deleted_unused :
    (k : SpaceKeeper) (s : WorkSpaceState) (sid : Sid) (r : Ref)
    → is_used (disuse_work_space (unindexed k s sid) r) sid ≡ false
unfolding is_used disuse_work_space
deleted_unused k s sid r = ground (arith, get-drop_key k.all sid sid)

-- RemoveWS of a used space that is registered or ready reports no error, and after it every action of
-- a valid number on the id, whatever the database would reply, changes nothing and reports
-- ErrWorkSpaceDoesNotExist.
pub remove_ws-act_on_work_space :
    (k : SpaceKeeper) (sid : Sid) (r : Ref) (act : Engine.ActionType) (db : DbReplies)
    → Inv k
    → Used k sid
    → still k sid ≡ some r
    → Engine.action_is_valid act ≡ true
    → (l : SpaceKeeper) × (remove_ws k sid ≡ done l none)
      × (act_on_work_space l sid act db ≡ done l (some does_not_exist))
unfolding remove_ws queue_delete still remove_still
remove_ws-act_on_work_space k sid r act db v used e valid =
    let l = disuse_work_space (queue_delete k sid) r in
    (
      l,
      rw (used, remove_ws, e) refl,
      act_on_unused l sid act db
          (removed_unused (queue_delete k sid) sid r e
            (record { indexed = v.coherent.indexed; stated = v.coherent.stated }))
          valid,
    )

-- DeleteWS of a used space that is registered or ready reports what the database's deletion reports,
-- and even if that is an error, after it every action of a valid number on the id changes nothing
-- and reports ErrWorkSpaceDoesNotExist.
pub delete_ws-act_on_work_space :
    (k : SpaceKeeper) (sid : Sid) (r : Ref) (act : Engine.ActionType) (failure : Option SkError)
    (later : DbReplies)
    → Used k sid
    → still k sid ≡ some r
    → Engine.action_is_valid act ≡ true
    → (l : SpaceKeeper) × (delete_ws k sid failure ≡ done l failure)
      × (act_on_work_space l sid act later ≡ done l (some does_not_exist))
unfolding delete_ws queue_delete still delete_still
delete_ws-act_on_work_space k sid r act failure later used e valid =
    let l = disuse_work_space (unindexed (queue_delete k sid) (k.heap r).state sid) r in
    (
      l,
      rw (used, delete_ws, e) refl,
      act_on_unused l sid act later (deleted_unused (queue_delete k sid) (k.heap r).state sid r)
          valid,
    )

is_used-move :
    (k : SpaceKeeper) (old new : WorkSpaceState) (sid : Sid) (r : Ref) (j : Sid)
    → is_used (move k old new sid r) j ≡ is_used k j
unfolding is_used move
is_used-move k old new sid r j = ground arith

module _ (k : SpaceKeeper) (sid : Sid) (r : Ref) (v : Inv k)
    (there : get (k.by_state ready) sid ≡ some r) where
  elsewhere : (s : WorkSpaceState) → s ≢ ready → get (k.by_state s) sid ≡ none
  elsewhere s other = elim (Option-cases (get (k.by_state s) sid)) [
    | inl e ↦ e
    | inr (p, e) ↦
        let (all_p, is_s) = v.coherent.stated s sid p e in
        let (all_r, is_ready) = v.coherent.stated ready sid r there in
        absurd (other (sym is_s ∙ ap (λ x. (k.heap x).state) (refs p all_p all_r) ∙ is_ready))
  ]
    where
      refs : (p : Ref) → get k.all sid ≡ some p → get k.all sid ≡ some r → p ≡ r
      refs p a b = cc

  mined : SpaceKeeper
  mined = move k ready mining sid r

  mined-elsewhere : (s : WorkSpaceState) → s ≢ mining → get (mined.by_state s) sid ≡ none
  unfolding mined
  mined-elsewhere s other = ground (
    arith,
    get-move k ready mining sid r s sid,
    elsewhere s,
    same_state→eq mining s,
    eq→same_state ready s,
  )

  mined-mining : get (mined.by_state mining) sid ≡ some r
  unfolding mined
  mined-mining = ground (arith, get-move k ready mining sid r mining sid)

  unmined : SpaceKeeper
  unmined = move (queue_delete mined sid) mining ready sid r

  unmined-get : (s : WorkSpaceState) (j : Sid) → get (unmined.by_state s) j ≡ get (k.by_state s) j
  unfolding unmined queue_delete mined
  unmined-get s j = ground (
    arith,
    get-move (queue_delete mined sid) mining ready sid r s j,
    get-move k ready mining sid r s j,
    same_state→eq ready s,
    eq→same_state ready s,
    same_state→eq mining s,
    elsewhere s,
    there,
  )

  stop_mined :
      (stop_plot : StopReply) → stop_now (queue_delete mined sid) sid stop_plot ≡ done unmined none
  unfolding stop_now unmined queue_delete
  stop_mined stop_plot = rw (stop_now, mined-elsewhere plotting (λ e. cc), mined-mining) refl

-- MineWS of a used space that is ready makes it mining and reports no error; StopWS of it then
-- reports no error, whatever StopPlot would do, and every index of a state is as before: each id
-- has there the space that it had.
pub mine_ws-stop_ws :
    (k : SpaceKeeper) (sid : Sid) (r : Ref) (stop_plot : StopReply)
    → Inv k
    → Used k sid
    → get (k.by_state ready) sid ≡ some r
    → (l : SpaceKeeper) × (m : SpaceKeeper) × (mine_ws k sid ≡ done l none)
      × (get (l.by_state mining) sid ≡ some r)
      × (stop_ws l sid stop_plot ≡ done m none)
      × ((s : WorkSpaceState) (j : Sid) → get (m.by_state s) j ≡ get (k.by_state s) j)
unfolding mined unmined mine_ws stop_ws move queue_delete
mine_ws-stop_ws k sid r stop_plot v used there =
    let used_still = is_used-move k ready mining sid r sid ∙ used in
    (
      mined k sid r v there,
      unmined k sid r v there,
      rw
          (
            mine_ws,
            used,
            elsewhere k sid r v there registered (λ e. cc),
            elsewhere k sid r v there plotting (λ e. cc),
            there,
          )
          refl,
      mined-mining k sid r v there,
      rw (stop_ws, used_still) (stop_mined k sid r v there stop_plot),
      unmined-get k sid r v there,
    )

keep_others-nil :
    (k : SpaceKeeper) (sid : Sid) (qs : List QueuedRef)
    → All (λ q. sid_of k q ≡ sid) qs
    → keep_others k sid qs ≡ []
unfolding keep_others
keep_others-nil k sid [] a = refl
keep_others-nil k sid (q ∷ qs) a = ground (arith, keep_others-nil k sid qs a.1, a.0)

-- When the plotter has found its queue not empty, and every request in it is for one used space,
-- StopWS of that space, before the plotter pops a request and whatever StopPlot would do, returns
-- without error and leaves the queue empty, while the plotter still stands before PopItem.
pub stop_ws-empties :
    (k : SpaceKeeper) (sid : Sid) (stop_plot : StopReply)
    → Inv k
    → Used k sid
    → k.plotter ≡ awake
    → All (λ q. sid_of k q ≡ sid) k.queue
    → (l : SpaceKeeper) × (stop_ws k sid stop_plot ≡ done l none)
      × (l.queue ≡ [])
      × (l.plotter ≡ awake)
unfolding queue_delete stop_ws stop_now move
stop_ws-empties k sid stop_plot v used awakened only =
    elim (Option-cases (get (k.by_state mining) sid)) [
      | inr (r, e) ↦ (
        move (queue_delete k sid) mining ready sid r,
        rw (stop_ws, used, stop_now, not_plotting, e) refl,
        keep_others-nil k sid k.queue only,
        awakened,
      )
      | inl e ↦ (
        queue_delete k sid,
        rw (stop_ws, used, stop_now, not_plotting, e) refl,
        keep_others-nil k sid k.queue only,
        awakened,
      )
    ]
  where
    not_plotting : get (k.by_state plotting) sid ≡ none
    not_plotting = elim (Option-cases (get (k.by_state plotting) sid)) [
      | inl e ↦ e
      | inr (r, e) ↦ let (q, serves, _) = v.one_plotting sid r e in cc
    ]
