-- ===== src/Keeper/Turns.antt =====
-- The state machine of a work space, which the steps of the keeper refine.
use mass_net_miner.Common.{
  ◌≡◌, ◌≢◌, refl, sym, ◌∙◌, ap, subst, Bool, true, false, inl, inr, Option, none, some, ◌==◌,
  ==_iff, if◌then◌else◌, Bool-cases, Option-cases, not, leb, length,
}
use mass_net_miner.Engine
use mass_net_miner.Engine.{WorkSpaceState, registered, plotting, ready, mining}
use mass_net_miner.Keeper.Index.{Sid, Ref, SpaceMap, get}
use mass_net_miner.Keeper.State.{
  SkError, does_not_exist, StopReply, stop_reports, stop_breaks, DbReplies, SpaceKeeper, Reply,
  done, blocks, panics, sid_of, move, send, redirect, queue_delete, plotter_max_chan_size,
}
use mass_net_miner.Keeper.Actions.{
  is_used, plot_ws, mine_ws, stop_now, stop_ws, still, remove_still, remove_ws, delete_still,
  delete_ws, act_on_work_space, disuse_work_space, then_stop_plot,
}
use mass_net_miner.Keeper.Invariant.{Inv, queue_delete-Inv}
use mass_net_miner.Keeper.Disuse.{disuse-state, unindexed}

-- What a step is about: an action and the id that it acts on; the space of a request with which Step 1
-- of plotSpace begins, and whether that shall mine; the same in Step 3, behind whether the plot is whole;
-- or none of these.
pub data Cause : Type 0 where
  acted : Engine.ActionType → Sid → Cause
  begun : Ref → Bool → Cause
  ended : Ref → Bool → Bool → Cause
  waited : Cause

-- What the comments of PlotWS, MineWS and StopWS and those of plotSpace allow a space in a step of the
-- cause, where `all` are the spaces by their ids. Only the end of a plot has to change its space.
pub data Turn (all : SpaceMap) : Cause → Ref → WorkSpaceState → WorkSpaceState → Type 0 where
  action_stays :
      {act : Engine.ActionType} {sid : Sid} {p : Ref} {s : WorkSpaceState}
      → Turn all (acted act sid) p s s
  mine_begins :
      {act : Engine.ActionType} {sid : Sid} {p : Ref}
      → act ≡ Engine.mine
      → get all sid ≡ some p
      → Turn all (acted act sid) p ready mining
  mine_ends :
      {act : Engine.ActionType} {sid : Sid} {p : Ref}
      → act ≡ Engine.stop
      → get all sid ≡ some p
      → Turn all (acted act sid) p mining ready
  begin_stays :
      {r : Ref} {would : Bool} {p : Ref} {s : WorkSpaceState} → Turn all (begun r would) p s s
  begins_plot : {r : Ref} {would : Bool} → Turn all (begun r would) r registered plotting
  queued_mines : {r : Ref} → Turn all (begun r true) r ready mining
  others_stay :
      {r : Ref} {plotted would : Bool} {p : Ref} {s : WorkSpaceState}
      → p ≢ r
      → Turn all (ended r plotted would) p s s
  plot_is_stopped : {r : Ref} {would : Bool} → Turn all (ended r false would) r plotting registered
  plot_is_ready : {r : Ref} → Turn all (ended r true false) r plotting ready
  plot_is_mined : {r : Ref} → Turn all (ended r true true) r plotting mining
  waiting_stays : {p : Ref} {s : WorkSpaceState} → Turn all waited p s s

-- Every space of l comes from that of k by a turn of the cause.
abbrev pub Turned : SpaceKeeper → Cause → SpaceKeeper → Type 0
Turned k c l = (p : Ref) → Turn k.all c p (k.heap p).state (l.heap p).state

-- A keeper that a reply returns is one turn behind k.
pub data ReplyTurned (k : SpaceKeeper) (c : Cause) : Reply → Type 0 where
  turned : {l : SpaceKeeper} {e : Option SkError} → Turned k c l → ReplyTurned k c (done l e)
  no_reply : ReplyTurned k c blocks
  no_return : ReplyTurned k c panics

abbrev next : Reply → SpaceKeeper → SpaceKeeper
next (done k e) d = k
next _ d = d

pub done-Turned :
    (k : SpaceKeeper) (c : Cause) (l : SpaceKeeper) (e : Option SkError) (x : Reply)
    → ReplyTurned k c x
    → x ≡ done l e
    → Turned k c l
done-Turned k c l e x (turned {l = m} t) h =
    let same : m ≡ l = ap (λ y. next y k) h in subst (Turned k c) same t
done-Turned k c l e x no_reply h = cc
done-Turned k c l e x no_return h = cc

pub move-Turned :
    (k : SpaceKeeper) (c : Cause) (old new : WorkSpaceState) (sid : Sid) (r : Ref)
    → (k.heap r).state ≡ old
    → Turn k.all c r old new
    → ((p : Ref) (s : WorkSpaceState) → p ≢ r → Turn k.all c p s s)
    → Turned k c (move k old new sid r)
unfolding move
move-Turned k c old new sid r is t others p = elim (Bool-cases (r == p)) [
  | inl here ↦
      let same : r ≡ p = (==_iff r p).0 here in
      rw (move, here)
        (subst (λ q. Turn k.all c q (k.heap q).state new) same
          (subst (λ s. Turn k.all c r s new) (sym is) t))
  | inr there ↦
      rw (move, there)
        (others p (k.heap p).state (λ e. not_here (sym there ∙ (==_iff r p).1 (sym e))))
]
  where
    not_here : ◌≢◌ {A = Bool} false true
    not_here e = cc

if-Turned :
    (k : SpaceKeeper) (c : Cause) {x y : Reply} (b : Bool)
    → (b ≡ true → ReplyTurned k c x)
    → ReplyTurned k c y
    → ReplyTurned k c (if b then x else y)
if-Turned k c true s t = s refl
if-Turned k c false s t = t

-- An action under which every space stays as it is.
module _ (k : SpaceKeeper) (sid : Sid) (act : Engine.ActionType) where
  same_reply : {e : Option SkError} → ReplyTurned k (acted act sid) (done k e)
  same_reply = turned (λ p. action_stays)

  send-Turned : (r : Ref) (would : Bool) → ReplyTurned k (acted act sid) (send k r would)
  unfolding send
  send-Turned r would =
      if-Turned k (acted act sid) (leb plotter_max_chan_size (length k.channel)) (λ b. no_reply)
        (turned (λ p. action_stays))

  redirect-Turned : (would : Bool) → ReplyTurned k (acted act sid) (redirect k sid would)
  unfolding redirect
  redirect-Turned would = elim (Option-cases k.popped) [
    | inl e ↦ rw (redirect, e) no_return
    | inr (q, e) ↦
        rw (redirect, e)
          (if-Turned (record k { popped = some q }) (acted act sid) (sid_of k q == sid)
            (λ b. turned (λ p. action_stays)) (turned (λ p. action_stays)))
  ]

  then_stop_plot-Turned :
      (stop_plot : StopReply) (x : Reply)
      → ReplyTurned k (acted act sid) x
      → ReplyTurned k (acted act sid) (then_stop_plot stop_plot x)
  then_stop_plot-Turned (stop_reports f) (done l none) (turned t) = turned t
  then_stop_plot-Turned stop_breaks (done l none) (turned t) = no_return
  then_stop_plot-Turned (stop_reports f) (done l (some e)) (turned t) = turned t
  then_stop_plot-Turned stop_breaks (done l (some e)) (turned t) = turned t
  then_stop_plot-Turned (stop_reports f) blocks t = no_reply
  then_stop_plot-Turned stop_breaks blocks t = no_reply
  then_stop_plot-Turned (stop_reports f) panics t = no_return
  then_stop_plot-Turned stop_breaks panics t = no_return

module _ (k : SpaceKeeper) (sid : Sid) (act : Engine.ActionType) (v : Inv k) where
  -- An action moves the space of its id.
  move_reply :
      (old new : WorkSpaceState) (r : Ref)
      → get (k.by_state old) sid ≡ some r
      → (get k.all sid ≡ some r → Turn k.all (acted act sid) r old new)
      → ReplyTurned k (acted act sid) (done (move k old new sid r) none)
  move_reply old new r there t =
      let (among, is) = v.coherent.stated old sid r there in
      turned (move-Turned k (acted act sid) old new sid r is (t among) (λ p s other. action_stays))

  plot_ws-Turned : ReplyTurned k (acted act sid) (plot_ws k sid)
  unfolding plot_ws
  plot_ws-Turned =
      if-Turned k (acted act sid) (is_used k sid)
        (λ b. elim (Option-cases (get (k.by_state registered) sid)) [
          | inr (r, e) ↦ rw e (send-Turned k sid act r false)
          | inl e ↦ elim (Option-cases (get (k.by_state plotting) sid)) [
            | inr (r, f) ↦ rw (e, f) (redirect-Turned k sid act false)
            | inl f ↦ rw (e, f) (same_reply k sid act)
          ]
        ])
        (same_reply k sid act)

  mine_ws-Turned : act ≡ Engine.mine → ReplyTurned k (acted act sid) (mine_ws k sid)
  unfolding mine_ws
  mine_ws-Turned is_mine =
      if-Turned k (acted act sid) (is_used k sid)
        (λ b. elim (Option-cases (get (k.by_state registered) sid)) [
          | inr (r, e) ↦ rw e (send-Turned k sid act r true)
          | inl e ↦ elim (Option-cases (get (k.by_state plotting) sid)) [
            | inr (r, f) ↦ rw (e, f) (redirect-Turned k sid act true)
            | inl f ↦ elim (Option-cases (get (k.by_state ready) sid)) [
              | inr (r, g) ↦ rw (e, f, g) (move_reply ready mining r g (mine_begins is_mine))
              | inl g ↦ rw (e, f, g) (same_reply k sid act)
            ]
          ]
        ])
        (same_reply k sid act)

  stop_now-Turned :
      (stop_plot : StopReply)
      → act ≡ Engine.stop
      → ReplyTurned k (acted act sid) (stop_now k sid stop_plot)
  unfolding stop_now
  stop_now-Turned stop_plot is_stop = elim (Option-cases (get (k.by_state plotting) sid)) [
    | inr (r, f) ↦
        rw (stop_now, f)
          (then_stop_plot-Turned k sid act stop_plot (redirect k sid false)
            (redirect-Turned k sid act false))
    | inl f ↦ elim (Option-cases (get (k.by_state mining) sid)) [
      | inr (r, g) ↦ rw (stop_now, f, g) (move_reply mining ready r g (mine_ends is_stop))
      | inl g ↦ rw (stop_now, f, g) (same_reply k sid act)
    ]
  ]

  disuse-Turned :
      (l : SpaceKeeper) (r : Ref)
      → l.heap ≡ k.heap
      → Turned k (acted act sid) (disuse_work_space l r)
  disuse-Turned l r same p =
      subst (Turn k.all (acted act sid) p (k.heap p).state)
        (sym (disuse-state l r p ∙ ap (λ h. (h p).state) same)) action_stays

  remove_still-Turned : (o : Option Ref) → ReplyTurned k (acted act sid) (remove_still k o)
  unfolding remove_still
  remove_still-Turned none = same_reply k sid act
  remove_still-Turned (some r) = turned (disuse-Turned k r refl)

  delete_still-Turned :
      (failure : Option SkError) (o : Option Ref)
      → ReplyTurned k (acted act sid) (delete_still k sid failure o)
  unfolding delete_still
  delete_still-Turned failure none = same_reply k sid act
  delete_still-Turned failure (some r) =
      turned (disuse-Turned (unindexed k (k.heap r).state sid) r refl)

-- The queue does not count.
queue_delete-Turned :
    (k : SpaceKeeper) (sid : Sid) (c : Cause) (x : Reply)
    → ReplyTurned (queue_delete k sid) c x
    → ReplyTurned k c x
unfolding queue_delete
queue_delete-Turned k sid c x (turned t) = turned t
queue_delete-Turned k sid c x no_reply = no_reply
queue_delete-Turned k sid c x no_return = no_return

module _ (k : SpaceKeeper) (sid : Sid) (act : Engine.ActionType) (v : Inv k) where
  used_queue-Turned :
      {x : Reply}
      → ReplyTurned (queue_delete k sid) (acted act sid) x
      → ReplyTurned k (acted act sid) (if is_used k sid then x else done k (some does_not_exist))
  used_queue-Turned {x = x} t =
      if-Turned k (acted act sid) (is_used k sid)
        (λ b. queue_delete-Turned k sid (acted act sid) x t) (same_reply k sid act)

  pub act_on_work_space-Turned :
      (db : DbReplies) → ReplyTurned k (acted act sid) (act_on_work_space k sid act db)
  unfolding act_on_work_space stop_ws remove_ws delete_ws
  act_on_work_space-Turned db =
      let l = queue_delete k sid in
      let w = queue_delete-Inv k sid v in
      if-Turned k c (not (Engine.action_is_valid act)) (λ e. same_reply k sid act)
        (if-Turned k c (act == Engine.plot) (λ e. plot_ws-Turned k sid act v)
          (if-Turned k c (act == Engine.mine)
            (λ e. mine_ws-Turned k sid act v ((==_iff act Engine.mine).0 e))
            (if-Turned k c (act == Engine.stop)
              (λ e.
                used_queue-Turned
                  (stop_now-Turned l sid act w db.stop_reply ((==_iff act Engine.stop).0 e)))
              (if-Turned k c (act == Engine.remove)
                (λ e. used_queue-Turned (remove_still-Turned l sid act w (still l sid)))
                (if-Turned k c (act == Engine.delete)
                  (λ e.
                    used_queue-Turned
                      (delete_still-Turned l sid act w db.delete_reply (still l sid)))
                  (same_reply k sid act))))))
    where
      c : Cause
      c = acted act sid
