-- ===== src/Keeper/Safe.antt =====
-- Every action keeps the keeper's invariant, panics only in StopPlot, and does not report
-- ErrWorkSpaceIsNotPlotting.
use mass_net_miner.Common.{
  ◌≡◌, ◌≢◌, refl, ==_iff, Bool, true, false, inl, inr, Option, some, ◌==◌, if◌then◌else◌,
  Bool-cases, not, arith, Option-cases,
}
use mass_net_miner.Engine
use mass_net_miner.Engine.{WorkSpaceState, registered, plotting, ready, mining}
use mass_net_miner.Keeper.Index.{Sid, Ref, get}
use mass_net_miner.Keeper.State.{
  SkError, is_not_plotting, does_not_exist, StopReply, stop_reports, stop_breaks, DbReplies,
  SpaceKeeper, Reply, done, queue_delete,
}
use mass_net_miner.Keeper.Actions.{
  is_used, plot_ws, mine_ws, stop_now, stop_ws, still, remove_still, remove_ws, delete_still,
  delete_ws, act_on_work_space,
}
use mass_net_miner.Keeper.Invariant.{Inv, move-Inv, queue_delete-Inv}
use mass_net_miner.Keeper.Replies.{
  Sound, returned, ReportsOthers, send-Sound, redirect-returns, redirect-Sound,
  then_stop_plot-Sound,
}
use mass_net_miner.Keeper.Disuse.{disuse-Inv, unindexed, unindexed-Inv}

-- If one branch of a test on the space is sound, so is the test.
used-Sound :
    (Breaks : Type 0) (k : SpaceKeeper) (sid : Sid) (then_reply : Reply)
    → Inv k
    → Sound Breaks then_reply
    → Sound Breaks (if is_used k sid then then_reply else done k (some does_not_exist))
used-Sound Breaks k sid x v s = elim (Bool-cases (is_used k sid)) [
  | inl used ↦ rw used s
  | inr unused ↦ rw unused (returned v (λ e. cc))
]

module _ (Breaks : Type 0) (k : SpaceKeeper) (sid : Sid) (v : Inv k) where
  plot_ws-Sound : Sound Breaks (plot_ws k sid)
  unfolding plot_ws
  plot_ws-Sound =
      used-Sound Breaks k sid _ v (elim (Option-cases (get (k.by_state registered) sid)) [
        | inr (r, e) ↦
            rw e (send-Sound k sid r false Breaks (v.coherent.stated registered sid r e).0 v)
        | inl e ↦ elim (Option-cases (get (k.by_state plotting) sid)) [
          | inr (r, f) ↦ rw (e, f) (redirect-Sound Breaks k sid r false f v)
          | inl f ↦ rw (e, f) (returned v (λ h. cc))
        ]
      ])

  mine_ws-Sound : Sound Breaks (mine_ws k sid)
  unfolding mine_ws
  mine_ws-Sound =
      used-Sound Breaks k sid _ v (elim (Option-cases (get (k.by_state registered) sid)) [
        | inr (r, e) ↦
            rw e (send-Sound k sid r true Breaks (v.coherent.stated registered sid r e).0 v)
        | inl e ↦ elim (Option-cases (get (k.by_state plotting) sid)) [
          | inr (r, f) ↦ rw (e, f) (redirect-Sound Breaks k sid r true f v)
          | inl f ↦ elim (Option-cases (get (k.by_state ready) sid)) [
            | inr (r, g) ↦
                rw (e, f, g)
                  (returned (move-Inv k ready mining sid r g (λ h. cc) (λ h. cc) (λ h. cc) v)
                    (λ h. cc))
            | inl g ↦ rw (e, f, g) (returned v (λ h. cc))
          ]
        ]
      ])

  stop_now-Sound :
      (stop_plot : StopReply)
      → stop_plot ≢ stop_reports (some is_not_plotting)
      → ((r : Ref) → get (k.by_state plotting) sid ≡ some r → stop_plot ≡ stop_breaks → Breaks)
      → Sound Breaks (stop_now k sid stop_plot)
  unfolding stop_now
  stop_now-Sound stop_plot other breaks = elim (Option-cases (get (k.by_state plotting) sid)) [
    | inr (r, f) ↦
        let (l, e, w) = redirect-returns k sid r false f v in
        rw (stop_now, f, e) (then_stop_plot-Sound Breaks l stop_plot other (breaks r f) w)
    | inl f ↦ elim (Option-cases (get (k.by_state mining) sid)) [
      | inr (r, g) ↦
          rw (stop_now, f, g)
            (returned (move-Inv k mining ready sid r g (λ h. cc) (λ h. cc) (λ h. cc) v) (λ h. cc))
      | inl g ↦ rw (stop_now, f, g) (returned v (λ h. cc))
    ]
  ]

  -- A still space stands in the index of a state that is not plotting, which is its own.
  pub still-stated :
      (r : Ref)
      → still k sid ≡ some r
      → (get (k.by_state (k.heap r).state) sid ≡ some r) × ((k.heap r).state ≢ plotting)
  unfolding still
  still-stated r e =
      ground (arith, v.coherent.stated registered sid r, v.coherent.stated ready sid r)

  remove_still-Sound : Sound Breaks (remove_still k (still k sid))
  unfolding remove_still
  remove_still-Sound = elim (Option-cases (still k sid)) [
    | inl e ↦ rw e (returned v (λ h. cc))
    | inr (r, e) ↦ rw e (returned (disuse-Inv k r v) (λ h. cc))
  ]

  delete_still-Sound :
      (failure : Option SkError)
      → failure ≢ some is_not_plotting
      → Sound Breaks (delete_still k sid failure (still k sid))
  unfolding delete_still
  delete_still-Sound failure other = elim (Option-cases (still k sid)) [
    | inl e ↦ rw e (returned v (λ h. cc))
    | inr (r, e) ↦
        let (there, differ) = still-stated r e in
        rw e (
          returned
            (disuse-Inv (unindexed k (k.heap r).state sid) r
              (unindexed-Inv k (k.heap r).state sid r there differ v))
            other)
  ]

module _ (Breaks : Type 0) (k : SpaceKeeper) (sid : Sid) (v : Inv k) where
  stop_ws-Sound :
      (stop_plot : StopReply)
      → stop_plot ≢ stop_reports (some is_not_plotting)
      → ((r : Ref) → get (k.by_state plotting) sid ≡ some r → stop_plot ≡ stop_breaks → Breaks)
      → Sound Breaks (stop_ws k sid stop_plot)
  unfolding stop_ws queue_delete
  stop_ws-Sound stop_plot other breaks = used-Sound Breaks k sid _ v (
      stop_now-Sound Breaks (queue_delete k sid) sid (queue_delete-Inv k sid v) stop_plot other
        breaks)

  remove_ws-Sound : Sound Breaks (remove_ws k sid)
  unfolding remove_ws
  remove_ws-Sound =
      used-Sound Breaks k sid _ v
        (remove_still-Sound Breaks (queue_delete k sid) sid (queue_delete-Inv k sid v))

  delete_ws-Sound :
      (failure : Option SkError)
      → failure ≢ some is_not_plotting
      → Sound Breaks (delete_ws k sid failure)
  unfolding delete_ws
  delete_ws-Sound failure other =
      used-Sound Breaks k sid _ v (
        delete_still-Sound Breaks (queue_delete k sid) sid (queue_delete-Inv k sid v) failure other)

-- StopWS of a space that plots calls a StopPlot that panics.
pub record Breaks (k : SpaceKeeper) (sid : Sid) (act : Engine.ActionType) (db : DbReplies)
    : Type 0 where
  pub stops : act ≡ Engine.stop
  pub stop_panics : db.stop_reply ≡ stop_breaks
  pub space : Ref
  pub plots_now : get (k.by_state plotting) sid ≡ some space

-- From a keeper with the invariant.
pub act_on_work_space-Sound :
    (k : SpaceKeeper) (sid : Sid) (act : Engine.ActionType) (db : DbReplies)
    → Inv k
    → ReportsOthers db
    → Sound (Breaks k sid act db) (act_on_work_space k sid act db)
unfolding act_on_work_space
act_on_work_space-Sound k sid act db v other =
    if-Sound (not (Engine.action_is_valid act)) (λ e. returned v (λ h. cc))
      (if-Sound (act == Engine.plot) (λ e. plot_ws-Sound B k sid v)
        (if-Sound (act == Engine.mine) (λ e. mine_ws-Sound B k sid v)
          (if-Sound (act == Engine.stop)
            (λ e. stop_ws-Sound B k sid v db.stop_reply other.other_stop (λ r there broke. record {
              stops = (==_iff act Engine.stop).0 e;
              stop_panics = broke;
              space = r;
              plots_now = there;
            }))
            (if-Sound (act == Engine.remove) (λ e. remove_ws-Sound B k sid v)
              (if-Sound (act == Engine.delete)
                (λ e. delete_ws-Sound B k sid v db.delete_reply other.other_delete)
                (returned v (λ h. cc)))))))
  where
    B : Type 0
    B = Breaks k sid act db

    if-Sound :
        {x y : Reply}
        → (b : Bool) → (b ≡ true → Sound B x)
        → Sound B y
        → Sound B (if b then x else y)
    if-Sound true s t = s refl
    if-Sound false s t = t
