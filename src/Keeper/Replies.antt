-- ===== src/Keeper/Replies.antt =====
-- The replies of send and redirect keep the keeper's invariant.
use mass_net_miner.Common.{
  ℕ, suc, ◌<◌, ◌≡◌, ◌≢◌, refl, ◌∙◌, ap, Bool, ◌⊎◌, inl, inr, [], ◌∷◌, ◌++◌, Option, none, some,
  arith, ==_iff, Bool-cases, leb, length,
}
use mass_net_miner.Engine.{plotting}
use mass_net_miner.Keeper.Index.{Sid, Ref, get}
use mass_net_miner.Keeper.State.{
  QueuedRef, busy, SpaceKeeper, SkError, is_not_plotting, StopReply, stop_reports, stop_breaks,
  DbReplies, Reply, done, blocks, panics, plotter_max_chan_size, put_at, sid_of, send, redirect,
}
use mass_net_miner.Keeper.Actions.{then_stop_plot}
use mass_net_miner.Keeper.Invariant.{Inv, Made-mono, Made-append}

-- A reply leaves the invariant, and is not ErrWorkSpaceIsNotPlotting; it is a panic only if `Breaks`.
pub data Sound (Breaks : Type 0) : Reply → Type 0 where
  returned :
      {k : SpaceKeeper} {e : Option SkError}
      → Inv k
      → e ≢ some is_not_plotting
      → Sound Breaks (done k e)
  waiting : Sound Breaks blocks
  broken : Breaks → Sound Breaks panics

-- No reply of the database is ErrWorkSpaceIsNotPlotting, an error of the keeper.
pub record ReportsOthers (db : DbReplies) : Type 0 where
  pub other_delete : db.delete_reply ≢ some is_not_plotting
  pub other_stop : db.stop_reply ≢ stop_reports (some is_not_plotting)

below-suc : (q n : ℕ) → q < suc n → (q < n) ⊎ (q ≡ n)
below-suc q n h = ground arith

-- What `send` makes of the keeper when the channel has room.
module _ (k : SpaceKeeper) (sid : Sid) (r : Ref) (would : Bool) where
  abbrev pub sent : SpaceKeeper
  sent = record k {
    queued = put_at k.queued k.next_queued (record { ws = r; would_mining = would });
    next_queued = suc k.next_queued;
    channel = k.channel ++ (k.next_queued ∷ []);
  }

  sent-old : (q : QueuedRef) → q < k.next_queued → sent.queued q ≡ k.queued q
  sent-old q h = ground arith

  pub sent-new : (sent.queued k.next_queued).ws ≡ r
  sent-new = ground arith

  pub sent_requests :
      get k.all sid ≡ some r
      → Inv k
      → (q : QueuedRef) → q < suc k.next_queued
      → (p : Ref) → get k.all (sid_of sent q) ≡ some p
      → (sent.queued q).ws ≡ p
  sent_requests there v q h p e = elim (below-suc q k.next_queued h) [
    | inl lower ↦ rw (sent-old q lower) (v.requests q lower p (rw (sent-old q lower) at e))
    | inr same ↦
        let w = ap (λ z. (sent.queued z).ws) same ∙ sent-new in
        let at_r =
          ap (λ z. get k.all (k.heap z).id) w ∙ ap (get k.all) (v.coherent.indexed sid r there).0 in
        w ∙ cc
  ]

  pub sent-busy : Inv k → (q : QueuedRef) → k.plotter ≡ busy q → sent.queued q ≡ k.queued q
  sent-busy v q e = sent-old q (v.popped_made q (v.busy_popped q e))

  pub sent-Inv : get k.all sid ≡ some r → Inv k → Inv sent
  sent-Inv there v = record {
    coherent = record { indexed = v.coherent.indexed; stated = v.coherent.stated };
    requests = sent_requests there v;
    queue_made = Made-mono k.next_queued (suc k.next_queued) k.queue (omega arith) v.queue_made;
    channel_made =
        Made-append (suc k.next_queued) k.channel (k.next_queued ∷ [])
          (Made-mono k.next_queued (suc k.next_queued) k.channel (omega arith) v.channel_made)
          (omega arith, tt);
    popped_made = λ q e. omega (arith, v.popped_made q e);
    taken_popped = v.taken_popped;
    busy_popped = v.busy_popped;
    busy_plotting = λ q e. rw (sent-busy v q e) (v.busy_plotting q e);
    one_plotting = λ j p e.
        let (q, serves, at) = v.one_plotting j p e in (q, serves, rw (sent-busy v q serves) at);
  }

  pub send-Sound :
      (Breaks : Type 0) → get k.all sid ≡ some r → Inv k → Sound Breaks (send k r would)
  unfolding send
  send-Sound Breaks there v = elim (Bool-cases (leb plotter_max_chan_size (length k.channel))) [
    | inl full ↦ rw full waiting
    | inr room ↦ rw room (returned (sent-Inv there v) (λ e. cc))
  ]

-- What `redirect` makes of the keeper when the plotter holds the request.
abbrev redirected : SpaceKeeper → QueuedRef → Bool → SpaceKeeper
redirected k q would = record k {
  queued = put_at k.queued q (record (k.queued q) { would_mining = would });
}

redirected-ws :
    (k : SpaceKeeper) (q : QueuedRef) (would : Bool) (p : QueuedRef)
    → ((redirected k q would).queued p).ws ≡ (k.queued p).ws
redirected-ws k q would p = ground arith

redirected-Inv :
    (k : SpaceKeeper) (q : QueuedRef) (would : Bool) → Inv k → Inv (redirected k q would)
redirected-Inv k q would v = record {
  coherent = record { indexed = v.coherent.indexed; stated = v.coherent.stated };
  requests = λ p h r e. ground (arith, redirected-ws k q would p, v.requests p h r);
  queue_made = v.queue_made;
  channel_made = v.channel_made;
  popped_made = v.popped_made;
  taken_popped = v.taken_popped;
  busy_popped = v.busy_popped;
  busy_plotting = λ p e. ground (arith, redirected-ws k q would p, v.busy_plotting p e);
  one_plotting = λ j p e.
      let (b, serves, at) = v.one_plotting j p e in
      (b, serves, ground (arith, redirected-ws k q would b, at));
}

redirect_held :
    (k : SpaceKeeper) (q : QueuedRef) (sid : Sid) (would : Bool)
    → k.popped ≡ some q
    → sid_of k q ≡ sid
    → (x : Reply) → done (redirected k q would) none ≡ x
    → redirect k sid would ≡ x
unfolding redirect
redirect_held k q sid would held same x is =
    rw (held, redirect, (==_iff (sid_of k q) sid).1 same) is

-- The plotter holds the request of a space that plots.
pub redirect-returns :
    (k : SpaceKeeper) (sid : Sid) (r : Ref) (would : Bool)
    → get (k.by_state plotting) sid ≡ some r
    → Inv k
    → (l : SpaceKeeper) × (redirect k sid would ≡ done l none) × Inv l
redirect-returns k sid r would there v =
    let (q, serves, at) = v.one_plotting sid r there in
    (
      redirected k q would,
      redirect_held k q sid would (v.busy_popped q serves) at (done (redirected k q would) none)
          refl,
      redirected-Inv k q would v,
    )

pub redirect-Sound :
    (Breaks : Type 0) (k : SpaceKeeper) (sid : Sid) (r : Ref) (would : Bool)
    → get (k.by_state plotting) sid ≡ some r
    → Inv k
    → Sound Breaks (redirect k sid would)
redirect-Sound Breaks k sid r would there v =
    let (l, e, w) = redirect-returns k sid r would there v in rw e (returned w (λ h. cc))

pub then_stop_plot-Sound :
    (Breaks : Type 0) (k : SpaceKeeper) (stop_plot : StopReply)
    → stop_plot ≢ stop_reports (some is_not_plotting)
    → (stop_plot ≡ stop_breaks → Breaks)
    → Inv k
    → Sound Breaks (then_stop_plot stop_plot (done k none))
then_stop_plot-Sound Breaks k (stop_reports e) other b v =
    returned v (λ h. other (ap stop_reports h))
then_stop_plot-Sound Breaks k stop_breaks other b v = broken (b refl)
