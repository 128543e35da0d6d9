-- ===== src/Keeper/Plotted.antt =====
-- Step 1 and Step 3 of plotSpace keep the keeper's invariant.
use mass_net_miner.Common.{
  ◌≡◌, ◌≢◌, refl, sym, ◌∙◌, ap, Bool, true, false, inl, inr, none, some, arith, ◌==◌, if◌then◌else◌,
  Bool-cases, Option-cases,
}
use mass_net_miner.Engine.{WorkSpaceState, registered, plotting, ready, mining}
use mass_net_miner.Keeper.Index.{Sid, Ref, get}
use mass_net_miner.Keeper.State.{QueuedRef, idle, taken, busy, SpaceKeeper, sid_of, move}
use mass_net_miner.Keeper.Plotting.{begin_plot, end_plot}
use mass_net_miner.Keeper.Coherent.{Coherent, same_state→eq, get-move, move-Coherent}
use mass_net_miner.Keeper.Invariant.{Inv, sid_of-move, move-Inv}
use mass_net_miner.Keeper.Served.{at, at-Inv, taken≢busy, idle≢taken, idle≢busy}

-- Step 1 on a registered space.
module _ (k : SpaceKeeper) (q : QueuedRef) (serves : k.plotter ≡ taken q) (v : Inv k) (r : Ref)
    (there : get (k.by_state registered) (sid_of k q) ≡ some r) where
  abbrev begun : SpaceKeeper
  begun = at (move k registered plotting (sid_of k q) (k.queued q).ws) (busy q)

  request-ws : (k.queued q).ws ≡ r
  request-ws =
      v.requests q (v.popped_made q (v.taken_popped q serves)) r
        (v.coherent.stated registered (sid_of k q) r there).0

  at_request : get (k.by_state registered) (sid_of k q) ≡ some (k.queued q).ws
  at_request = there ∙ ap some (sym request-ws)

  begun-sid : (p : QueuedRef) → sid_of begun p ≡ sid_of k p
  begun-sid p = sid_of-move k registered plotting (sid_of k q) (k.queued q).ws p

  begun-plotting :
      (j : Sid)
      → get (begun.by_state plotting) j ≡ (if sid_of k q == j then some (k.queued q).ws else none)
  begun-plotting j =
      get-move k registered plotting (sid_of k q) (k.queued q).ws plotting j
      ∙ ap (λ o. if sid_of k q == j then some (k.queued q).ws else o) none_plotting
    where
      none_plotting : get (k.by_state plotting) j ≡ none
      none_plotting = elim (Option-cases (get (k.by_state plotting) j)) [
        | inl e ↦ e
        | inr (p, e) ↦
            let (b, served, _) = v.one_plotting j p e in
            absurd (taken≢busy q b (sym serves ∙ served))
      ]

  begun-Coherent : Coherent begun
  begun-Coherent =
      let c =
        move-Coherent k registered plotting (sid_of k q) (k.queued q).ws v.coherent at_request
          (λ e. cc) in
      record { indexed = c.indexed; stated = c.stated }

  pub begun-Inv : Inv begun
  unfolding move
  begun-Inv = record {
    coherent = begun-Coherent;
    requests = λ p h s e. v.requests p h s (rw (begun-sid p) at e);
    queue_made = v.queue_made;
    channel_made = v.channel_made;
    popped_made = v.popped_made;
    taken_popped = λ p e. cc;
    busy_popped = λ p e. let same : q ≡ p = cc in v.taken_popped q serves ∙ ap some same;
    busy_plotting = λ p e. ground (arith, begun-plotting (sid_of begun p), begun-sid p);
    one_plotting = λ j p e. (q, refl, ground (arith, begun-plotting j, begun-sid q));
  }

-- A space that is moved while it is still does not touch what the plotter serves.
still-Inv :
    (k : SpaceKeeper) (q : QueuedRef) (serves : k.plotter ≡ taken q) (v : Inv k) (r : Ref)
    → get (k.by_state ready) (sid_of k q) ≡ some r
    → Inv (at (move k ready mining (sid_of k q) (k.queued q).ws) idle)
unfolding move
still-Inv k q serves v r there =
    let same =
      v.requests q (v.popped_made q (v.taken_popped q serves)) r
        (v.coherent.stated ready (sid_of k q) r there).0 in
    at-Inv (move k ready mining (sid_of k q) (k.queued q).ws) idle
      (λ p e. taken≢busy q p (sym serves ∙ e)) idle≢busy (λ p e. absurd (idle≢taken p e))
      (move-Inv k ready mining (sid_of k q) (k.queued q).ws (there ∙ ap some (sym same)) (λ e. cc)
        (λ e. cc) (λ e. cc) v)

pub begin_plot-Inv :
    (k : SpaceKeeper) (q : QueuedRef) → k.plotter ≡ taken q → Inv k → Inv (begin_plot k q)
unfolding begin_plot
begin_plot-Inv k q serves v = elim (Option-cases (get (k.by_state registered) (sid_of k q))) [
  | inr (r, e) ↦ rw (begin_plot, e) (begun-Inv k q serves v r e)
  | inl e ↦ elim (Option-cases (get (k.by_state ready) (sid_of k q))) [
    | inr (r, f) ↦ elim (Bool-cases (k.queued q).would_mining) [
      | inl would ↦ rw (begin_plot, e, f, would) (still-Inv k q serves v r f)
      | inr not_so ↦ rw (begin_plot, e, f, not_so) left
    ]
    | inl f ↦ rw (begin_plot, e, f) left
  ]
]
  where
    left : Inv (at k idle)
    left =
        at-Inv k idle (λ p e. taken≢busy q p (sym serves ∙ e)) idle≢busy
          (λ p e. absurd (idle≢taken p e)) v

-- Step 3: the space goes to a state that is not plotting.
module _ (k : SpaceKeeper) (q : QueuedRef) (serves : k.plotter ≡ busy q) (v : Inv k)
    (target : WorkSpaceState) (np : target ≢ plotting) where
  abbrev ended : SpaceKeeper
  ended = at (move k plotting target (sid_of k q) (k.queued q).ws) idle

  ended-sid : (p : QueuedRef) → sid_of ended p ≡ sid_of k p
  ended-sid p = sid_of-move k plotting target (sid_of k q) (k.queued q).ws p

  ended-Coherent : Coherent ended
  ended-Coherent =
      let c =
        move-Coherent k plotting target (sid_of k q) (k.queued q).ws v.coherent
          (v.busy_plotting q serves) (λ e. np (sym e)) in
      record { indexed = c.indexed; stated = c.stated }

  ended-plotting : (j : Sid) (p : Ref) → get (ended.by_state plotting) j ≢ some p
  ended-plotting j p e = ground (
    arith,
    get-move k plotting target (sid_of k q) (k.queued q).ws plotting j,
    same_state→eq target plotting,
    other,
  )
    where
      other : sid_of k q ≢ j → get (k.by_state plotting) j ≢ some p
      other differ f =
          let (b, served, here) = v.one_plotting j p f in
          let same : q ≡ b = cc in differ (ap (sid_of k) same ∙ here)

  pub ended-Inv : Inv ended
  unfolding move
  ended-Inv = record {
    coherent = ended-Coherent;
    requests = λ p h s e. v.requests p h s (rw (ended-sid p) at e);
    queue_made = v.queue_made;
    channel_made = v.channel_made;
    popped_made = v.popped_made;
    taken_popped = λ p e. absurd (idle≢taken p e);
    busy_popped = λ p e. absurd (idle≢busy p e);
    busy_plotting = λ p e. absurd (idle≢busy p e);
    one_plotting = λ j p e. absurd (ended-plotting j p e);
  }

pub end_plot-Inv :
    (k : SpaceKeeper) (q : QueuedRef) (plotted : Bool)
    → k.plotter ≡ busy q
    → Inv k
    → Inv (end_plot k q plotted)
unfolding end_plot
end_plot-Inv k q false serves v = ended-Inv k q serves v registered (λ e. cc)
end_plot-Inv k q true serves v = elim (Bool-cases (k.queued q).would_mining) [
  | inl would ↦ rw would (ended-Inv k q serves v mining (λ e. cc))
  | inr not_so ↦ rw not_so (ended-Inv k q serves v ready (λ e. cc))
]
