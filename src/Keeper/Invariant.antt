-- ===== src/Keeper/Invariant.antt =====
-- The keeper's invariant, and the parts of its methods that keep it.
use mass_net_miner.Common.{◌≤◌, ◌<◌, ◌≡◌, ◌≢◌, ◌∙◌, List, [], ◌∷◌, ◌++◌, some, arith}
use mass_net_miner.Engine.{WorkSpaceState, plotting}
use mass_net_miner.Keeper.Index.{Sid, Ref, get}
use mass_net_miner.Keeper.State.{
  QueuedRef, taken, busy, SpaceKeeper, sid_of, move, queue_delete, keep_others,
}
use mass_net_miner.Keeper.Coherent.{Coherent, same_state→eq, get-move, move-Coherent}

abbrev pub All {ℓ} : {A : Type ℓ} → (A → Type 0) → List A → Type 0
All P [] = Unit {0}
All P (x ∷ xs) = P x × All P xs

-- The requests of a list have been made.
abbrev pub Made : QueuedRef → List QueuedRef → Type 0
Made n = All (λ q. q < n)

pub record Inv (k : SpaceKeeper) : Type 0 where
  pub coherent : Coherent k
  -- a request points to the space that is indexed under its id, if there is one
  pub requests :
      (q : QueuedRef)
      → q < k.next_queued
      → (r : Ref) → get k.all (sid_of k q) ≡ some r
      → (k.queued q).ws ≡ r
  pub queue_made : Made k.next_queued k.queue
  pub channel_made : Made k.next_queued k.channel
  pub popped_made : (q : QueuedRef) → k.popped ≡ some q → q < k.next_queued
  pub taken_popped : (q : QueuedRef) → k.plotter ≡ taken q → k.popped ≡ some q
  pub busy_popped : (q : QueuedRef) → k.plotter ≡ busy q → k.popped ≡ some q
  pub busy_plotting :
      (q : QueuedRef)
      → k.plotter ≡ busy q
      → get (k.by_state plotting) (sid_of k q) ≡ some (k.queued q).ws
  -- at most one space is plotting, that of the request that the plotter serves
  pub one_plotting :
      (sid : Sid) (r : Ref)
      → get (k.by_state plotting) sid ≡ some r
      → (q : QueuedRef) × (k.plotter ≡ busy q) × (sid_of k q ≡ sid)

pub Made-mono : (m n : QueuedRef) (qs : List QueuedRef) → m ≤ n → Made m qs → Made n qs
Made-mono m n [] h a = tt
Made-mono m n (q ∷ qs) h a = (omega arith, Made-mono m n qs h a.1)

pub Made-append :
    (n : QueuedRef) (qs rs : List QueuedRef) → Made n qs → Made n rs → Made n (qs ++ rs)
Made-append n [] rs a b = b
Made-append n (q ∷ qs) rs a b = (a.0, Made-append n qs rs a.1 b)

keep_others-Made :
    (k : SpaceKeeper) (sid : Sid) (n : QueuedRef) (qs : List QueuedRef)
    → Made n qs
    → Made n (keep_others k sid qs)
unfolding keep_others
keep_others-Made k sid n [] a = tt
keep_others-Made k sid n (q ∷ qs) a = ground (arith, keep_others-Made k sid n qs a.1)

pub queue_delete-Inv : (k : SpaceKeeper) (sid : Sid) → Inv k → Inv (queue_delete k sid)
unfolding queue_delete
queue_delete-Inv k sid v = record {
  coherent = record { indexed = v.coherent.indexed; stated = v.coherent.stated };
  requests = v.requests;
  queue_made = keep_others-Made k sid k.next_queued k.queue v.queue_made;
  channel_made = v.channel_made;
  popped_made = v.popped_made;
  taken_popped = v.taken_popped;
  busy_popped = v.busy_popped;
  busy_plotting = v.busy_plotting;
  one_plotting = v.one_plotting;
}

pub sid_of-move :
    (k : SpaceKeeper) (old new : WorkSpaceState) (sid : Sid) (r : Ref) (q : QueuedRef)
    → sid_of (move k old new sid r) q ≡ sid_of k q
unfolding move
sid_of-move k old new sid r q = ground arith

pub plotting-move :
    (k : SpaceKeeper) (old new : WorkSpaceState) (sid : Sid) (r : Ref) (j : Sid)
    → old ≢ plotting
    → new ≢ plotting
    → get ((move k old new sid r).by_state plotting) j ≡ get (k.by_state plotting) j
plotting-move k old new sid r j op np = ground (
  arith,
  get-move k old new sid r plotting j,
  same_state→eq new plotting,
  same_state→eq old plotting,
)

-- A move between two states that are not plotting.
module _ (k : SpaceKeeper) (old new : WorkSpaceState) (sid : Sid) (r : Ref)
    (there : get (k.by_state old) sid ≡ some r) (differ : old ≢ new) (op : old ≢ plotting)
    (np : new ≢ plotting) (v : Inv k) where
  moved_requests :
      (q : QueuedRef)
      → q < k.next_queued
      → (p : Ref) → get k.all (sid_of (move k old new sid r) q) ≡ some p
      → (k.queued q).ws ≡ p
  moved_requests q h p e = v.requests q h p (rw (sid_of-move k old new sid r q) at e)

  moved_busy :
      (q : QueuedRef)
      → k.plotter ≡ busy q
      → get ((move k old new sid r).by_state plotting) (sid_of (move k old new sid r) q)
        ≡ some (k.queued q).ws
  moved_busy q e =
      rw (sid_of-move k old new sid r q, plotting-move k old new sid r (sid_of k q) op np)
        (v.busy_plotting q e)

  moved_one :
      (j : Sid) (p : Ref)
      → get ((move k old new sid r).by_state plotting) j ≡ some p
      → (q : QueuedRef) × (k.plotter ≡ busy q) × (sid_of (move k old new sid r) q ≡ j)
  moved_one j p e =
      let (q, serves, at) = v.one_plotting j p (rw (plotting-move k old new sid r j op np) at e) in
      (q, serves, sid_of-move k old new sid r q ∙ at)

  pub move-Inv : Inv (move k old new sid r)
  unfolding move
  move-Inv = record {
    coherent = move-Coherent k old new sid r v.coherent there differ;
    requests = moved_requests;
    queue_made = v.queue_made;
    channel_made = v.channel_made;
    popped_made = v.popped_made;
    taken_popped = v.taken_popped;
    busy_popped = v.busy_popped;
    busy_plotting = moved_busy;
    one_plotting = moved_one;
  }
