-- ===== src/Keeper/Initial.antt =====
-- The keeper's invariant holds once the spaces that are found at start are indexed.
use mass_net_miner.Common.{
  ◌≡◌, ◌≢◌, refl, sym, ◌∙◌, ap, ◌<◌, inl, inr, List, [], ◌∷◌, none, some, ◌==◌, if◌then◌else◌,
  Option-cases, arith,
}
use mass_net_miner.Engine.{WorkSpaceState, plotting}
use mass_net_miner.Keeper.Index.{Sid, Ref, get, put, get-put}
use mass_net_miner.Keeper.State.{
  WorkSpace, QueuedRef, SpaceKeeper, update_state, same_state, sid_of, new_space_keeper,
  add_work_space_to_index, add_work_spaces,
}
use mass_net_miner.Keeper.Coherent.{Coherent, same_state→eq, eq→same_state}
use mass_net_miner.Keeper.Invariant.{Inv}
use mass_net_miner.Keeper.Served.{idle≢taken, idle≢busy, none≢some}

-- No space of the heap is plotting, which NewWorkSpace ensures.
abbrev pub NonePlots : (Ref → WorkSpace) → Type 0
NonePlots heap = (r : Ref) → (heap r).state ≢ plotting

get-nil : (j : Sid) (r : Ref) → get [] j ≢ some r
unfolding get
get-nil j r e = none≢some r e

pub new_space_keeper-Inv : (heap : Ref → WorkSpace) → Inv (new_space_keeper heap)
unfolding new_space_keeper
new_space_keeper-Inv heap = record {
  coherent = record {
    indexed = λ j r e. absurd (get-nil j r e);
    stated = λ s j r e. absurd (get-nil j r e);
  };
  requests = λ q h r e. absurd (get-nil _ r e);
  queue_made = tt;
  channel_made = tt;
  popped_made = λ q e. absurd (none≢some q e);
  taken_popped = λ q e. absurd (idle≢taken q e);
  busy_popped = λ q e. absurd (idle≢busy q e);
  busy_plotting = λ q e. absurd (idle≢busy q e);
  one_plotting = λ j r e. absurd (get-nil j r e);
}

module _ (k : SpaceKeeper) (r : Ref) (new_id : get k.all (k.heap r).id ≡ none)
    (still : (k.heap r).state ≢ plotting)
    (unasked : (q : QueuedRef) → q < k.next_queued → sid_of k q ≢ (k.heap r).id) (v : Inv k) where
  abbrev added : SpaceKeeper
  added = record k {
    all = put k.all (k.heap r).id r;
    by_state =
        update_state k.by_state (k.heap r).state
          (put (k.by_state (k.heap r).state) (k.heap r).id r);
  }

  get-added :
      (s : WorkSpaceState) (j : Sid)
      → get (added.by_state s) j ≡ (
          if (k.heap r).id == j
          then if same_state (k.heap r).state s then some r else get (k.by_state s) j
          else get (k.by_state s) j)
  get-added s j = ground (
    arith,
    get-put (k.by_state (k.heap r).state) (k.heap r).id r j,
    same_state→eq (k.heap r).state s,
  )

  added-all : (j : Sid) → get added.all j ≡ (if (k.heap r).id == j then some r else get k.all j)
  added-all j = get-put k.all (k.heap r).id r j

  added-Coherent : Coherent added
  added-Coherent = record {
    indexed = λ j p h. ground (
      arith,
      v.coherent.indexed j p,
      added-all j,
      get-added (k.heap p).state j,
      eq→same_state (k.heap r).state (k.heap p).state,
    );
    stated = λ s j p h. ground (
      arith,
      v.coherent.stated s j p,
      added-all j,
      get-added s j,
      same_state→eq (k.heap r).state s,
    );
  }

  added_requests :
      (q : QueuedRef)
      → q < k.next_queued
      → (p : Ref) → get added.all (sid_of k q) ≡ some p
      → (k.queued q).ws ≡ p
  added_requests q h p e = ground (arith, v.requests q h p, added-all (sid_of k q), unasked q h)

  added-plotting : (j : Sid) → get (added.by_state plotting) j ≡ get (k.by_state plotting) j
  added-plotting j = ground (arith, get-added plotting j, same_state→eq (k.heap r).state plotting)

  added-Inv : Inv added
  added-Inv = record {
    coherent = added-Coherent;
    requests = added_requests;
    queue_made = v.queue_made;
    channel_made = v.channel_made;
    popped_made = v.popped_made;
    taken_popped = v.taken_popped;
    busy_popped = v.busy_popped;
    busy_plotting = λ q e. added-plotting (sid_of k q) ∙ v.busy_plotting q e;
    one_plotting = λ j p e. v.one_plotting j p (sym (added-plotting j) ∙ e);
  }

pub add_work_space_to_index-Inv :
    (k : SpaceKeeper) (r : Ref)
    → (k.heap r).state ≢ plotting
    → ((q : QueuedRef) → q < k.next_queued → sid_of k q ≢ (k.heap r).id)
    → Inv k
    → Inv (add_work_space_to_index k r)
unfolding add_work_space_to_index
add_work_space_to_index-Inv k r still unasked v = elim (Option-cases (get k.all (k.heap r).id)) [
  | inl e ↦ rw (add_work_space_to_index, e) (added-Inv k r e still unasked v)
  | inr (p, e) ↦ rw (add_work_space_to_index, e) v
]

add_work_space_to_index-heap :
    (k : SpaceKeeper) (r : Ref)
    → ((add_work_space_to_index k r).heap ≡ k.heap)
      × ((add_work_space_to_index k r).next_queued ≡ k.next_queued)
unfolding add_work_space_to_index
add_work_space_to_index-heap k r = elim (Option-cases (get k.all (k.heap r).id)) [
  | inl e ↦ rw (add_work_space_to_index, e) (refl, refl)
  | inr (p, e) ↦ rw (add_work_space_to_index, e) (refl, refl)
]

add_work_spaces-Inv :
    (k : SpaceKeeper) (rs : List Ref)
    → NonePlots k.heap
    → k.next_queued ≡ 0
    → Inv k
    → Inv (add_work_spaces k rs)
unfolding add_work_spaces
add_work_spaces-Inv k [] still fresh v = v
add_work_spaces-Inv k (r ∷ rs) still fresh v =
    let (heap, asked) = add_work_space_to_index-heap k r in
    add_work_spaces-Inv (add_work_space_to_index k r) rs
      (λ p e. still p (sym (ap (λ h. (h p).state) heap) ∙ e)) (asked ∙ fresh)
      (add_work_space_to_index-Inv k r (still r) (λ q h. omega (arith, h, fresh)) v)

-- The keeper behind the start.
unfoldable pub started : (Ref → WorkSpace) → List Ref → SpaceKeeper
unfolding new_space_keeper add_work_spaces
started heap found = add_work_spaces (new_space_keeper heap) found

pub started-Inv :
    (heap : Ref → WorkSpace) (found : List Ref) → NonePlots heap → Inv (started heap found)
unfolding started new_space_keeper
started-Inv heap found still =
    add_work_spaces-Inv (new_space_keeper heap) found still refl (new_space_keeper-Inv heap)
