-- ===== src/Keeper/Coherent.antt =====
-- The indexes of the keeper agree: a space stands in the index of its state, under its own id, and in
-- no other.
use mass_net_miner.Common.{◌≡◌, ◌≢◌, true, none, some, arith, ◌==◌, if◌then◌else◌}
use mass_net_miner.Engine.{WorkSpaceState}
use mass_net_miner.Keeper.Index.{Sid, Ref, get, drop_key, get-drop_key, get-put}
use mass_net_miner.Keeper.State.{SpaceKeeper, update_state, same_state, move}

pub record Coherent (k : SpaceKeeper) : Type 0 where
  pub indexed :
      (sid : Sid) (r : Ref)
      → get k.all sid ≡ some r
      → ((k.heap r).id ≡ sid) × (get (k.by_state (k.heap r).state) sid ≡ some r)
  pub stated :
      (s : WorkSpaceState) (sid : Sid) (r : Ref)
      → get (k.by_state s) sid ≡ some r
      → (get k.all sid ≡ some r) × ((k.heap r).state ≡ s)

pub same_state→eq : (s t : WorkSpaceState) → same_state s t ≡ true → s ≡ t
same_state→eq s t h = ground arith

pub eq→same_state : (s t : WorkSpaceState) → s ≡ t → same_state s t ≡ true
eq→same_state s t h = ground arith

-- The indexes behind `move`.
pub get-move :
    (k : SpaceKeeper) (old new : WorkSpaceState) (sid : Sid) (r : Ref) (s : WorkSpaceState)
    (j : Sid)
    → get ((move k old new sid r).by_state s) j ≡ (
        if sid == j
        then if same_state new s
          then some r
          else if same_state old s
          then none
          else get (k.by_state s) j
        else get (k.by_state s) j)
unfolding move
get-move k old new sid r s j = ground (
  arith,
  same_state→eq new s,
  same_state→eq old s,
  get-put (update_state k.by_state old (drop_key (k.by_state old) sid) new) sid r j,
  get-drop_key (k.by_state old) sid j,
)

module _ (k : SpaceKeeper) (old new : WorkSpaceState) (sid : Sid) (r : Ref) (c : Coherent k)
    (there : get (k.by_state old) sid ≡ some r) (differ : old ≢ new) where
  pub move-Coherent : Coherent (move k old new sid r)
  unfolding move
  move-Coherent = record {
    indexed = λ j q h. ground (
      arith,
      c.indexed j q h,
      c.indexed sid r,
      c.stated old sid r there,
      get-move k old new sid r new j,
      get-move k old new sid r (k.heap q).state j,
      same_state→eq old (k.heap q).state,
    );
    stated = λ s j q h. ground (
      arith,
      c.stated s j q,
      c.stated old sid r there,
      c.indexed j q,
      c.indexed j r,
      c.indexed sid r,
      get-move k old new sid r s j,
      same_state→eq new s,
      same_state→eq old s,
      eq→same_state old s,
    );
  }
