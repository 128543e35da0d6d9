-- ===== src/Configure/Configured.antt =====
-- What applyConfiguredWorkSpaces leaves.
use mass_net_miner.Common.{
  ◌≡◌, refl, sym, ◌∙◌, ap, subst, Bool, true, false, ◌||◌, ◌==◌, ==_iff, List, [], ◌∷◌, inl, inr,
  Bool-cases,
}
use mass_net_miner.Keeper.Index.{Ref, get}
use mass_net_miner.Keeper.State.{WorkSpace, idle, SpaceKeeper, put_at}
use mass_net_miner.Keeper.Invariant.{Inv, All}
use mass_net_miner.Configure.Apply.{
  applied, use_work_space, disuse_each, reset_queue, push_request, apply_each,
  apply_configured_work_spaces,
}
use mass_net_miner.Configure.Applied.{with_heap-Inv, disuse_each-Alike, reset_queue-Inv}
use mass_net_miner.Configure.InUse.{
  Indexed, Using, OneOf, InUse, Later, UsesOnly, All-map, Later-Indexed, one, pushed, one-UsesOnly,
  one-Later,
}

-- The order of the temporary queue: the same spaces.
pub record DocumentedQueue (order : List Ref → List Ref) : Type 1 where
  pub gives : (P : Ref → Type 0) (rs : List Ref) → All P rs → All P (order rs)
  pub takes : (P : Ref → Type 0) (rs : List Ref) → All P (order rs) → All P rs

Later-trans : (k l m : SpaceKeeper) → Later k l → Later l m → Later k m
Later-trans k l m s t = record {
  same_all = t.same_all ∙ s.same_all;
  alike = record {
    ids = λ p. t.alike.ids p ∙ s.alike.ids p;
    states = λ p. t.alike.states p ∙ s.alike.states p;
  };
  still_using = λ p h. t.still_using p (s.still_using p h);
}

-- The spaces that are applied are the only ones that come into use.
apply_each-UsesOnly :
    (k : SpaceKeeper) (would : Bool) (rs : List Ref)
    → InUse k
    → All (Indexed k.all k.heap) rs
    → UsesOnly k rs (apply_each k would rs)
unfolding apply_each one pushed
apply_each-UsesOnly k would [] u a p h = inl h
apply_each-UsesOnly k would (r ∷ rs) u a p h =
    let (later, _, u') = one-Later k r would a.0 u in
    let k' = use_work_space (push_request k r would) r in
    let there =
      All-map (Indexed k.all k.heap) (Indexed k'.all k'.heap) rs
        (λ q i. Later-Indexed k k' q later i) a.1 in
    elim (apply_each-UsesOnly k' would rs u' there p h) [
      | inr among ↦ inr (inr among)
      | inl before ↦ elim (one-UsesOnly k r would a.0 u p before) [
        | inl used ↦ inl used
        | inr (inl same) ↦ inr (inl same)
        | inr (inr nowhere) ↦ absurd nowhere
      ]
    ]

-- Only spaces outside the list are still in use behind its reset.
disuse_each-Using :
    (h : Ref → WorkSpace) (rs : List Ref) (p : Ref)
    → Using (disuse_each h rs) p
    → Using h p × ¬ OneOf p rs
unfolding disuse_each
disuse_each-Using h [] p used = (used, λ m. m)
disuse_each-Using h (r ∷ rs) p used =
    let (later, not_among) =
      disuse_each-Using (put_at h r (record (h r) { using = false })) rs p used in
    elim (Bool-cases (r == p)) [
      | inl same ↦ absurd (reset (rw same at later))
      | inr other ↦ (rw other at later, λ m. outside other not_among m)
    ]
  where
    reset : ¬ (false ≡ true)
    reset e = cc

    outside : r == p ≡ false → ¬ OneOf p rs → ¬ OneOf p (r ∷ rs)
    outside other none_there (inl same) = reset (sym other ∙ (==_iff r p).1 (sym same))
    outside other none_there (inr m) = none_there m

OneOf-All : (P : Ref → Type 0) (p : Ref) (rs : List Ref) → All P rs → OneOf p rs → P p
OneOf-All P p [] a m = absurd m
OneOf-All P p (r ∷ rs) a (inl same) = subst P (sym same) a.0
OneOf-All P p (r ∷ rs) a (inr m) = OneOf-All P p rs a.1 m

All-OneOf : (rs : List Ref) → All (λ p. OneOf p rs) rs
All-OneOf [] = tt
All-OneOf (r ∷ rs) =
    (inl refl, All-map (λ p. OneOf p rs) (λ p. OneOf p (r ∷ rs)) rs (λ p m. inr m) (All-OneOf rs))

apply_each-InUse :
    (k : SpaceKeeper) (would : Bool) (rs : List Ref)
    → InUse k
    → All (Indexed k.all k.heap) rs
    → Later k (apply_each k would rs)
      × All (Using (apply_each k would rs).heap) rs
      × InUse (apply_each k would rs)
unfolding apply_each one pushed
apply_each-InUse k would [] u a = (
  record {
    same_all = refl;
    alike = record { ids = λ p. refl; states = λ p. refl };
    still_using = λ p h. h;
  },
  tt,
  u,
)
apply_each-InUse k would (r ∷ rs) u a =
    let (later, used, u') = one-Later k r would a.0 u in
    let k' = use_work_space (push_request k r would) r in
    let (rest, all_used, u'') = apply_each-InUse k' would rs u' (
      All-map (Indexed k.all k.heap) (Indexed k'.all k'.heap) rs
        (λ p i. Later-Indexed k k' p later i) a.1) in
    (Later-trans k k' (apply_each k' would rs) later rest, (rest.still_using r used, all_used), u'')

-- The keeper has the invariant, its plotter is idle, every space in use is on its list, and the
-- temporary queue gives back the spaces that were pushed. Applying a list that is not empty, of
-- spaces that are indexed under their own ids, does not report ErrSpaceKeeperConfiguredNothing; in
-- the keeper that it leaves each space of the list is in use, and no other space; the invariant
-- holds, the plotter is idle, and every space of the keeper's list is in use and indexed under its
-- own id. If the spaces shall neither plot nor mine, the queue is empty.
pub apply_configured_work_spaces-InUse :
    (order : List Ref → List Ref) (k : SpaceKeeper) (r : Ref) (rs : List Ref)
    (exec_plot exec_mine : Bool)
    → DocumentedQueue order
    → Inv k
    → k.plotter ≡ idle
    → ((p : Ref) → Using k.heap p → OneOf p k.list)
    → All (Indexed k.all k.heap) (r ∷ rs)
    → (l : SpaceKeeper) × (apply_configured_work_spaces order k (r ∷ rs) exec_plot exec_mine
        ≡ applied l)
      × All (Using l.heap) (r ∷ rs)
      × ((p : Ref) → Using l.heap p → OneOf p (r ∷ rs))
      × InUse l
      × ((exec_mine || exec_plot) ≡ false → l.queue ≡ [])
unfolding apply_configured_work_spaces reset_queue
apply_configured_work_spaces-InUse order k r rs exec_plot exec_mine doc v rests listed indexed =
    let spare = disuse_each-Alike k.heap k.list in
    let heap = disuse_each k.heap k.list in
    let cleared = reset_queue (record k { heap = heap; list = [] }) in
    let v' =
      reset_queue-Inv (record k { heap = heap; list = [] }) rests
        (with_heap-Inv k heap [] spare v) in
    let there = doc.gives (Indexed k.all heap) (r ∷ rs) (
      All-map (Indexed k.all k.heap) (Indexed k.all heap) (r ∷ rs)
        (λ p i. ap (get k.all) (spare.ids p) ∙ i) indexed) in
    let u0 : InUse cleared = record {
      inv = v';
      rests = rests;
      listed_using = tt;
      listed_indexed = tt;
    } in
    let (later, used, u) = apply_each-InUse cleared exec_mine (order (r ∷ rs)) u0 there in
    let l = apply_each cleared exec_mine (order (r ∷ rs)) in
    let only : (p : Ref) → Using l.heap p → OneOf p (r ∷ rs) = λ p h.
      elim (apply_each-UsesOnly cleared exec_mine (order (r ∷ rs)) u0 there p h) [
        | inl before ↦
            let (old, not_listed) = disuse_each-Using k.heap k.list p before in
            absurd (not_listed (listed p old))
        | inr among ↦
            OneOf-All (λ q. OneOf q (r ∷ rs)) p (order (r ∷ rs))
              (doc.gives (λ q. OneOf q (r ∷ rs)) (r ∷ rs) (All-OneOf (r ∷ rs))) among
      ] in
    elim (Bool-cases (exec_mine || exec_plot)) [
      | inl some_work ↦
          rw some_work (l, refl, doc.takes (Using l.heap) (r ∷ rs) used, only, u, λ e. cc)
      | inr no_work ↦ rw no_work (
        reset_queue l,
        refl,
        doc.takes (Using l.heap) (r ∷ rs) used,
        only,
        record {
          inv = reset_queue-Inv l u.rests u.inv;
          rests = u.rests;
          listed_using = u.listed_using;
          listed_indexed = u.listed_indexed;
        },
        λ e. refl,
      )
    ]
