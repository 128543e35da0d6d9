-- ===== src/Configure/InUse.antt =====
-- Applying a configuration puts the configured spaces to use.
use mass_net_miner.Common.{
  ◌≡◌, refl, sym, ◌∙◌, ap, subst, Bool, true, ◌⊎◌, List, [], ◌∷◌, ◌++◌, some, ◌==◌, ==_iff, inl,
  inr, Bool-cases, arith,
}
use mass_net_miner.Keeper.Index.{Ref, SpaceMap, get}
use mass_net_miner.Keeper.State.{WorkSpace, idle, SpaceKeeper, put_at}
use mass_net_miner.Keeper.Invariant.{Inv, All}
use mass_net_miner.Configure.Apply.{lists_id, use_work_space, push_request}
use mass_net_miner.Configure.Applied.{Alike, with_heap-Inv, put_using-Alike, push_request-Inv}

-- A space is indexed under its own id.
abbrev pub Indexed : SpaceMap → (Ref → WorkSpace) → Ref → Type 0
Indexed all heap r = get all (heap r).id ≡ some r

abbrev pub Using : (Ref → WorkSpace) → Ref → Type 0
Using heap r = (heap r).using ≡ true

pub All-map : (P Q : Ref → Type 0) (rs : List Ref) → ((r : Ref) → P r → Q r) → All P rs → All Q rs
All-map P Q [] f a = tt
All-map P Q (r ∷ rs) f a = (f r a.0, All-map P Q rs f a.1)

All-snoc : (P : Ref → Type 0) (rs : List Ref) (r : Ref) → All P rs → P r → All P (rs ++ (r ∷ []))
All-snoc P [] r a h = (h, tt)
All-snoc P (x ∷ xs) r a h = (a.0, All-snoc P xs r a.1 h)

-- A space whose id is listed is the one that is listed.
lists_id-Using :
    (all : SpaceMap) (heap : Ref → WorkSpace) (r : Ref) (rs : List Ref)
    → All (Using heap) rs
    → All (Indexed all heap) rs
    → Indexed all heap r
    → lists_id heap (heap r).id rs ≡ true
    → Using heap r
unfolding lists_id
lists_id-Using all heap r [] a b i h = cc
lists_id-Using all heap r (x ∷ rs) a b i h = elim (Bool-cases ((heap x).id == (heap r).id)) [
  | inl same ↦
      let e = (==_iff (heap x).id (heap r).id).0 same in
      let at_x = sym (ap (get all) e) ∙ b.0 in
      let is : x ≡ r = the_same (sym at_x ∙ i) in subst (Using heap) is a.0
  | inr other ↦ lists_id-Using all heap r rs a.1 b.1 i (rw other at h)
]
  where
    the_same : some x ≡ some r → x ≡ r
    the_same e = cc

-- A space stands in a list.
abbrev pub OneOf : Ref → List Ref → Type 0
OneOf p [] = ⊥
OneOf p (r ∷ rs) = (p ≡ r) ⊎ OneOf p rs

-- What holds between the spaces that are applied.
pub record InUse (k : SpaceKeeper) : Type 0 where
  pub inv : Inv k
  pub rests : k.plotter ≡ idle
  pub listed_using : All (Using k.heap) k.list
  pub listed_indexed : All (Indexed k.all k.heap) k.list

-- A later keeper has the same spaces, and uses those that were used.
pub record Later (k l : SpaceKeeper) : Type 0 where
  pub same_all : l.all ≡ k.all
  pub alike : Alike k.heap l.heap
  pub still_using : (p : Ref) → Using k.heap p → Using l.heap p

-- It uses only those, and those of a list.
abbrev pub UsesOnly : SpaceKeeper → List Ref → SpaceKeeper → Type 0
UsesOnly k rs l = (p : Ref) → Using l.heap p → Using k.heap p ⊎ OneOf p rs

pub Later-Indexed :
    (k l : SpaceKeeper) (p : Ref) → Later k l → Indexed k.all k.heap p → Indexed l.all l.heap p
Later-Indexed k l p s i =
    ap (λ m. get m (l.heap p).id) s.same_all ∙ ap (get k.all) (s.alike.ids p) ∙ i

module _ (k : SpaceKeeper) (r : Ref) (would : Bool) (here : Indexed k.all k.heap r)
    (u : InUse k) where
  unfoldable pub pushed : SpaceKeeper
  pushed = push_request k r would

  unfoldable pub one : SpaceKeeper
  one = use_work_space pushed r

  pub one-UsesOnly : UsesOnly k (r ∷ []) one
  unfolding one pushed push_request use_work_space
  one-UsesOnly p h = elim (Bool-cases (lists_id k.heap (k.heap r).id k.list)) [
    | inl listed ↦ inl (rw (one, use_work_space, listed) at h)
    | inr not_yet ↦ elim (Bool-cases (r == p)) [
      | inl same ↦ inr (inl (sym ((==_iff r p).0 same)))
      | inr other ↦
          let kept : Using (put_at k.heap r (record (k.heap r) { using = true })) p =
            rw (one, use_work_space, not_yet) at h in
          inl (rw other at kept)
    ]
  ]

  pub one-Later : Later k one × Using one.heap r × InUse one
  unfolding one pushed push_request use_work_space
  one-Later = elim (Bool-cases (lists_id k.heap (k.heap r).id k.list)) [
    | inl listed ↦
        rw (one, use_work_space, listed)
          (
            record {
              same_all = refl;
              alike = record { ids = λ p. refl; states = λ p. refl };
              still_using = λ p h. h;
            },
            lists_id-Using k.all k.heap r k.list u.listed_using u.listed_indexed here listed,
            record {
              inv = push_request-Inv k (k.heap r).id r would here u.inv;
              rests = u.rests;
              listed_using = u.listed_using;
              listed_indexed = u.listed_indexed;
            },
          )
    | inr not_yet ↦
        rw (one, use_work_space, not_yet)
          (
            record { same_all = refl; alike = alike; still_using = keeps },
            used,
            record {
              inv =
                  with_heap-Inv (push_request k r would) heap (k.list ++ (r ∷ [])) alike
                    (push_request-Inv k (k.heap r).id r would here u.inv);
              rests = u.rests;
              listed_using =
                  All-snoc (Using heap) k.list r
                    (All-map (Using k.heap) (Using heap) k.list keeps u.listed_using) used;
              listed_indexed =
                  All-snoc (Indexed k.all heap) k.list r
                    (All-map (Indexed k.all k.heap) (Indexed k.all heap) k.list
                      (λ p i. ap (get k.all) (alike.ids p) ∙ i) u.listed_indexed)
                    (ap (get k.all) (alike.ids r) ∙ here);
            },
          )
  ]
    where
      heap : Ref → WorkSpace
      heap = put_at k.heap r (record (k.heap r) { using = true })

      alike : Alike k.heap heap
      alike = put_using-Alike k.heap r true

      keeps : (p : Ref) → Using k.heap p → Using heap p
      keeps p h = ground arith

      used : Using heap r
      used = ground arith
