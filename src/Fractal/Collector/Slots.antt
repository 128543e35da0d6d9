-- ===== src/Fractal/Collector/Slots.antt =====
-- A collector reports each slot once and in order, and of each slot all that is good enough.
use mass_net_miner.Common.{
  ℕ, zero, suc, ◌+◌, ◌-◌, ◌^◌, ◌%◌, ◌≤◌, ◌<◌, ◌≡◌, ◌≢◌, refl, sym, ap, ◌∙◌, inl, inr, max, Bool,
  true, false, not, ◌&&◌, List, [], ◌∷◌, ◌++◌, some, ltb, if◌then◌else◌, Bool-cases, arith,
}
use native.Mathlib.Nat.{mod-eq_of_lt}
use mass_net_miner.Fractal.Base.{Parts}
use mass_net_miner.Fractal.Qualities.{RequestQualities, ReportQualities}
use mass_net_miner.Fractal.Collector.{
  WorkSpaceQuality, Consensus, Tried, allow_ahead, get_valid_chia_qualities, get_mass_qualities,
  satisfied_qualities, report_qualities_of, try_slot, try_ahead, try_slots, on_request_qualities,
}

abbrev pub chosen {ℓ} : {A : Type ℓ} → (A → Bool) → List A → List A
chosen f [] = []
chosen f (x ∷ xs) = if f x then x ∷ chosen f xs else chosen f xs

-- The slot behind the last one that the ticks allow.
abbrev pub until : List ℕ → ℕ → ℕ
until [] work = work
until (now ∷ ticks) work = until ticks (max work (now + allow_ahead + 1))

true-ne-false : true ≢ false
true-ne-false e = cc

append_assoc {ℓ} : {A : Type ℓ} (xs ys zs : List A) → (xs ++ ys) ++ zs ≡ xs ++ (ys ++ zs)
append_assoc [] ys zs = refl
append_assoc (x ∷ xs) ys zs = ap (λ l. x ∷ l) (append_assoc xs ys zs)

until-ge : (ticks : List ℕ) (work : ℕ) → work ≤ until ticks work
until-ge [] work = omega arith
until-ge (now ∷ ticks) work = omega (arith, until-ge ticks (max work (now + allow_ahead + 1)))

module _ (p : Parts) (c : Consensus) (req : RequestQualities p)
    (qs : List (WorkSpaceQuality p)) where
  -- A quality without an error whose value at the slot lies above the slot's target.
  abbrev pub is_good : ℕ → WorkSpaceQuality p → Bool
  is_good slot q =
      not q.failed
      && ltb (c.next_target req.parent_slot req.parent_target slot)
          (c.quality_of_size q.k_size (c.hash_val_chia q.quality slot req.height))

  -- The reports of `n` slots from `slot` on: for each slot at most one, of all its good qualities.
  abbrev pub reports_from : ℕ → ℕ → List (ReportQualities p)
  reports_from slot zero = []
  reports_from slot (suc n) =
      report_qualities_of p req (chosen (is_good slot) qs) slot ++ reports_from (slot + 1) n

  abbrev valid : List (WorkSpaceQuality p)
  valid = get_valid_chia_qualities p qs

  satisfied_lem :
      (slot : ℕ) (ws : List (WorkSpaceQuality p))
      → satisfied_qualities p
          (get_mass_qualities p c (get_valid_chia_qualities p ws) slot req.height)
          (get_valid_chia_qualities p ws)
          (c.next_target req.parent_slot req.parent_target slot)
        ≡ chosen (is_good slot) ws
  unfolding satisfied_qualities get_mass_qualities get_valid_chia_qualities
  satisfied_lem slot [] = refl
  satisfied_lem slot (w ∷ ws) = elim (Bool-cases w.failed) [
    | inl bad ↦ rw bad (satisfied_lem slot ws)
    | inr fine ↦
        elim (Bool-cases (
          ltb (c.next_target req.parent_slot req.parent_target slot)
            (c.quality_of_size w.k_size (c.hash_val_chia w.quality slot req.height)))) [
              | inl above ↦
                  rw (fine, above)
                    (ap (λ l. record w { failed = false } ∷ l) (satisfied_lem slot ws))
              | inr below ↦ rw (fine, below) (satisfied_lem slot ws)
            ]
  ]

  try_slot_lem :
      (slot : ℕ)
      → try_slot p c req valid slot ≡ report_qualities_of p req (chosen (is_good slot) qs) slot
  unfolding try_slot
  try_slot_lem slot = ap (λ l. report_qualities_of p req l slot) (satisfied_lem slot qs)

  reports_from-plus :
      (slot n m : ℕ) → reports_from slot n ++ reports_from (slot + n) m ≡ reports_from slot (n + m)
  reports_from-plus slot zero m =
      let z : slot + 0 ≡ slot = omega arith in let w : 0 + m ≡ m = omega arith in rw (z, w) refl
  reports_from-plus slot (suc n) m =
      let z : slot + suc n ≡ slot + 1 + n = omega arith in
      let w : suc n + m ≡ suc (n + m) = omega arith in
      rw (z, w)
        (append_assoc (report_qualities_of p req (chosen (is_good slot) qs) slot)
            (reports_from (slot + 1) n) (reports_from (slot + 1 + n) m)
          ∙ ap (λ l. report_qualities_of p req (chosen (is_good slot) qs) slot ++ l)
              (reports_from-plus (slot + 1) n m))

  module _ (done : ℕ → Bool) where
    -- `k` slots were reported from `work` on, of `n` slots; and all of them, if no cancel came.
    record Reached (work n k : ℕ) (t : Tried p) : Type 0 where
      reports_are : t.reports ≡ reports_from work k
      work_slot_is : t.work_slot ≡ work + k
      at_most : k ≤ n

    try_ahead-Reached :
        (n work : ℕ)
        → (k : ℕ) × Reached work n k (try_ahead p c req valid done n work)
          × ((try_ahead p c req valid done n work).cancelled ≡ false → k ≡ n)
          × (((s : ℕ) → done s ≡ false) → (try_ahead p c req valid done n work).cancelled ≡ false)
    unfolding try_ahead
    try_ahead-Reached zero work = (
      0,
      record { reports_are = refl; work_slot_is = omega arith; at_most = omega arith },
      λ _. refl,
      λ _. refl,
    )
    try_ahead-Reached (suc n) work = elim (Bool-cases (done work)) [
      | inl cancelled ↦ rw cancelled (
        0,
        record { reports_are = refl; work_slot_is = omega arith; at_most = omega arith },
        λ e. absurd (true-ne-false e),
        λ never. absurd (true-ne-false (sym cancelled ∙ never work)),
      )
      | inr going ↦
          let (k, r, all, never) = try_ahead-Reached n (work + 1) in
          rw going (
            suc k,
            record {
              reports_are =
                  ap (λ l. l ++ (try_ahead p c req valid done n (work + 1)).reports)
                    (try_slot_lem work)
                  ∙ ap (λ l. report_qualities_of p req (chosen (is_good work) qs) work ++ l)
                      r.reports_are;
              work_slot_is = omega (arith, r.work_slot_is);
              at_most = omega (arith, r.at_most);
            },
            λ e. ap suc (all e),
            never,
          )
    ]

    try_slots-Reached :
        (ticks : List ℕ) (work : ℕ)
        → (k : ℕ) × Reached work
            (until ticks work - work)
            k
            (try_slots p c req valid done ticks work)
          × (((s : ℕ) → done s ≡ false) → work + k ≡ until ticks work)
    unfolding try_slots
    try_slots-Reached [] work = (
      0,
      record { reports_are = refl; work_slot_is = omega arith; at_most = omega arith },
      λ never. omega arith,
    )
    try_slots-Reached (now ∷ ticks) work = elim (Bool-cases (ltb (now + allow_ahead) work)) [
      | inl far ↦
          let stays : max work (now + allow_ahead + 1) ≡ work = ground arith in
          rw (far, stays) (try_slots-Reached ticks work)
      | inr near ↦
          let (k, r, all, never) = try_ahead-Reached (now + allow_ahead + 1 - work) work in
          rw near (joined near k r all never (try_slots-Reached ticks tried.work_slot))
    ]
      where
        n : ℕ
        n = now + allow_ahead + 1 - work

        tried : Tried p
        tried = try_ahead p c req valid done (now + allow_ahead + 1 - work) work

        Result : Tried p → Type 0
        Result t =
            (k : ℕ) × Reached work (until ticks (max work (now + allow_ahead + 1)) - work) k t
            × (((s : ℕ) → done s ≡ false)
                → work + k ≡ until ticks (max work (now + allow_ahead + 1)))

        joined :
            ltb (now + allow_ahead) work ≡ false
            → (k : ℕ) → Reached work n k tried
            → (tried.cancelled ≡ false → k ≡ n)
            → (((s : ℕ) → done s ≡ false) → tried.cancelled ≡ false)
            → (k2 : ℕ) × Reached tried.work_slot
                (until ticks tried.work_slot - tried.work_slot)
                k2
                (try_slots p c req valid done ticks tried.work_slot)
              × (((s : ℕ) → done s ≡ false) → tried.work_slot + k2 ≡ until ticks tried.work_slot)
            → Result (
                if tried.cancelled
                then tried
                else record (try_slots p c req valid done ticks tried.work_slot) {
                  reports =
                      tried.reports ++ (try_slots p c req valid done ticks tried.work_slot).reports;
                })
        joined near k r all never (k2, r2, never2) = elim (Bool-cases tried.cancelled) [
          | inl stopped ↦ rw stopped (
            k,
            record {
              reports_are = r.reports_are;
              work_slot_is = r.work_slot_is;
              at_most = omega (arith, r.at_most, until-ge ticks (max work (now + allow_ahead + 1)));
            },
            λ quiet. absurd (true-ne-false (sym stopped ∙ never quiet)),
          )
          | inr going ↦
              let whole : work + k ≡ max work (now + allow_ahead + 1) = ground (arith, all going) in
              let here : tried.work_slot ≡ max work (now + allow_ahead + 1) =
                r.work_slot_is ∙ whole in
              let end : until ticks tried.work_slot
                  ≡ until ticks (max work (now + allow_ahead + 1)) =
                ap (until ticks) here in
              rw going (
                k + k2,
                record {
                  reports_are =
                      ap (λ l. l ++ (try_slots p c req valid done ticks tried.work_slot).reports)
                        r.reports_are
                      ∙ ap (λ l. reports_from work k ++ l)
                          (r2.reports_are ∙ ap (λ w. reports_from w k2) r.work_slot_is)
                      ∙ reports_from-plus work k k2;
                  work_slot_is = omega (arith, r2.work_slot_is, r.work_slot_is);
                  at_most = omega (
                    arith,
                    r2.at_most,
                    r.at_most,
                    r.work_slot_is,
                    end,
                    until-ge ticks tried.work_slot,
                  );
                },
                λ quiet. omega (arith, never2 quiet, r.work_slot_is, end),
              )
        ]

module _ (p : Parts) (c : Consensus) (req : RequestQualities p)
    (qs : List (WorkSpaceQuality p)) where
  none_good :
      (slot : ℕ) → get_valid_chia_qualities p qs ≡ [] → chosen (is_good p c req qs slot) qs ≡ []
  unfolding satisfied_qualities get_mass_qualities
  none_good slot e =
      let target = c.next_target req.parent_slot req.parent_target slot in
      sym (satisfied_lem p c req qs slot qs)
      ∙ ap (λ v. satisfied_qualities p (get_mass_qualities p c v slot req.height) v target) e

  none_reported :
      (slot n : ℕ) → get_valid_chia_qualities p qs ≡ [] → reports_from p c req qs slot n ≡ []
  unfolding report_qualities_of
  none_reported slot zero e = refl
  none_reported slot (suc n) e = rw (none_good slot e, none_reported (slot + 1) n e) refl

-- The parent's slot is below 2^64 - 1, and the space keeper answers. On whatever ticks and cancels: the
-- reports are those of some number of slots that follow the parent's, each once and in order: for each
-- slot with any, one report of all qualities, in the keeper's order, that have no error and whose value
-- at the slot is above its target. None is for a slot further ahead of the ticks than 10, and where no
-- cancel comes between two slots they are those of all slots up to there.
pub on_request_qualities_lem :
    (p : Parts) (c : Consensus) (req : RequestQualities p) (qs : List (WorkSpaceQuality p))
    (done : ℕ → Bool) (ticks : List ℕ)
    → req.parent_slot + 1 < 2 ^ 64
    → let begin = req.parent_slot + 1 in
      (k : ℕ) × (on_request_qualities p c req (some qs) done ticks
        ≡ reports_from p c req qs begin k)
      × (begin + k ≤ until ticks begin)
      × (((s : ℕ) → done s ≡ false) → begin + k ≡ until ticks begin)
unfolding on_request_qualities
on_request_qualities_lem p c req qs done ticks small = go (get_valid_chia_qualities p qs) refl
  where
    begin : ℕ
    begin = req.parent_slot + 1

    all : begin + (until ticks begin - begin) ≡ until ticks begin
    all = omega (arith, until-ge ticks begin)

    go :
        (v : List (WorkSpaceQuality p))
        → get_valid_chia_qualities p qs ≡ v
        → (k : ℕ) × (elim v [
          | [] ↦ []
          | q ∷ valid ↦ (try_slots p c req (q ∷ valid) done ticks (begin % 2 ^ 64)).reports
        ]
            ≡ reports_from p c req qs begin k)
          × (begin + k ≤ until ticks begin)
          × (((s : ℕ) → done s ≡ false) → begin + k ≡ until ticks begin)
    go [] e = (
      until ticks begin - begin,
      sym (none_reported p c req qs begin (until ticks begin - begin) e),
      omega (arith, all),
      λ _. all,
    )
    go (q ∷ valid) e =
        let exact : begin % 2 ^ 64 ≡ begin = mod-eq_of_lt small in
        let (k, r, never) = try_slots-Reached p c req qs done ticks begin in
        (k, rw (exact, ← e) r.reports_are, omega (arith, r.at_most, until-ge ticks begin), never)
