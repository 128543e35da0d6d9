-- ===== src/MassDb/PrePlot/Memory.antt =====
-- What makeAvailableMemory grants, and the window that fits into it.
use mass_net_miner.Common.{
  ℕ, ◌*◌, ◌%◌, ◌/◌, ◌≤◌, ◌<◌, ◌≡◌, inl, inr, Option, none, some, min, arith, ltb, if◌then◌else◌,
  true, Bool-cases,
}
use native.Mathlib.Nat.{
  le_trans, mul-le-mul_right, div-mul-le_self, le_of_mul-le-mul_right, le-div_iff_mul-le,
}
use mass_net_miner.MassDb.Base.{DbError, Result, ok, err}
use mass_net_miner.MassDb.Cache.{MemCache, update}
use mass_net_miner.MassDb.PrePlot.{
  grant, make_available_memory, window_size, max_plot_mem, min_plot_mem,
}

-- A cache of `size` zeros.
abbrev pub blank : ℕ → MemCache
blank size = record { size = size; cells = λ _. 0 }

-- Enough memory for the largest cache.
abbrev pub IsPlenty : Option ℕ → Type 0
IsPlenty o = (a : ℕ) × (o ≡ some a) × (max_plot_mem ≤ a)

-- A part of what is asked for: all of it, or at least the smallest cache.
pub record IsShare (required size : ℕ) : Type 0 where
  pub at_most : size ≤ required
  pub at_least : min min_plot_mem required ≤ size

-- The memory is refused, which plenty of it rules out, or a part of what is asked for is granted.
pub data Granted (required : ℕ) (o : Option ℕ) : Result MemCache → Type 0 where
  refused : (e : DbError) → ¬ IsPlenty o → Granted required o (err e)
  granted :
      (size : ℕ)
      → IsShare required size
      → (IsPlenty o → size ≡ min max_plot_mem required)
      → Granted required o (ok (blank size))

grant-Granted :
    (cache : MemCache) (required asked : ℕ) (o : Option ℕ)
    → asked ≡ min max_plot_mem required
    → 0 < required
    → Granted required o (grant cache asked min_plot_mem o)
unfolding update
grant-Granted cache required asked none e pos = refused _ (λ p. cc (p.1))
grant-Granted cache required asked (some a) e pos = elim (Bool-cases (ltb a asked)) [
  | inr enough ↦ rw enough (granted asked (omega arith) (λ p. e))
  | inl short ↦ elim (Bool-cases (ltb a min_plot_mem)) [
    | inl little ↦ rw (short, little) (refused _ (λ p. not_plenty short p))
    | inr part ↦
        rw (short, part)
          (granted (a / min_plot_mem * min_plot_mem)
            (record { at_most = ground arith; at_least = ground arith })
            (λ p. absurd (not_plenty short p)))
  ]
]
  where
    not_plenty : ltb a asked ≡ true → ¬ IsPlenty (some a)
    not_plenty h p = absurd (ground arith)

pub make_available_memory-Granted :
    (cache : MemCache) (required : ℕ) (o : Option ℕ)
    → 0 < required
    → Granted required o (make_available_memory cache required max_plot_mem min_plot_mem o)
unfolding make_available_memory
make_available_memory-Granted cache required o pos =
    grant-Granted cache required (if ltb max_plot_mem required then max_plot_mem else required) o
      (ground arith) pos

pub window_size-le : (size rs : ℕ) → 0 < rs → window_size (blank size) rs * rs ≤ size
unfolding window_size
window_size-le size rs pos = le_trans (mul-le-mul_right rs (omega arith)) (div-mul-le_self size rs)

pub window_size-even : (cache : MemCache) (rs : ℕ) → window_size cache rs % 2 ≡ 0
unfolding window_size
window_size-even cache rs = omega arith

two_records :
    (left size rs : ℕ) → 0 < rs → rs ≤ 8 → IsShare (left * rs) size → 2 ≤ left → 2 ≤ size / rs
two_records left size rs pos small share h =
    (le-div_iff_mul-le pos).1 (omega (arith, mul-le-mul_right rs h, share.at_least))

-- The window takes no more records than are left, and none only if fewer than two are left.
pub window_size-bounds :
    (left size rs : ℕ)
    → 0 < rs
    → rs ≤ 8
    → IsShare (left * rs) size
    → (window_size (blank size) rs ≤ left) × (2 ≤ left → 2 ≤ window_size (blank size) rs)
unfolding window_size
window_size-bounds left size rs pos small share =
    (fits, λ h. omega (arith, two_records left size rs pos small share h))
  where
    fits : window_size (blank size) rs ≤ left
    fits = le_of_mul-le-mul_right (le_trans (window_size-le size rs pos) share.at_most) pos
