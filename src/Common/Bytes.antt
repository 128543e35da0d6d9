-- ===== src/Common/Bytes.antt =====
-- Byte storage as a function of the position, and numbers as little-endian bytes
-- (encoding/binary's LittleEndian.PutUint64 and Uint64, and the built-in copy).
use Prim.Native.Nat.{ℕ, zero, suc, ◌+◌, ◌-◌, ◌*◌, ◌/◌, ◌%◌, ◌^◌, ◌≤◌, ◌<◌, min}
use mathlib.Core.Path.{◌≡◌, refl, ap, ap₂}
use mathlib.Core.Logic.{◌⊎◌, inl, inr}
use mathlib.Core.Bool.{◌&&◌}
use mathlib.Core.List.{List, [], ◌∷◌}
use native.Mathlib.Omega.{arith}
use native.Mathlib.Nat.{pow-suc}
use mass_net_miner.Common.Tests.{ltb, leb, if◌then◌else◌}
use mass_net_miner.Common.Lists.{length, get_or, take, drop, replicate}

abbrev pub Bytes : Type 0
Bytes = List ℕ

-- The bytes of a medium, by position. A hole and what lies past the end read as 0.
abbrev pub Cells : Type 0
Cells = ℕ → ℕ

unfoldable pub read : Cells → ℕ → ℕ → Bytes
read m pos zero = []
read m pos (suc n) = m pos ∷ read m (pos + 1) n

-- The bytes `bs` put at `pos`, all else as it was.
unfoldable pub patch : Cells → ℕ → Bytes → Cells
patch m pos bs i = if leb pos i && ltb i (pos + length bs) then get_or bs (i - pos) 0 else m i

pub length-read : (m : Cells) (pos n : ℕ) → length (read m pos n) ≡ n
unfolding read
length-read m pos zero = refl
length-read m pos (suc n) = ap suc (length-read m (pos + 1) n)

-- Reading looks at its range only.
pub read-ext :
    (m m' : Cells) (pos n : ℕ)
    → ((i : ℕ) → pos ≤ i → i < pos + n → m i ≡ m' i)
    → read m pos n ≡ read m' pos n
unfolding read
read-ext m m' pos zero h = refl
read-ext m m' pos (suc n) h =
    ap₂ ◌∷◌ (h pos (omega arith) (omega arith))
      (read-ext m m' (pos + 1) n (λ i a b. h i (omega arith) (omega arith)))

pub patch-outside :
    (m : Cells) (pos : ℕ) (bs : Bytes) (i : ℕ)
    → (i < pos) ⊎ (pos + length bs ≤ i)
    → patch m pos bs i ≡ m i
unfolding patch
patch-outside m pos bs i h = ground arith

pub patch-inside :
    (m : Cells) (pos : ℕ) (bs : Bytes) (i : ℕ)
    → i < length bs
    → patch m pos bs (pos + i) ≡ get_or bs i 0
unfolding patch
patch-inside m pos bs i h = let e : pos + i - pos ≡ i = omega arith in rw e (ground arith)

-- A write that ends before the range, or begins behind it, is not seen.
pub read-patch_apart :
    (m : Cells) (pos : ℕ) (bs : Bytes) (at n : ℕ)
    → (at + n ≤ pos) ⊎ (pos + length bs ≤ at)
    → read (patch m pos bs) at n ≡ read m at n
read-patch_apart m pos bs at n h =
    read-ext _ _ at n (λ i a b. patch-outside m pos bs i (split i a b h))
  where
    split :
        (i : ℕ)
        → at ≤ i
        → i < at + n
        → (at + n ≤ pos) ⊎ (pos + length bs ≤ at)
        → (i < pos) ⊎ (pos + length bs ≤ i)
    split i a b (inl l) = inl (omega arith)
    split i a b (inr r) = inr (omega arith)

-- The bytes from `at` are those of `bs` when the cells are.
pub read-eq_of_cells :
    (m : Cells) (at : ℕ) (bs : Bytes)
    → ((i : ℕ) → i < length bs → m (at + i) ≡ get_or bs i 0)
    → read m at (length bs) ≡ bs
unfolding read
read-eq_of_cells m at [] h = refl
read-eq_of_cells m at (b ∷ bs) h =
    ap₂ ◌∷◌ (subst_zero (h zero (omega arith)))
      (read-eq_of_cells m (at + 1) bs (λ i l. shift i (h (suc i) (omega arith))))
  where
    subst_zero : m (at + 0) ≡ b → m at ≡ b
    subst_zero e = let z : at + 0 ≡ at = omega arith in rw z at e

    shift : (i : ℕ) → m (at + suc i) ≡ get_or bs i 0 → m (at + 1 + i) ≡ get_or bs i 0
    shift i e = let z : at + suc i ≡ at + 1 + i = omega arith in rw z at e

-- What was written is read back.
pub read-patch_self :
    (m : Cells) (pos : ℕ) (bs : Bytes) → read (patch m pos bs) pos (length bs) ≡ bs
read-patch_self m pos bs =
    read-eq_of_cells (patch m pos bs) pos bs (λ i l. patch-inside m pos bs i l)

pub read-patch_eq :
    (m : Cells) (pos : ℕ) (bs : Bytes) (n : ℕ) → length bs ≡ n → read (patch m pos bs) pos n ≡ bs
read-patch_eq m pos bs n e = rw (← e) (read-patch_self m pos bs)

-- The cell `j` of the bytes read is the cell `pos + j` of the medium.
pub get_or-read : (m : Cells) (pos n j : ℕ) → j < n → get_or (read m pos n) j 0 ≡ m (pos + j)
unfolding read
get_or-read m pos zero j h = absurd (omega arith)
get_or-read m pos (suc n) zero h = let z : pos + 0 ≡ pos = omega arith in rw z
get_or-read m pos (suc n) (suc j) h =
    let z : pos + 1 + j ≡ pos + suc j = omega arith in
    rw (← z) (get_or-read m (pos + 1) n j (omega arith))

pub take-read : (m : Cells) (n pos k : ℕ) → take n (read m pos k) ≡ read m pos (min n k)
unfolding read
take-read m zero pos k = let e : min 0 k ≡ 0 = omega arith in rw e
take-read m (suc n) pos zero = let e : min (suc n) 0 ≡ 0 = omega arith in rw e
take-read m (suc n) pos (suc k) =
    let e : min (suc n) (suc k) ≡ suc (min n k) = omega arith in
    rw e (ap (◌∷◌ (m pos)) (take-read m n (pos + 1) k))

pub drop-read : (m : Cells) (k pos j : ℕ) → drop k (read m pos (k + j)) ≡ read m (pos + k) j
unfolding read
drop-read m zero pos j =
    let z : pos + 0 ≡ pos = omega arith in let w : 0 + j ≡ j = omega arith in rw (z, w) refl
drop-read m (suc k) pos j =
    let z : suc k + j ≡ suc (k + j) = omega arith in
    let w : pos + suc k ≡ pos + 1 + k = omega arith in rw (z, w) (drop-read m k (pos + 1) j)

-- Little-endian bytes.
unfoldable pub le_bytes : ℕ → ℕ → Bytes
le_bytes zero v = []
le_bytes (suc n) v = (v % 256) ∷ le_bytes n (v / 256)

unfoldable pub from_le : Bytes → ℕ
from_le [] = 0
from_le (b ∷ bs) = b + 256 * from_le bs

pub length-le_bytes : (n v : ℕ) → length (le_bytes n v) ≡ n
unfolding le_bytes
length-le_bytes zero v = refl
length-le_bytes (suc n) v = ap suc (length-le_bytes n (v / 256))

pub from_le-le_bytes : (n v : ℕ) → v < 256 ^ n → from_le (le_bytes n v) ≡ v
unfolding le_bytes from_le
from_le-le_bytes zero v h = omega arith
from_le-le_bytes (suc n) v h =
    let below : v < 256 ^ n * 256 = rw (← pow-suc) h in
    omega (arith, from_le-le_bytes n (v / 256) (omega arith))

-- The width of the number does not matter to its lower bytes.
pub le_bytes-injective :
    (n v w : ℕ) → v < 256 ^ n → w < 256 ^ n → le_bytes n v ≡ le_bytes n w → v ≡ w
le_bytes-injective n v w hv hw e =
    omega (arith, from_le-le_bytes n v hv, from_le-le_bytes n w hw, ap from_le e)

pub read-zeros : (pos n : ℕ) → read (λ _. 0) pos n ≡ replicate n 0
unfolding read
read-zeros pos zero = refl
read-zeros pos (suc n) = ap (◌∷◌ 0) (read-zeros (pos + 1) n)

-- Two ranges with the same cells read alike.
pub read-shift :
    (m m' : Cells) (p q n : ℕ)
    → ((i : ℕ) → i < n → m (p + i) ≡ m' (q + i))
    → read m p n ≡ read m' q n
unfolding read
read-shift m m' p q zero h = refl
read-shift m m' p q (suc n) h =
    ap₂ ◌∷◌ (first (h 0 (omega arith)))
      (read-shift m m' (p + 1) (q + 1) n (λ i l. next i (h (suc i) (omega arith))))
  where
    first : m (p + 0) ≡ m' (q + 0) → m p ≡ m' q
    first e = let a : p + 0 ≡ p = omega arith in let b : q + 0 ≡ q = omega arith in rw (a, b) at e

    next : (i : ℕ) → m (p + suc i) ≡ m' (q + suc i) → m (p + 1 + i) ≡ m' (q + 1 + i)
    next i e =
        let a : p + suc i ≡ p + 1 + i = omega arith in
        let b : q + suc i ≡ q + 1 + i = omega arith in rw (a, b) at e
