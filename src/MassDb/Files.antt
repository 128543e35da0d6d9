-- ===== src/MassDb/Files.antt =====
-- What a read sees of a file after a write.
use mass_net_miner.Common.{ℕ, ◌+◌, ◌-◌, ◌≤◌, ◌<◌, ◌≡◌, refl, ◌⊎◌, [], ◌∷◌, min, max, arith, length}
use mass_net_miner.Common.Bytes.{Bytes, read, patch, length-read, patch-outside, patch-inside}
use mass_net_miner.Common.{get_or}
use mass_net_miner.MassDb.Base.{File, read_at, write_at}

-- A complete read of a file is a read of its cells.
pub read_at-full : (f : File) (pos n : ℕ) → pos + n ≤ f.size → read_at f pos n ≡ read f.cells pos n
unfolding read_at
read_at-full f pos n h = let e : min n (f.size - pos) ≡ n = omega arith in rw e

pub length-read_at : (f : File) (pos n : ℕ) → length (read_at f pos n) ≡ min n (f.size - pos)
unfolding read_at
length-read_at f pos n = length-read f.cells pos (min n (f.size - pos))

-- A write of some bytes, without the case on the bytes.
pub write_at-effect :
    (f : File) (pos : ℕ) (bs : Bytes)
    → 0 < length bs
    → ((write_at f pos bs).cells ≡ patch f.cells pos bs)
      × ((write_at f pos bs).size ≡ max f.size (pos + length bs))
unfolding write_at
write_at-effect f pos [] h = absurd (omega arith)
write_at-effect f pos (b ∷ bs) h = (refl, refl)

pub write_at-inside :
    (f : File) (pos : ℕ) (bs : Bytes) (i : ℕ)
    → i < length bs
    → (write_at f pos bs).cells (pos + i) ≡ get_or bs i 0
unfolding write_at
write_at-inside f pos [] i h = absurd (omega arith)
write_at-inside f pos (b ∷ bs) i h = patch-inside f.cells pos (b ∷ bs) i h

pub write_at-outside :
    (f : File) (pos : ℕ) (bs : Bytes) (i : ℕ)
    → (i < pos) ⊎ (pos + length bs ≤ i)
    → (write_at f pos bs).cells i ≡ f.cells i
unfolding write_at
write_at-outside f pos [] i h = refl
write_at-outside f pos (b ∷ bs) i h = patch-outside f.cells pos (b ∷ bs) i h

pub write_at-size :
    (f : File) (pos : ℕ) (bs : Bytes)
    → (f.size ≤ (write_at f pos bs).size)
      × (0 < length bs → pos + length bs ≤ (write_at f pos bs).size)
unfolding write_at
write_at-size f pos [] = omega arith
write_at-size f pos (b ∷ bs) = omega arith
