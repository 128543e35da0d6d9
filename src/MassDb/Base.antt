-- ===== src/MassDb/Base.antt =====
-- What massdb.v1 takes from elsewhere: files of package os, and mass-core's pocutil and pocec.
-- Also its errors (massdb.v1/errors.go, massdb/massdb.go). `panicked` is none of them: it is the end
-- of a goroutine that divides by zero.
use mass_net_miner.Common.{ℕ, ◌+◌, ◌-◌, ◌/◌, ◌^◌, ◌<◌, min, max, ◌≡◌, [], ◌∷◌, Option, some, length}
use mass_net_miner.Common.Bytes.{Bytes, Cells, read, patch}

pub data DbError : Type 0 where
  wrong_file_size wrong_file_code wrong_version wrong_type wrong_pub_key_hash : DbError
  wrong_map_type bad_pub_key already_exists does_not_exist corrupted : DbError
  already_plotting stop_plotting memory_not_enough memory_unknown io_error bad_proof eof panicked :
      DbError

pub data Result {ℓ} (A : Type ℓ) : Type ℓ where
  ok : A → Result A
  err : DbError → Result A

infixl 5 ◌>>=◌
abbrev pub ◌>>=◌ {ℓ κ} : {A : Type ℓ} {B : Type κ} → Result A → (A → Result B) → Result B
ok a >>= f = f a
err e >>= f = err e

-- An os.File: its size and its bytes. A hole reads as 0.
pub record File : Type 0 where
  pub size : ℕ
  pub cells : Cells

abbrev pub empty_file : File
empty_file = record { size = 0; cells = λ _. 0 }

-- ReadAt returns fewer bytes than asked for only at the end of the file.
unfoldable pub read_at : File → ℕ → ℕ → Bytes
read_at f pos n = read f.cells pos (min n (f.size - pos))

-- A WriteAt that the disk completes.
unfoldable pub write_at : File → ℕ → Bytes → File
write_at f pos [] = f
write_at f pos (b ∷ bs) = record {
  size = max f.size (pos + length (b ∷ bs));
  cells = patch f.cells pos (b ∷ bs);
}

-- The functions of mass-core that massdb.v1 calls. A public key is its compressed form, and
-- `parse_pub_key` fails on bytes that are none.
pub record PocUtil : Type 0 where
  pub bytes_of_bits : ℕ → ℕ  -- pocutil.RecordSize
  pub flip_value : ℕ → ℕ → ℕ
  pub p : ℕ → ℕ → Bytes → ℕ
  pub fb : Bytes → Bytes → ℕ → Bytes → ℕ
  pub cut_hash : Bytes → ℕ → ℕ
  pub pub_key_hash : Bytes → Bytes
  pub parse_pub_key : Bytes → Option Bytes

-- What the comments of hashmap.go say of these functions: a record has (BitLength + 7) / 8 bytes,
-- FlipValue flips the bits by BitLength, and the values of P and F have BitLength bits.
pub record Documented (u : PocUtil) : Type 0 where
  pub bytes_of_bits_lem : (bl : ℕ) → u.bytes_of_bits bl ≡ (bl + 7) / 8
  pub flip_value_lem : (v bl : ℕ) → v < 2 ^ bl → u.flip_value v bl + v + 1 ≡ 2 ^ bl
  pub p-lt : (x bl : ℕ) (h : Bytes) → u.p x bl h < 2 ^ bl
  pub fb-lt : (x y : Bytes) (bl : ℕ) (h : Bytes) → u.fb x y bl h < 2 ^ bl
  pub length-pub_key_hash : (pk : Bytes) → length (u.pub_key_hash pk) ≡ 32

-- A public key in compressed form, as SerializeCompressed gives it.
pub record IsKey (u : PocUtil) (pk : Bytes) : Type 0 where
  pub parses : u.parse_pub_key pk ≡ some pk
  pub length_33 : length pk ≡ 33
