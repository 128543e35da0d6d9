-- ===== src/MassDb/HashMap.antt =====
-- poc/engine/massdb/massdb.v1/hashmap.go: the header of a map file, and the records of the two maps.
-- Numbers are uint64, int or byte. A bit length is at most 40 (EnsureBitLength), so that no product
-- or sum of the code wraps; the header's byte and the shift of `volume` keep their wrap.
pub mod Slots
pub mod Records
pub mod Header
use mass_net_miner.Common.{
  ℕ, zero, suc, ◌+◌, ◌-◌, ◌*◌, ◌/◌, ◌%◌, ◌^◌, ◌≡◌, Bool, true, false, List, [], ◌∷◌, Option, none,
  some, ltb, leb, ◌==◌, if◌then◌else◌, length, take, drop,
}
use mass_net_miner.Common.Bytes.{Bytes, Cells, read, patch, le_bytes, from_le}
use mass_net_miner.MassDb.Base.{
  DbError, wrong_file_size, wrong_file_code, wrong_version, wrong_type, wrong_pub_key_hash,
  wrong_map_type, bad_pub_key, already_exists, does_not_exist, corrupted, Result, ok, err, ◌>>=◌,
  File, empty_file, read_at, write_at, PocUtil,
}

-- `iota` counts from TypeMassDBV1, so that the first map type is 1.
abbrev pub MapType : Type 0
MapType = ℕ

abbrev pub hash_map_a : MapType
hash_map_a = 1

abbrev pub hash_map_b : MapType
hash_map_b = 2

pub record HashMap : Type 0 where
  pub file : File
  pub bl : ℕ
  pub volume : ℕ
  pub checkpoint : ℕ
  pub offset : ℕ
  pub step : ℕ
  pub record_size : ℕ
  pub pk : Bytes
  pub pk_hash : Bytes

pub record HashMapA : Type 0 where
  pub base : HashMap
  pub half : ℕ

pub record HashMapB : Type 0 where
  pub base : HashMap

abbrev pub db_version : ℕ
db_version = 1

abbrev pub len_meta_info : ℕ
len_meta_info = 4096

-- massdb.DBFileCode
abbrev pub db_file_code : Bytes
db_file_code =
    0x52 ∷ 0xA7 ∷ 0xAD ∷ 0x74 ∷ 0xC4 ∷ 0x92 ∷ 0x9D ∷ 0xEC ∷ 0x7B ∷ 0x5C ∷ 0x8D ∷ 0x46 ∷ 0xCC ∷ 0x3B
    ∷ 0xAF ∷ 0xA8 ∷ 0x1F ∷ 0xC9 ∷ 0x61 ∷ 0x29 ∷ 0x28 ∷ 0x3B ∷ 0x3A ∷ 0x69 ∷ 0x23 ∷ 0xCD ∷ 0x12
    ∷ 0xF4 ∷ 0x1A ∷ 0x30 ∷ 0xB3 ∷ 0xAC ∷ []

-- bytes.Equal
unfoldable pub bytes_equal : Bytes → Bytes → Bool
bytes_equal [] [] = true
bytes_equal [] (b ∷ bs) = false
bytes_equal (a ∷ as') [] = false
bytes_equal (a ∷ as') (b ∷ bs) = let rest = bytes_equal as' bs in if a == b then rest else false

-- The header that createMapFile fills in, field after field, over 4096 zero bytes.
pub header : PocUtil → MapType → ℕ → Bytes → Cells
header u typ bl pk =
    let code = patch (λ _. 0) 0 db_file_code in
    let version = patch code 32 (le_bytes 8 db_version) in
    let bit_length = patch version 40 ((bl % 256) ∷ []) in
    let map_type = patch bit_length 41 ((typ % 256) ∷ []) in
    let checkpoint = patch map_type 42 (le_bytes 8 0) in
    let hash = patch checkpoint 50 (u.pub_key_hash pk) in patch hash 82 pk

-- expandMapFile does nothing (util.go), so that a new file ends with its header.
unfoldable pub create_map_file : PocUtil → Option File → MapType → ℕ → Bytes → Result File
unfolding header
create_map_file u (some f) typ bl pk = err already_exists
create_map_file u none typ bl pk =
    ok (write_at empty_file 0 (read (header u typ bl pk) 0 len_meta_info))

unfoldable pub open_map_file : Option File → Result File
open_map_file none = err does_not_exist
open_map_file (some f) = ok f

unfoldable pub calc_proof_data_offset : MapType → Result (ℕ × ℕ)
calc_proof_data_offset typ =
    if typ == hash_map_a
    then ok (len_meta_info, 1)
    else if typ == hash_map_b
    then ok (len_meta_info, 2)
    else err wrong_map_type

abbrev or_fail {ℓ} : {A : Type ℓ} → Option A → DbError → Result A
or_fail none e = err e
or_fail (some a) e = ok a

abbrev guard : Bool → DbError → Result (Unit {0})
guard true e = ok tt
guard false e = err e

infixl 5 ◌>>◌
abbrev ◌>>◌ {ℓ} : {B : Type ℓ} → Result (Unit {0}) → Result B → Result B
m >> k = m >>= λ _. k

-- The bytes of the header are the cells of the file below 4096.
unfoldable pub load_hash_map : PocUtil → Option File → Result (HashMap × MapType)
unfolding open_map_file calc_proof_data_offset
load_hash_map u file = do
  f ← open_map_file file
  let meta = read_at f 0 len_meta_info
  guard (leb len_meta_info (length meta)) wrong_file_size
  guard (bytes_equal (read f.cells 0 32) db_file_code) wrong_file_code
  guard (from_le (read f.cells 32 8) == db_version) wrong_version
  let bl = f.cells 40
  let typ = f.cells 41
  let checkpoint = from_le (read f.cells 42 8)
  let pk_hash = read f.cells 50 32
  pk ← or_fail (u.parse_pub_key (read f.cells 82 33)) bad_pub_key
  guard (bytes_equal pk_hash (u.pub_key_hash pk)) wrong_pub_key_hash
  (offset, step) ← calc_proof_data_offset typ
  ok (
    record {
      file = f;
      bl = bl;
      volume = 2 ^ bl % 2 ^ 64;
      checkpoint = checkpoint;
      offset = offset;
      step = step;
      record_size = u.bytes_of_bits bl;
      pk = pk;
      pk_hash = pk_hash;
    },
    typ,
  )

pub data AnyMap : Type 0 where
  map_a : HashMapA → AnyMap
  map_b : HashMapB → AnyMap

unfoldable pub load : PocUtil → Option File → Result AnyMap
load u file = do
  (hm, typ) ← load_hash_map u file
  if typ == hash_map_a
      then ok (map_a (record { base = hm; half = hm.volume / 2 }))
      else if typ == hash_map_b
      then ok (map_b (record { base = hm }))
      else err wrong_type

unfoldable pub update_checkpoint : HashMap → HashMap
update_checkpoint hm = record hm { file = write_at hm.file 42 (le_bytes 8 hm.checkpoint) }

unfoldable pub read_checkpoint : HashMap → ℕ
read_checkpoint hm = from_le (read hm.file.cells 42 8)

-- Progress of the two maps: finished or not, and the checkpoint.
unfoldable pub progress_a : HashMapA → Bool × ℕ
progress_a hm = (leb hm.base.volume hm.base.checkpoint, hm.base.checkpoint)

unfoldable pub progress_b : HashMapB → Bool × ℕ
progress_b hm = (leb (hm.base.volume / 2) hm.base.checkpoint, hm.base.checkpoint)

-- Where HashMapA keeps the record of `y`: the flipped value's record is next to it.
unfoldable pub slot : PocUtil → ℕ → ℕ → ℕ → ℕ
slot u half bl y = if ltb y half then y * 2 else u.flip_value y bl * 2 + 1

unfoldable pub get_a : PocUtil → HashMapA → ℕ → Result Bytes
get_a u hm key =
    let b = hm.base in
    let target = b.offset + slot u hm.half b.bl key * b.record_size in
    let value = read_at b.file target b.record_size in
    if ltb (length value) b.record_size then err corrupted else ok value

unfoldable pub set_a : PocUtil → HashMapA → ℕ → Bytes → Result HashMapA
set_a u hm key value =
    let b = hm.base in
    let target = b.offset + slot u hm.half b.bl key * b.record_size in
    let file = write_at b.file target (take b.record_size value) in
    ok (record { base = record b { file = file }; half = hm.half })

unfoldable pub get_b : HashMapB → ℕ → Result (Bytes × Bytes)
get_b hm key =
    let b = hm.base in
    let proof = read_at b.file (b.offset + key * b.record_size * 2) (b.record_size * 2) in
    if ltb (length proof) (b.record_size * 2)
    then err corrupted
    else ok (take b.record_size proof, drop b.record_size proof)

unfoldable pub set_b : HashMapB → ℕ → Bytes → Bytes → Result HashMapB
set_b hm key x xp =
    let b = hm.base in
    let target = b.offset + key * b.record_size * 2 in
    let first = write_at b.file target (take b.record_size x) in
    let both = write_at first (target + b.record_size) (take b.record_size xp) in
    ok (record { base = record b { file = both } })
