-- ===== src/MassDb/HashMap/Header.antt =====
-- The header: what create_map_file writes, load_hash_map reads.
use mass_net_miner.Common.{
  ℕ, ◌+◌, ◌-◌, ◌/◌, ◌%◌, ◌^◌, ◌≤◌, ◌<◌, ◌≡◌, refl, ◌∙◌, ◌⊎◌, inl, inr, true, [], ◌∷◌, none, some,
  min, arith, leb, length, ap,
}
use mass_net_miner.Common.Bytes.{
  Bytes, read, patch, le_bytes, length-read, length-le_bytes, from_le-le_bytes, patch-outside,
  patch-inside, read-ext, read-patch_apart, read-patch_eq, get_or-read,
}
use mass_net_miner.MassDb.Base.{
  ok, ◌>>=◌, File, empty_file, read_at, write_at, PocUtil, Documented, IsKey,
}
use mass_net_miner.MassDb.Files.{write_at-effect, write_at-size}
use mass_net_miner.MassDb.HashMap.{
  hash_map_a, hash_map_b, HashMap, len_meta_info, db_version, db_file_code, bytes_equal, header,
  create_map_file, load_hash_map, load, read_checkpoint, map_a, map_b,
}

bytes_equal_refl : (bs : Bytes) → bytes_equal bs bs ≡ true
unfolding bytes_equal
bytes_equal_refl [] = refl
bytes_equal_refl (b ∷ bs) = ground (arith, bytes_equal_refl bs)

module _ (u : PocUtil) (typ bl : ℕ) (pk : Bytes) where
  -- The file that create_map_file makes.
  abbrev pub created : File
  created = write_at empty_file 0 (read (header u typ bl pk) 0 len_meta_info)

  -- What a new map is when it is opened.
  abbrev pub fresh_map : ℕ → HashMap
  fresh_map step = record {
    file = created;
    bl = bl;
    volume = 2 ^ bl % 2 ^ 64;
    checkpoint = 0;
    offset = len_meta_info;
    step = step;
    record_size = u.bytes_of_bits bl;
    pk = pk;
    pk_hash = u.pub_key_hash pk;
  }

module _ (u : PocUtil) (d : Documented u) (typ bl : ℕ) (pk : Bytes) (key : IsKey u pk) where
  file_code-header : read (header u typ bl pk) 0 32 ≡ db_file_code
  unfolding header
  file_code-header =
      read-patch_apart _ 82 pk 0 32 (inl (omega arith))
      ∙ read-patch_apart _ 50 (u.pub_key_hash pk) 0 32 (inl (omega arith))
      ∙ read-patch_apart _ 42 (le_bytes 8 0) 0 32 (inl (omega arith))
      ∙ read-patch_apart _ 41 _ 0 32 (inl (omega arith))
      ∙ read-patch_apart _ 40 _ 0 32 (inl (omega arith))
      ∙ read-patch_apart _ 32 (le_bytes 8 db_version) 0 32 (inl (omega arith))
      ∙ read-patch_eq _ 0 db_file_code 32 refl

  version-header : read (header u typ bl pk) 32 8 ≡ le_bytes 8 db_version
  unfolding header
  version-header =
      read-patch_apart _ 82 pk 32 8 (inl (omega arith))
      ∙ read-patch_apart _ 50 (u.pub_key_hash pk) 32 8 (inl (omega arith))
      ∙ read-patch_apart _ 42 (le_bytes 8 0) 32 8 (inl (omega arith))
      ∙ read-patch_apart _ 41 _ 32 8 (inl (omega arith))
      ∙ read-patch_apart _ 40 _ 32 8 (inl (omega arith))
      ∙ read-patch_eq _ 32 (le_bytes 8 db_version) 8 (length-le_bytes 8 db_version)

  bl-header : header u typ bl pk 40 ≡ bl % 256
  unfolding header
  bl-header =
      patch-outside _ 82 pk 40 (inl (omega arith))
      ∙ patch-outside _ 50 (u.pub_key_hash pk) 40 (inl (omega arith))
      ∙ patch-outside _ 42 (le_bytes 8 0) 40 (inl (omega arith))
      ∙ patch-outside _ 41 _ 40 (inl (omega arith))
      ∙ patch-inside _ 40 _ 0 (omega arith)

  typ-header : header u typ bl pk 41 ≡ typ % 256
  unfolding header
  typ-header =
      patch-outside _ 82 pk 41 (inl (omega arith))
      ∙ patch-outside _ 50 (u.pub_key_hash pk) 41 (inl (omega arith))
      ∙ patch-outside _ 42 (le_bytes 8 0) 41 (inl (omega arith))
      ∙ patch-inside _ 41 _ 0 (omega arith)

  checkpoint-header : read (header u typ bl pk) 42 8 ≡ le_bytes 8 0
  unfolding header
  checkpoint-header =
      read-patch_apart _ 82 pk 42 8 (inl (omega arith))
      ∙ read-patch_apart _ 50 (u.pub_key_hash pk) 42 8 (inl (omega arith))
      ∙ read-patch_eq _ 42 (le_bytes 8 0) 8 (length-le_bytes 8 0)

  hash-header : read (header u typ bl pk) 50 32 ≡ u.pub_key_hash pk
  unfolding header
  hash-header =
      read-patch_apart _ 82 pk 50 32 (inl (omega arith))
      ∙ read-patch_eq _ 50 (u.pub_key_hash pk) 32 (d.length-pub_key_hash pk)

  pk-header : read (header u typ bl pk) 82 33 ≡ pk
  unfolding header
  pk-header = read-patch_eq _ 82 pk 33 key.length_33

  abbrev made : File
  made = created u typ bl pk

  meta_length : length (read (header u typ bl pk) 0 len_meta_info) ≡ 4096
  meta_length = length-read _ 0 4096

  created-cells : (i : ℕ) → i < 4096 → made.cells i ≡ header u typ bl pk i
  created-cells i h =
      ap (λ (c : ℕ → ℕ). c i) (write_at-effect empty_file 0 _ (omega (arith, meta_length))).0
      ∙ from_zero
    where
      from_zero :
          patch (λ _. 0) 0 (read (header u typ bl pk) 0 len_meta_info) i ≡ header u typ bl pk i
      from_zero =
          let z : 0 + i ≡ i = omega arith in
          let cell : i < length (read (header u typ bl pk) 0 len_meta_info) =
            omega (arith, meta_length) in
          rw z at (patch-inside (λ _. 0) 0 _ i cell ∙ get_or-read _ 0 4096 i h)

  created-read :
      (pos n : ℕ) → pos + n ≤ 4096 → read made.cells pos n ≡ read (header u typ bl pk) pos n
  created-read pos n h = read-ext _ _ pos n (λ i a b. created-cells i (omega arith))

  created-meta : leb len_meta_info (length (read_at made 0 len_meta_info)) ≡ true
  unfolding read_at
  created-meta = ground (
    arith,
    length-read (made).cells 0 (min 4096 ((made).size - 0)),
    write_at-effect empty_file 0 (read (header u typ bl pk) 0 len_meta_info),
    meta_length,
  )

  load_hash_map-created :
      (step : ℕ)
      → (typ ≡ 1) × (step ≡ 1) ⊎ (typ ≡ 2) × (step ≡ 2)
      → bl < 256
      → load_hash_map u (some made) ≡ ok (fresh_map u typ bl pk step, typ)
  unfolding load_hash_map
  load_hash_map-created step ts small =
      rw
        (
          created-meta,
          created-read 0 32 (omega arith),
          file_code-header,
          bytes_equal_refl db_file_code,
          created-read 32 8 (omega arith),
          version-header,
          from_le-le_bytes 8 db_version (omega arith),
          created-read 82 33 (omega arith),
          pk-header,
          key.parses,
          created-read 50 32 (omega arith),
          hash-header,
          bytes_equal_refl (u.pub_key_hash pk),
          created-read 42 8 (omega arith),
          checkpoint-header,
          from_le-le_bytes 8 0 (omega arith),
          created-cells 40 (omega arith),
          bl-header,
          created-cells 41 (omega arith),
          typ-header,
        )
        (rw (small_bl, small_typ) (ground arith))
    where
      small_bl : bl % 256 ≡ bl
      small_bl = omega arith

      small_typ : typ % 256 ≡ typ
      small_typ = ground arith

module _ (u : PocUtil) (d : Documented u) (typ bl : ℕ) (pk : Bytes) (key : IsKey u pk) where
  pub read_checkpoint-fresh_map : (step : ℕ) → read_checkpoint (fresh_map u typ bl pk step) ≡ 0
  unfolding read_checkpoint
  read_checkpoint-fresh_map step =
      rw (created-read u d typ bl pk key 42 8 (omega arith), checkpoint-header u d typ bl pk key)
        (from_le-le_bytes 8 0 (omega arith))

  -- A new file reaches over its header.
  pub created-size : 4096 ≤ (created u typ bl pk).size
  created-size =
      let full = meta_length u d typ bl pk key in
      omega (
        arith,
        (write_at-size empty_file 0 (read (header u typ bl pk) 0 len_meta_info)).1
            (omega (arith, full)),
        full,
      )

module _ (u : PocUtil) (d : Documented u) (bl : ℕ) (pk : Bytes) (key : IsKey u pk) where
  -- A map file just made opens as the map that was asked for: its type, its bit length, its key
  -- and the key's hash, with nothing plotted.
  pub load-create_map_file :
      bl < 256
      → ((create_map_file u none hash_map_a bl pk >>= λ f. load u (some f))
          ≡ ok (
              map_a (record { base = fresh_map u hash_map_a bl pk 1; half = 2 ^ bl % 2 ^ 64 / 2 })))
        × ((create_map_file u none hash_map_b bl pk >>= λ f. load u (some f))
            ≡ ok (map_b (record { base = fresh_map u hash_map_b bl pk 2 })))
  unfolding load create_map_file
  load-create_map_file small = (
    rw (load_hash_map-created u d hash_map_a bl pk key 1 (inl (refl, refl)) small) refl,
    rw (load_hash_map-created u d hash_map_b bl pk key 2 (inr (refl, refl)) small) refl,
  )
