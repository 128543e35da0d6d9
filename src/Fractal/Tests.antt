-- ===== src/Fractal/Tests.antt =====
-- Messages over small identifiers and group elements, and a text that reads as one value.
use mass_net_miner.Common.{
  ◌+◌, ◌≤◌, ℕ, zero, suc, ◌≡◌, ◌≢◌, refl, ap, sym, ◌∙◌, Bool, true, false, [], ◌∷◌, ◌++◌, Option,
  none, some, length, ◌==◌, if◌then◌else◌, arith,
}
use mass_net_miner.Common.Bytes.{Bytes}
use mass_net_miner.Fractal.Base.{
  Text, codes, Decoded, ok, err, panics, Parts, DocumentedParts, IsBytes, IsHash,
}
use mass_net_miner.Fractal.Hex.{hex_encode, hex_decode, hex_decode-hex_encode}
use mass_net_miner.Fractal.Json.{Json, JsonText}
use mass_net_miner.Fractal.Qualities.{RequestQualities, Quality, report_qualities_json}
use mass_net_miner.Fractal.Proofs.{report_proof_json}
use mass_net_miner.Fractal.Message.{
  Message, request_qualities, report_qualities, msg_type_to_bytes, msg_type_from_bytes, to_json,
  encode_message, decode_message,
}
use mass_net_miner.Fractal.RoundTrip.{MessageFits, arrives, decode_message-encode_message}
use mass_net_miner.Fractal.RoundTrip.Qualities.{IsQuality}
use mass_net_miner.Fractal.Rejects.{with_nil, decode_message_nil}
use mass_net_miner.Fractal.Collector.{WorkSpaceQuality, Consensus, on_request_qualities}
use mass_net_miner.Fractal.Collector.Slots.{until, reports_from, on_request_qualities_lem}
use mass_net_miner.Fractal.Returns.{decode_message-returns}

abbrev digits : ℕ → Text
digits n = n ∷ []

abbrev of_digits : Text → Option ℕ
of_digits [] = none
of_digits (n ∷ []) = some n
of_digits (n ∷ m ∷ rest) = none

abbrev key_bytes : Bool → Bytes
key_bytes true = 1 ∷ []
key_bytes false = 0 ∷ []

abbrev key_of : Bytes → Option Bool
key_of [] = none
key_of (b ∷ bs) = some (b == 1)

abbrev of_length : Option Bytes → Option Bytes
of_length none = none
of_length (some h) = if length h == 32 then some h else none

abbrev parts : Parts
parts = record {
  Uuid = ℕ;
  G1 = Bool;
  G2 = Bool;
  uuid_string = digits;
  uuid_parse = of_digits;
  hash_string = hex_encode;
  decode_hash = λ s. of_length (hex_decode s);
  g1_bytes = key_bytes;
  new_g1 = key_of;
  g2_bytes = key_bytes;
  new_g2 = key_of;
}

key_of-key_bytes : (k : Bool) → key_of (key_bytes k) ≡ some k
key_of-key_bytes true = refl
key_of-key_bytes false = refl

key_bytes-IsBytes : (k : Bool) → IsBytes (key_bytes k)
key_bytes-IsBytes true = (omega arith, tt)
key_bytes-IsBytes false = (omega arith, tt)

hash_trip : (h : Bytes) → IsHash h → of_length (hex_decode (hex_encode h)) ≡ some h
hash_trip h v = rw (hex_decode-hex_encode h v.1, v.0) refl

parts-Documented : DocumentedParts parts hex_encode
parts-Documented = record {
  uuid_parse-uuid_string = λ t. refl;
  decode_hash-hash_string = hash_trip;
  decode_hash-encoded = hash_trip;
  new_g1-g1_bytes = key_of-key_bytes;
  g1_bytes-IsBytes = key_bytes-IsBytes;
  new_g2-g2_bytes = key_of-key_bytes;
  g2_bytes-IsBytes = key_bytes-IsBytes;
}

abbrev reads : Json → JsonText
reads j = record { print = λ _. []; parse = λ _. some j }

abbrev repeated : ℕ → Bytes
repeated zero = []
repeated (suc n) = 7 ∷ repeated n

abbrev hash : Bytes
hash = repeated 32

hash-IsHash : IsHash hash
hash-IsHash = (refl, repeated-IsBytes 32)
  where
    repeated-IsBytes : (n : ℕ) → IsBytes (repeated n)
    repeated-IsBytes zero = tt
    repeated-IsBytes (suc n) = (omega arith, repeated-IsBytes n)

abbrev quality : Quality parts
quality = record {
  space_id = codes "a-32";
  public_key = true;
  pool_public_key = false;
  index = 3;
  k_size = 32;
  quality = hash;
  failed = true;
  plot_id = hash;
  slot = 9000000;
}

quality-IsQuality : IsQuality parts quality
quality-IsQuality = record {
  is_hash = hash-IsHash;
  is_bytes = hash-IsHash.1;
  index_fits = omega arith;
  k_size_fits = omega arith;
  slot_fits = omega arith;
}

abbrev report : Message parts
report = report_qualities (record { task_id = 5; qualities = quality ∷ quality ∷ [] })

report-MessageFits : MessageFits parts report
report-MessageFits = (quality-IsQuality, (quality-IsQuality, tt))

decode_message-encode_message_example :
    decode_message parts
      (reads (to_json parts report))
      (encode_message parts (reads (to_json parts report)) report)
    ≡ ok (arrives parts report)
decode_message-encode_message_example =
    decode_message-encode_message parts (reads (to_json parts report)) report parts-Documented
      report-MessageFits refl

abbrev request : Message parts
request =
    request_qualities (record {
      task_id = 5;
      challenge = hash;
      parent_target = 70000;
      parent_slot = 9;
      height = 11;
    })

third_type : msg_type_from_bytes (0 ∷ 3 ∷ []) ≡ ok 3
unfolding msg_type_from_bytes
third_type = refl

abbrev value_or : ℕ → Decoded ℕ → ℕ
value_or d (ok n) = n
value_or d (err e) = d
value_or d panics = d

other_type : (n : ℕ) → 3 ≢ n → msg_type_from_bytes (0 ∷ 3 ∷ []) ≢ ok n
other_type n h e = h (ap (value_or 0) (sym third_type ∙ e))

decode_message-returns_example :
    decode_message parts (reads (to_json parts request)) (0 ∷ 3 ∷ []) ≢ panics
decode_message-returns_example =
    decode_message-returns parts (reads (to_json parts request)) (0 ∷ 3 ∷ [])
      (other_type 2 (λ e. omega (arith, e))) (other_type 4 (λ e. omega (arith, e)))

-- A text that reads as one value where it is empty, and as another where it is not.
abbrev reads_two : Json → Json → JsonText
reads_two j k = record { print = λ _. []; parse = two }
  where
    two : Bytes → Option Json
    two [] = some j
    two (b ∷ bs) = some k

abbrev nil_quality : Json
nil_quality =
    report_qualities_json
      (record { task_id = parts.uuid_string 5; qualities = with_nil parts (quality ∷ []) })

abbrev nil_proof : Json
nil_proof = report_proof_json (record { task_id = parts.uuid_string 5; proof = none })

decode_message_nil_example :
    (decode_message parts (reads_two nil_quality nil_proof) (msg_type_to_bytes 2 ++ []) ≡ panics)
    × (decode_message parts (reads_two nil_quality nil_proof) (msg_type_to_bytes 4 ++ (0 ∷ []))
        ≡ panics)
decode_message_nil_example =
    decode_message_nil parts (reads_two nil_quality nil_proof) 5 (quality ∷ []) [] (0 ∷ [])
      parts-Documented (quality-IsQuality, tt) refl refl

-- A chain whose qualities are the sizes, and whose target is 30.
abbrev chain : Consensus
chain = record {
  hash_val_chia = λ bs slot height. bs;
  quality_of_size = λ k h. k;
  next_target = λ slot target n. 30;
}

abbrev found : ℕ → Bool → WorkSpaceQuality parts
found k fails = record {
  space_id = codes "a";
  public_key = true;
  pool_public_key = false;
  index = 3;
  k_size = k;
  quality = hash;
  failed = fails;
  plot_id = hash;
}

abbrev asked : RequestQualities parts
asked = record {
  task_id = 5;
  challenge = hash;
  parent_target = 70000;
  parent_slot = 9;
  height = 11;
}

on_request_qualities_lem_example :
    let qs = found 25 false ∷ found 32 false ∷ found 33 true ∷ [] in
    (k : ℕ) × (on_request_qualities parts chain asked (some qs) (λ s. false) (4 ∷ 3 ∷ 6 ∷ [])
      ≡ reports_from parts chain asked qs 10 k)
    × (10 + k ≤ until (4 ∷ 3 ∷ 6 ∷ []) 10)
    × (((s : ℕ) → false ≡ false) → 10 + k ≡ until (4 ∷ 3 ∷ 6 ∷ []) 10)
on_request_qualities_lem_example =
    on_request_qualities_lem parts chain asked
      (found 25 false ∷ found 32 false ∷ found 33 true ∷ []) (λ s. false) (4 ∷ 3 ∷ 6 ∷ [])
      (omega arith)
