-- ===== src/Fractal/RoundTrip/Qualities.antt =====
-- A message of each kind survives its text fields, and the text fields survive JSON.
use mass_net_miner.Common.{false, ◌<◌, ◌^◌, ◌≡◌, refl, List, [], ◌∷◌, Option, some, map}
use mass_net_miner.Fractal.Base.{ok, ◌>>=◌, Parts, DocumentedParts, IsBytes, IsHash}
use mass_net_miner.Fractal.Hex.{hex_encode, hex_decode-hex_encode}
use mass_net_miner.Fractal.BigInt.{big_bytes, big_bytes-IsBytes, set_bytes-big_bytes}
use mass_net_miner.Fractal.Json.{read_field, into_uint-num}
use mass_net_miner.Fractal.Qualities.{
  g1_from_string, RequestQualities, MsgRequestQualities, Quality, MsgQuality, ReportQualities,
  request_qualities_msg, new_request_qualities, quality_msg, set_quality, report_qualities_msg,
  new_qualities, new_report_qualities, request_qualities_json, read_request_qualities, quality_json,
  read_quality, qualities_items, read_element, read_items, new_quality, report_qualities_json,
  read_report_qualities,
}

-- The error of a quality is not sent.
abbrev pub without_error : (p : Parts) → Quality p → Quality p
without_error p q = record q { failed = false }

pub record IsQuality (p : Parts) (q : Quality p) : Type 0 where
  pub is_hash : IsHash q.plot_id
  pub is_bytes : IsBytes q.quality
  pub index_fits : q.index < 2 ^ 32
  pub k_size_fits : q.k_size < 2 ^ 8
  pub slot_fits : q.slot < 2 ^ 64

module _ (p : Parts) (doc : DocumentedParts p hex_encode) where
  pub g1_from_string-hex_encode : (g : p.G1) → g1_from_string p (hex_encode (p.g1_bytes g)) ≡ ok g
  unfolding ◌>>=◌ g1_from_string
  g1_from_string-hex_encode g =
      rw (hex_decode-hex_encode (p.g1_bytes g) (doc.g1_bytes-IsBytes g), doc.new_g1-g1_bytes g) refl

  new_request_qualities_lem :
      (m : RequestQualities p)
      → IsHash m.challenge
      → new_request_qualities p (request_qualities_msg p m) ≡ ok m
  unfolding ◌>>=◌ new_request_qualities request_qualities_msg
  new_request_qualities_lem m h =
      rw
        (
          doc.uuid_parse-uuid_string m.task_id,
          doc.decode_hash-hash_string m.challenge h,
          hex_decode-hex_encode (big_bytes m.parent_target) (big_bytes-IsBytes m.parent_target),
          set_bytes-big_bytes m.parent_target,
        )
        refl

  pub set_quality_lem :
      (q : Quality p) → IsQuality p q → set_quality p (quality_msg p q) ≡ ok (without_error p q)
  unfolding ◌>>=◌ set_quality quality_msg
  set_quality_lem q v =
      rw
        (
          g1_from_string-hex_encode q.public_key,
          g1_from_string-hex_encode q.pool_public_key,
          hex_decode-hex_encode q.quality v.is_bytes,
          doc.decode_hash-encoded q.plot_id v.is_hash,
        )
        refl

read_request_qualities_lem :
    (m : MsgRequestQualities)
    → m.parent_slot < 2 ^ 64
    → m.height < 2 ^ 64
    → read_request_qualities (request_qualities_json m) ≡ ok m
unfolding ◌>>=◌ read_request_qualities request_qualities_json
read_request_qualities_lem m a b =
    rw (into_uint-num 64 m.parent_slot 0 a, into_uint-num 64 m.height 0 b, read_field) refl

pub record MsgFits (m : MsgQuality) : Type 0 where
  pub index_fits : m.index < 2 ^ 32
  pub k_size_fits : m.k_size < 2 ^ 8
  pub slot_fits : m.slot < 2 ^ 64

read_quality_lem : (m : MsgQuality) → MsgFits m → read_quality (quality_json m) ≡ ok m
unfolding ◌>>=◌ read_quality quality_json
read_quality_lem m v =
    rw
      (
        into_uint-num 32 m.index 0 v.index_fits,
        into_uint-num 8 m.k_size 0 v.k_size_fits,
        into_uint-num 64 m.slot 0 v.slot_fits,
        read_field,
      )
      refl

pub read_element_lem : (m : MsgQuality) → MsgFits m → read_element (quality_json m) ≡ some (some m)
unfolding ◌>>=◌ read_element quality_json
read_element_lem m v =
    let e : read_quality (quality_json m) ≡ ok m = read_quality_lem m v in rw (read_element, e) refl

pub quality_msg-MsgFits : (p : Parts) (q : Quality p) → IsQuality p q → MsgFits (quality_msg p q)
unfolding ◌>>=◌ quality_msg
quality_msg-MsgFits p q v = record {
  index_fits = v.index_fits;
  k_size_fits = v.k_size_fits;
  slot_fits = v.slot_fits;
}

abbrev pub All {ℓ} : {A : Type ℓ} → (A → Type 0) → List A → Type 0
All P [] = Unit {0}
All P (x ∷ xs) = P x × All P xs

module _ (p : Parts) (doc : DocumentedParts p hex_encode) where
  abbrev msgs : List (Quality p) → List (Option MsgQuality)
  msgs = map (λ q. some (quality_msg p q))

  read_items_lem :
      (qs : List (Quality p))
      → All (IsQuality p) qs
      → read_items (qualities_items (msgs qs)) ≡ some (msgs qs)
  unfolding ◌>>=◌ read_items qualities_items
  read_items_lem [] a = refl
  read_items_lem (q ∷ qs) a =
      let fits = quality_msg-MsgFits p q a.0 in
      rw (read_items, read_element_lem (quality_msg p q) fits, read_items_lem qs a.1) refl

  new_qualities_lem :
      (qs : List (Quality p))
      → All (IsQuality p) qs
      → new_qualities p (msgs qs) ≡ ok (map (without_error p) qs)
  unfolding ◌>>=◌ new_qualities new_quality
  new_qualities_lem [] a = refl
  new_qualities_lem (q ∷ qs) a = rw (set_quality_lem p doc q a.0, new_qualities_lem qs a.1) refl

-- The messages through their text fields and through JSON.
module _ (p : Parts) (doc : DocumentedParts p hex_encode) where
  pub request_qualities_trip :
      (m : RequestQualities p)
      → IsHash m.challenge
      → m.parent_slot < 2 ^ 64
      → m.height < 2 ^ 64
      → (read_request_qualities (request_qualities_json (request_qualities_msg p m))
          >>= new_request_qualities p)
        ≡ ok m
  unfolding ◌>>=◌ request_qualities_msg
  request_qualities_trip m h a b =
      let e = read_request_qualities_lem (request_qualities_msg p m) a b in
      rw (e, ◌>>=◌) (new_request_qualities_lem p doc m h)

  pub report_qualities_trip :
      (r : ReportQualities p)
      → All (IsQuality p) r.qualities
      → (read_report_qualities (report_qualities_json (report_qualities_msg p r))
          >>= new_report_qualities p)
        ≡ ok (record r { qualities = map (without_error p) r.qualities })
  unfolding ◌>>=◌ read_report_qualities report_qualities_json report_qualities_msg
      new_report_qualities
  report_qualities_trip r a =
      rw
        (
          read_items_lem p doc r.qualities a,
          read_field,
          doc.uuid_parse-uuid_string r.task_id,
          new_qualities_lem p doc r.qualities a,
        )
        refl
