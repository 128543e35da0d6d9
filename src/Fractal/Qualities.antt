-- ===== src/Fractal/Qualities.antt =====
-- fractal/protocol/protocol.go: RequestQualities, Quality and ReportQualities.
use mass_net_miner.Common.{ℕ, Bool, false, List, [], ◌∷◌, Option, none, some, map}
use mass_net_miner.Common.Bytes.{Bytes}
use mass_net_miner.Fractal.Base.{
  Text, codes, bad_uuid, bad_hash, bad_hex, bad_point, bad_json, Decoded, ok, err, panics, ◌>>=◌,
  or_fail, Parts,
}
use mass_net_miner.Fractal.Hex.{hex_encode, hex_decode}
use mass_net_miner.Fractal.BigInt.{big_bytes, set_bytes}
use mass_net_miner.Fractal.Json.{
  Json, null, num, str, arr, obj, Items, nil, cons, end, field, read_field, into_string, into_uint,
  fields_of,
}

-- parent_target is a difficulty, which is not negative.
pub record RequestQualities (p : Parts) : Type 0 where
  pub task_id : p.Uuid
  pub challenge : Bytes
  pub parent_target : ℕ
  pub parent_slot : ℕ
  pub height : ℕ

pub record MsgRequestQualities : Type 0 where
  pub task_id : Text
  pub challenge : Text
  pub parent_target : Text
  pub parent_slot : ℕ
  pub height : ℕ

-- engine_v2.WorkSpaceQuality with the slot. Its Error does not go over the wire: `failed` is whether
-- there is one.
pub record Quality (p : Parts) : Type 0 where
  pub space_id : Text
  pub public_key : p.G1
  pub pool_public_key : p.G1
  pub index : ℕ
  pub k_size : ℕ
  pub quality : Bytes
  pub failed : Bool
  pub plot_id : Bytes
  pub slot : ℕ

pub record MsgQuality : Type 0 where
  pub space_id : Text
  pub public_key : Text
  pub pool_public_key : Text
  pub index : ℕ
  pub k_size : ℕ
  pub quality : Text
  pub plot_id : Text
  pub slot : ℕ

pub record ReportQualities (p : Parts) : Type 0 where
  pub task_id : p.Uuid
  pub qualities : List (Quality p)

-- The elements are pointers, `none` is nil.
pub record MsgReportQualities : Type 0 where
  pub task_id : Text
  pub qualities : List (Option MsgQuality)

-- newG1ElementFromString
unfoldable pub g1_from_string : (p : Parts) → Text → Decoded p.G1
unfolding hex_decode
g1_from_string p s = do bytes ← or_fail bad_hex (hex_decode s); or_fail bad_point (p.new_g1 bytes)

unfoldable pub request_qualities_msg : (p : Parts) → RequestQualities p → MsgRequestQualities
unfolding hex_encode big_bytes
request_qualities_msg p req = record {
  task_id = p.uuid_string req.task_id;
  challenge = p.hash_string req.challenge;
  parent_target = hex_encode (big_bytes req.parent_target);
  parent_slot = req.parent_slot;
  height = req.height;
}

unfoldable pub new_request_qualities :
    (p : Parts) → MsgRequestQualities → Decoded (RequestQualities p)
unfolding hex_decode set_bytes
new_request_qualities p msg = do
  tid ← or_fail bad_uuid (p.uuid_parse msg.task_id)
  challenge ← or_fail bad_hash (p.decode_hash msg.challenge)
  target ← or_fail bad_hex (hex_decode msg.parent_target)
  ok (record {
    task_id = tid;
    challenge = challenge;
    parent_target = set_bytes target;
    parent_slot = msg.parent_slot;
    height = msg.height;
  })

unfoldable pub quality_msg : (p : Parts) → Quality p → MsgQuality
unfolding hex_encode
quality_msg p q = record {
  space_id = q.space_id;
  public_key = hex_encode (p.g1_bytes q.public_key);
  pool_public_key = hex_encode (p.g1_bytes q.pool_public_key);
  index = q.index;
  k_size = q.k_size;
  quality = hex_encode q.quality;
  plot_id = hex_encode q.plot_id;
  slot = q.slot;
}

unfoldable pub set_quality : (p : Parts) → MsgQuality → Decoded (Quality p)
unfolding g1_from_string hex_decode
set_quality p msg = do
  public_key ← g1_from_string p msg.public_key
  pool_public_key ← g1_from_string p msg.pool_public_key
  quality ← or_fail bad_hex (hex_decode msg.quality)
  plot_id ← or_fail bad_hash (p.decode_hash msg.plot_id)
  ok (record {
    space_id = msg.space_id;
    public_key = public_key;
    pool_public_key = pool_public_key;
    index = msg.index;
    k_size = msg.k_size;
    quality = quality;
    failed = false;
    plot_id = plot_id;
    slot = msg.slot;
  })

-- A nil message is dereferenced.
unfoldable pub new_quality : (p : Parts) → Option MsgQuality → Decoded (Quality p)
unfolding set_quality
new_quality p none = panics
new_quality p (some msg) = set_quality p msg

unfoldable pub report_qualities_msg : (p : Parts) → ReportQualities p → MsgReportQualities
unfolding quality_msg
report_qualities_msg p resp = record {
  task_id = p.uuid_string resp.task_id;
  qualities = map (λ q. some (quality_msg p q)) resp.qualities;
}

unfoldable pub new_qualities : (p : Parts) → List (Option MsgQuality) → Decoded (List (Quality p))
unfolding new_quality
new_qualities p [] = ok []
new_qualities p (m ∷ ms) = do q ← new_quality p m; qs ← new_qualities p ms; ok (q ∷ qs)

unfoldable pub new_report_qualities : (p : Parts) → MsgReportQualities → Decoded (ReportQualities p)
unfolding new_qualities
new_report_qualities p msg = do
  tid ← or_fail bad_uuid (p.uuid_parse msg.task_id)
  qualities ← new_qualities p msg.qualities
  ok (record { task_id = tid; qualities = qualities })

unfoldable pub request_qualities_json : MsgRequestQualities → Json
request_qualities_json m = obj (
    field (codes "task_id") (str m.task_id) (
      field (codes "challenge") (str m.challenge) (
        field (codes "parent_target") (str m.parent_target) (
          field (codes "parent_slot") (num m.parent_slot)
            (field (codes "height") (num m.height) end)))))

unfoldable pub read_request_qualities : Json → Decoded MsgRequestQualities
unfolding read_field
read_request_qualities j = do
  fs ← fields_of j
  task_id ← or_fail bad_json (read_field into_string (codes "task_id") fs [])
  challenge ← or_fail bad_json (read_field into_string (codes "challenge") fs [])
  parent_target ← or_fail bad_json (read_field into_string (codes "parent_target") fs [])
  parent_slot ← or_fail bad_json (read_field (into_uint 64) (codes "parent_slot") fs 0)
  height ← or_fail bad_json (read_field (into_uint 64) (codes "height") fs 0)
  ok (record {
    task_id = task_id;
    challenge = challenge;
    parent_target = parent_target;
    parent_slot = parent_slot;
    height = height;
  })

unfoldable pub quality_json : MsgQuality → Json
quality_json m = obj (
    field (codes "space_id") (str m.space_id) (
      field (codes "public_key") (str m.public_key) (
        field (codes "pool_public_key") (str m.pool_public_key) (
          field (codes "index") (num m.index) (
            field (codes "k_size") (num m.k_size) (
              field (codes "quality") (str m.quality) (
                field (codes "plot_id") (str m.plot_id)
                  (field (codes "slot") (num m.slot) end))))))))

unfoldable pub read_quality : Json → Decoded MsgQuality
unfolding read_field
read_quality j = do
  fs ← fields_of j
  space_id ← or_fail bad_json (read_field into_string (codes "space_id") fs [])
  public_key ← or_fail bad_json (read_field into_string (codes "public_key") fs [])
  pool_public_key ← or_fail bad_json (read_field into_string (codes "pool_public_key") fs [])
  index ← or_fail bad_json (read_field (into_uint 32) (codes "index") fs 0)
  k_size ← or_fail bad_json (read_field (into_uint 8) (codes "k_size") fs 0)
  quality ← or_fail bad_json (read_field into_string (codes "quality") fs [])
  plot_id ← or_fail bad_json (read_field into_string (codes "plot_id") fs [])
  slot ← or_fail bad_json (read_field (into_uint 64) (codes "slot") fs 0)
  ok (record {
    space_id = space_id;
    public_key = public_key;
    pool_public_key = pool_public_key;
    index = index;
    k_size = k_size;
    quality = quality;
    plot_id = plot_id;
    slot = slot;
  })

-- A nil pointer is null.
unfoldable pub qualities_items : List (Option MsgQuality) → Items
qualities_items [] = nil
qualities_items (none ∷ ms) = cons null (qualities_items ms)
qualities_items (some m ∷ ms) = cons (quality_json m) (qualities_items ms)

unfoldable pub read_element : Json → Option (Option MsgQuality)
unfolding read_quality
read_element null = some none
read_element j = elim (read_quality j) [ ok m ↦ some (some m) | err e ↦ none | panics ↦ none ]

unfoldable pub read_items : Items → Option (List (Option MsgQuality))
read_items nil = some []
read_items (cons j js) = elim (read_element j) [
  | none ↦ none
  | some m ↦ elim (read_items js) [ none ↦ none | some ms ↦ some (m ∷ ms) ]
]

unfoldable pub into_qualities : Json → List (Option MsgQuality) → Option (List (Option MsgQuality))
unfolding read_items
into_qualities null a = some []
into_qualities (arr js) a = read_items js
into_qualities _ a = none

unfoldable pub report_qualities_json : MsgReportQualities → Json
unfolding qualities_items
report_qualities_json m = obj (
    field (codes "task_id") (str m.task_id)
      (field (codes "qualities") (arr (qualities_items m.qualities)) end))

unfoldable pub read_report_qualities : Json → Decoded MsgReportQualities
unfolding read_field into_qualities
read_report_qualities j = do
  fs ← fields_of j
  task_id ← or_fail bad_json (read_field into_string (codes "task_id") fs [])
  qualities ← or_fail bad_json (read_field into_qualities (codes "qualities") fs [])
  ok (record { task_id = task_id; qualities = qualities })
