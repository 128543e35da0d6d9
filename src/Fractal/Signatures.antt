-- ===== src/Fractal/Signatures.antt =====
-- fractal/protocol/protocol.go: RequestSignature and ReportSignature.
use mass_net_miner.Common.{ℕ, []}
use mass_net_miner.Common.Bytes.{Bytes}
use mass_net_miner.Fractal.Base.{
  Text, codes, bad_uuid, bad_hash, bad_hex, bad_point, bad_json, Decoded, ok, ◌>>=◌, or_fail, Parts,
}
use mass_net_miner.Fractal.Hex.{hex_encode, hex_decode}
use mass_net_miner.Fractal.Json.{
  Json, num, str, obj, end, field, read_field, into_string, into_uint, fields_of,
}

pub record RequestSignature (p : Parts) : Type 0 where
  pub task_id : p.Uuid
  pub height : ℕ
  pub space_id : Text
  pub hash : Bytes

pub record MsgRequestSignature : Type 0 where
  pub task_id : Text
  pub height : ℕ
  pub space_id : Text
  pub hash : Text

pub record ReportSignature (p : Parts) : Type 0 where
  pub task_id : p.Uuid
  pub space_id : Text
  pub hash : Bytes
  pub signature : p.G2

pub record MsgReportSignature : Type 0 where
  pub task_id : Text
  pub space_id : Text
  pub hash : Text
  pub signature : Text

-- newG2ElementFromString
unfoldable pub g2_from_string : (p : Parts) → Text → Decoded p.G2
unfolding hex_decode
g2_from_string p s = do bytes ← or_fail bad_hex (hex_decode s); or_fail bad_point (p.new_g2 bytes)

unfoldable pub request_signature_msg : (p : Parts) → RequestSignature p → MsgRequestSignature
unfolding hex_encode
request_signature_msg p req = record {
  task_id = p.uuid_string req.task_id;
  height = req.height;
  space_id = req.space_id;
  hash = hex_encode req.hash;
}

unfoldable pub new_request_signature :
    (p : Parts) → MsgRequestSignature → Decoded (RequestSignature p)
new_request_signature p msg = do
  tid ← or_fail bad_uuid (p.uuid_parse msg.task_id)
  hash ← or_fail bad_hash (p.decode_hash msg.hash)
  ok (record { task_id = tid; height = msg.height; space_id = msg.space_id; hash = hash })

unfoldable pub report_signature_msg : (p : Parts) → ReportSignature p → MsgReportSignature
unfolding hex_encode
report_signature_msg p resp = record {
  task_id = p.uuid_string resp.task_id;
  space_id = resp.space_id;
  hash = hex_encode resp.hash;
  signature = hex_encode (p.g2_bytes resp.signature);
}

unfoldable pub new_report_signature : (p : Parts) → MsgReportSignature → Decoded (ReportSignature p)
unfolding g2_from_string
new_report_signature p msg = do
  tid ← or_fail bad_uuid (p.uuid_parse msg.task_id)
  hash ← or_fail bad_hash (p.decode_hash msg.hash)
  sig ← g2_from_string p msg.signature
  ok (record { task_id = tid; space_id = msg.space_id; hash = hash; signature = sig })

unfoldable pub request_signature_json : MsgRequestSignature → Json
request_signature_json m = obj (
    field (codes "task_id") (str m.task_id) (
      field (codes "height") (num m.height)
        (field (codes "space_id") (str m.space_id) (field (codes "hash") (str m.hash) end))))

unfoldable pub read_request_signature : Json → Decoded MsgRequestSignature
unfolding read_field
read_request_signature j = do
  fs ← fields_of j
  task_id ← or_fail bad_json (read_field into_string (codes "task_id") fs [])
  height ← or_fail bad_json (read_field (into_uint 64) (codes "height") fs 0)
  space_id ← or_fail bad_json (read_field into_string (codes "space_id") fs [])
  hash ← or_fail bad_json (read_field into_string (codes "hash") fs [])
  ok (record { task_id = task_id; height = height; space_id = space_id; hash = hash })

unfoldable pub report_signature_json : MsgReportSignature → Json
report_signature_json m = obj (
    field (codes "task_id") (str m.task_id) (
      field (codes "space_id") (str m.space_id)
        (field (codes "hash") (str m.hash) (field (codes "signature") (str m.signature) end))))

unfoldable pub read_report_signature : Json → Decoded MsgReportSignature
unfolding read_field
read_report_signature j = do
  fs ← fields_of j
  task_id ← or_fail bad_json (read_field into_string (codes "task_id") fs [])
  space_id ← or_fail bad_json (read_field into_string (codes "space_id") fs [])
  hash ← or_fail bad_json (read_field into_string (codes "hash") fs [])
  signature ← or_fail bad_json (read_field into_string (codes "signature") fs [])
  ok (record { task_id = task_id; space_id = space_id; hash = hash; signature = signature })
