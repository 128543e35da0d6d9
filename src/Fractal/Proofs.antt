-- ===== src/Fractal/Proofs.antt =====
-- fractal/protocol/protocol.go: RequestProof, Proof and ReportProof.
use mass_net_miner.Common.{ℕ, Bool, false, [], Option, none, some}
use mass_net_miner.Common.Bytes.{Bytes}
use mass_net_miner.Fractal.Base.{
  Text, codes, bad_uuid, bad_hash, bad_hex, bad_json, Decoded, ok, err, panics, ◌>>=◌, or_fail,
  Parts,
}
use mass_net_miner.Fractal.Hex.{hex_encode, hex_decode}
use mass_net_miner.Fractal.Json.{
  Json, null, num, str, obj, end, field, read_field, into_string, into_uint, fields_of,
}
use mass_net_miner.Fractal.Qualities.{g1_from_string}

pub record RequestProof (p : Parts) : Type 0 where
  pub task_id : p.Uuid
  pub height : ℕ
  pub space_id : Text
  pub challenge : Bytes
  pub index : ℕ

pub record MsgRequestProof : Type 0 where
  pub task_id : Text
  pub height : ℕ
  pub space_id : Text
  pub challenge : Text
  pub index : ℕ

-- engine_v2.WorkSpaceProof with its ProofOfSpace. The ordinal `none` is UnknownOrdinal; `failed` is
-- whether there is an Error.
pub record Proof (p : Parts) : Type 0 where
  pub space_id : Text
  pub challenge : Bytes
  pub pool_public_key : p.G1
  pub plot_public_key : p.G1
  pub k_size : ℕ
  pub proof : Bytes
  pub public_key : p.G1
  pub ordinal : Option ℕ
  pub failed : Bool

pub record MsgProof : Type 0 where
  pub space_id : Text
  pub challenge : Text
  pub pool_public_key : Text
  pub plot_public_key : Text
  pub k_size : ℕ
  pub proof : Text

pub record ReportProof (p : Parts) : Type 0 where
  pub task_id : p.Uuid
  pub proof : Proof p

-- The proof is a pointer, `none` is nil.
pub record MsgReportProof : Type 0 where
  pub task_id : Text
  pub proof : Option MsgProof

unfoldable pub request_proof_msg : (p : Parts) → RequestProof p → MsgRequestProof
request_proof_msg p req = record {
  task_id = p.uuid_string req.task_id;
  height = req.height;
  space_id = req.space_id;
  challenge = p.hash_string req.challenge;
  index = req.index;
}

unfoldable pub new_request_proof : (p : Parts) → MsgRequestProof → Decoded (RequestProof p)
new_request_proof p msg = do
  tid ← or_fail bad_uuid (p.uuid_parse msg.task_id)
  challenge ← or_fail bad_hash (p.decode_hash msg.challenge)
  ok (record {
    task_id = tid;
    height = msg.height;
    space_id = msg.space_id;
    challenge = challenge;
    index = msg.index;
  })

unfoldable pub proof_msg : (p : Parts) → Proof p → MsgProof
unfolding hex_encode
proof_msg p q = record {
  space_id = q.space_id;
  challenge = hex_encode q.challenge;
  pool_public_key = hex_encode (p.g1_bytes q.pool_public_key);
  plot_public_key = hex_encode (p.g1_bytes q.plot_public_key);
  k_size = q.k_size;
  proof = hex_encode q.proof;
}

unfoldable pub set_proof : (p : Parts) → MsgProof → Decoded (Proof p)
unfolding g1_from_string hex_decode
set_proof p msg = do
  challenge ← or_fail bad_hash (p.decode_hash msg.challenge)
  pool_public_key ← g1_from_string p msg.pool_public_key
  plot_public_key ← g1_from_string p msg.plot_public_key
  proof ← or_fail bad_hex (hex_decode msg.proof)
  ok (record {
    space_id = msg.space_id;
    challenge = challenge;
    pool_public_key = pool_public_key;
    plot_public_key = plot_public_key;
    k_size = msg.k_size;
    proof = proof;
    public_key = plot_public_key;
    ordinal = none;
    failed = false;
  })

-- A nil message is dereferenced.
unfoldable pub new_proof : (p : Parts) → Option MsgProof → Decoded (Proof p)
unfolding set_proof
new_proof p none = panics
new_proof p (some msg) = set_proof p msg

unfoldable pub report_proof_msg : (p : Parts) → ReportProof p → MsgReportProof
unfolding proof_msg
report_proof_msg p resp = record {
  task_id = p.uuid_string resp.task_id;
  proof = some (proof_msg p resp.proof);
}

unfoldable pub new_report_proof : (p : Parts) → MsgReportProof → Decoded (ReportProof p)
unfolding new_proof
new_report_proof p msg = do
  tid ← or_fail bad_uuid (p.uuid_parse msg.task_id)
  proof ← new_proof p msg.proof
  ok (record { task_id = tid; proof = proof })

unfoldable pub request_proof_json : MsgRequestProof → Json
request_proof_json m = obj (
    field (codes "task_id") (str m.task_id) (
      field (codes "height") (num m.height) (
        field (codes "space_id") (str m.space_id)
          (field (codes "challenge") (str m.challenge) (field (codes "index") (num m.index) end)))))

unfoldable pub read_request_proof : Json → Decoded MsgRequestProof
unfolding read_field
read_request_proof j = do
  fs ← fields_of j
  task_id ← or_fail bad_json (read_field into_string (codes "task_id") fs [])
  height ← or_fail bad_json (read_field (into_uint 64) (codes "height") fs 0)
  space_id ← or_fail bad_json (read_field into_string (codes "space_id") fs [])
  challenge ← or_fail bad_json (read_field into_string (codes "challenge") fs [])
  index ← or_fail bad_json (read_field (into_uint 32) (codes "index") fs 0)
  ok (record {
    task_id = task_id;
    height = height;
    space_id = space_id;
    challenge = challenge;
    index = index;
  })

unfoldable pub proof_json : MsgProof → Json
proof_json m = obj (
    field (codes "space_id") (str m.space_id) (
      field (codes "challenge") (str m.challenge) (
        field (codes "pool_public_key") (str m.pool_public_key) (
          field (codes "plot_public_key") (str m.plot_public_key)
            (field (codes "k_size") (num m.k_size) (field (codes "proof") (str m.proof) end))))))

unfoldable pub read_proof : Json → Decoded MsgProof
unfolding read_field
read_proof j = do
  fs ← fields_of j
  space_id ← or_fail bad_json (read_field into_string (codes "space_id") fs [])
  challenge ← or_fail bad_json (read_field into_string (codes "challenge") fs [])
  pool_public_key ← or_fail bad_json (read_field into_string (codes "pool_public_key") fs [])
  plot_public_key ← or_fail bad_json (read_field into_string (codes "plot_public_key") fs [])
  k_size ← or_fail bad_json (read_field (into_uint 8) (codes "k_size") fs 0)
  proof ← or_fail bad_json (read_field into_string (codes "proof") fs [])
  ok (record {
    space_id = space_id;
    challenge = challenge;
    pool_public_key = pool_public_key;
    plot_public_key = plot_public_key;
    k_size = k_size;
    proof = proof;
  })

unfoldable pub proof_value : Option MsgProof → Json
unfolding proof_json
proof_value none = null
proof_value (some m) = proof_json m

unfoldable pub into_proof : Json → Option MsgProof → Option (Option MsgProof)
unfolding read_proof
into_proof null a = some none
into_proof j a = elim (read_proof j) [ ok m ↦ some (some m) | err e ↦ none | panics ↦ none ]

unfoldable pub report_proof_json : MsgReportProof → Json
unfolding proof_value
report_proof_json m =
    obj (field (codes "task_id") (str m.task_id) (field (codes "proof") (proof_value m.proof) end))

unfoldable pub read_report_proof : Json → Decoded MsgReportProof
unfolding read_field into_proof
read_report_proof j = do
  fs ← fields_of j
  task_id ← or_fail bad_json (read_field into_string (codes "task_id") fs [])
  proof ← or_fail bad_json (read_field into_proof (codes "proof") fs none)
  ok (record { task_id = task_id; proof = proof })
