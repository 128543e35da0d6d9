-- ===== src/Fractal/RoundTrip/Proofs.antt =====
-- Proof requests and reports survive their text fields and JSON.
use mass_net_miner.Common.{false, ◌<◌, ◌^◌, ◌≡◌, refl, none, some}
use mass_net_miner.Fractal.Base.{ok, ◌>>=◌, Parts, DocumentedParts, IsBytes, IsHash}
use mass_net_miner.Fractal.Hex.{hex_encode, hex_decode-hex_encode}
use mass_net_miner.Fractal.Json.{read_field, into_uint-num}
use mass_net_miner.Fractal.Proofs.{
  RequestProof, Proof, MsgProof, ReportProof, request_proof_msg, new_request_proof, proof_msg,
  set_proof, new_proof, report_proof_msg, new_report_proof, request_proof_json, read_request_proof,
  proof_json, read_proof, proof_value, into_proof, report_proof_json, read_report_proof,
}
use mass_net_miner.Fractal.RoundTrip.Qualities.{g1_from_string-hex_encode}

-- What arrives of a proof: the plot's key stands for the public key, the ordinal is unknown.
abbrev pub as_sent : (p : Parts) → Proof p → Proof p
as_sent p q = record q { public_key = q.plot_public_key; ordinal = none; failed = false }

pub record IsProof (p : Parts) (q : Proof p) : Type 0 where
  pub is_hash : IsHash q.challenge
  pub is_bytes : IsBytes q.proof
  pub k_size_fits : q.k_size < 2 ^ 8

read_proof_lem : (m : MsgProof) → m.k_size < 2 ^ 8 → read_proof (proof_json m) ≡ ok m
unfolding ◌>>=◌ read_proof proof_json
read_proof_lem m h = rw (into_uint-num 8 m.k_size 0 h, read_field) refl

into_proof_lem :
    (m : MsgProof) → m.k_size < 2 ^ 8 → into_proof (proof_value (some m)) none ≡ some (some m)
unfolding ◌>>=◌ into_proof proof_value proof_json
into_proof_lem m h =
    let e : read_proof (proof_json m) ≡ ok m = read_proof_lem m h in rw (into_proof, e) refl

module _ (p : Parts) (doc : DocumentedParts p hex_encode) where
  set_proof_lem : (q : Proof p) → IsProof p q → set_proof p (proof_msg p q) ≡ ok (as_sent p q)
  unfolding ◌>>=◌ set_proof proof_msg
  set_proof_lem q v =
      rw
        (
          doc.decode_hash-encoded q.challenge v.is_hash,
          g1_from_string-hex_encode p doc q.pool_public_key,
          g1_from_string-hex_encode p doc q.plot_public_key,
          hex_decode-hex_encode q.proof v.is_bytes,
        )
        refl

  pub request_proof_trip :
      (m : RequestProof p)
      → IsHash m.challenge
      → m.height < 2 ^ 64
      → m.index < 2 ^ 32
      → (read_request_proof (request_proof_json (request_proof_msg p m)) >>= new_request_proof p)
        ≡ ok m
  unfolding ◌>>=◌ read_request_proof request_proof_json request_proof_msg new_request_proof
  request_proof_trip m h a b =
      rw
        (
          into_uint-num 64 m.height 0 a,
          into_uint-num 32 m.index 0 b,
          read_field,
          doc.uuid_parse-uuid_string m.task_id,
          doc.decode_hash-hash_string m.challenge h,
        )
        refl

  pub report_proof_trip :
      (r : ReportProof p)
      → IsProof p r.proof
      → (read_report_proof (report_proof_json (report_proof_msg p r)) >>= new_report_proof p)
        ≡ ok (record r { proof = as_sent p r.proof })
  unfolding ◌>>=◌ read_report_proof report_proof_json report_proof_msg new_report_proof new_proof
  report_proof_trip r v =
      rw
        (
          into_proof_lem (proof_msg p r.proof) (fits r.proof v),
          read_field,
          doc.uuid_parse-uuid_string r.task_id,
          set_proof_lem r.proof v,
        )
        refl
    where
      fits : (q : Proof p) → IsProof p q → (proof_msg p q).k_size < 2 ^ 8
      fits q w = w.k_size_fits
