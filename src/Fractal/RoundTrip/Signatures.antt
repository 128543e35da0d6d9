-- ===== src/Fractal/RoundTrip/Signatures.antt =====
-- Signature requests and reports survive their text fields and JSON.
use mass_net_miner.Common.{◌<◌, ◌^◌, ◌≡◌, refl}
use mass_net_miner.Fractal.Base.{ok, ◌>>=◌, Parts, DocumentedParts, IsHash}
use mass_net_miner.Fractal.Hex.{hex_encode, hex_decode-hex_encode}
use mass_net_miner.Fractal.Json.{read_field, into_uint-num}
use mass_net_miner.Fractal.Signatures.{
  RequestSignature, ReportSignature, request_signature_msg, new_request_signature,
  report_signature_msg, new_report_signature, request_signature_json, read_request_signature,
  report_signature_json, read_report_signature,
}

module _ (p : Parts) (doc : DocumentedParts p hex_encode) where
  pub request_signature_trip :
      (m : RequestSignature p)
      → IsHash m.hash
      → m.height < 2 ^ 64
      → (read_request_signature (request_signature_json (request_signature_msg p m))
          >>= new_request_signature p)
        ≡ ok m
  unfolding ◌>>=◌ read_request_signature request_signature_json request_signature_msg
      new_request_signature
  request_signature_trip m h a =
      rw
        (
          into_uint-num 64 m.height 0 a,
          read_field,
          doc.uuid_parse-uuid_string m.task_id,
          doc.decode_hash-encoded m.hash h,
        )
        refl

  pub report_signature_trip :
      (r : ReportSignature p)
      → IsHash r.hash
      → (read_report_signature (report_signature_json (report_signature_msg p r))
          >>= new_report_signature p)
        ≡ ok r
  unfolding ◌>>=◌ read_report_signature report_signature_json report_signature_msg
      new_report_signature
  report_signature_trip r h =
      rw
        (
          doc.uuid_parse-uuid_string r.task_id,
          doc.decode_hash-encoded r.hash h,
          hex_decode-hex_encode (p.g2_bytes r.signature) (doc.g2_bytes-IsBytes r.signature),
          doc.new_g2-g2_bytes r.signature,
        )
        refl
