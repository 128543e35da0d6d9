-- ===== src/Fractal/Rejects.antt =====
-- DecodeMessage where a report has nil where it needs a message: what a remote peer may send.
use mass_net_miner.Common.{◌≡◌, refl, ap, List, [], ◌∷◌, ◌++◌, Option, none, some}
use mass_net_miner.Common.Bytes.{Bytes}
use mass_net_miner.Fractal.Base.{panics, ◌>>=◌, Parts, DocumentedParts}
use mass_net_miner.Fractal.Hex.{hex_encode}
use mass_net_miner.Fractal.Json.{JsonText, read_field}
use mass_net_miner.Fractal.Qualities.{
  Quality, MsgQuality, quality_msg, new_qualities, new_quality, new_report_qualities,
  report_qualities_json, read_report_qualities, qualities_items, read_items, read_element,
}
use mass_net_miner.Fractal.Proofs.{
  new_report_proof, new_proof, report_proof_json, read_report_proof, proof_value, into_proof,
}
use mass_net_miner.Fractal.Message.{
  msg_type_to_bytes, msg_type_from_bytes, of_json, as_message, is_known, decode_message,
}
use mass_net_miner.Fractal.RoundTrip.Qualities.{
  All, IsQuality, set_quality_lem, read_element_lem, quality_msg-MsgFits,
}

-- The messages of some qualities, and nil.
abbrev pub with_nil : (p : Parts) → List (Quality p) → List (Option MsgQuality)
with_nil p [] = none ∷ []
with_nil p (q ∷ qs) = some (quality_msg p q) ∷ with_nil p qs

module _ (p : Parts) (doc : DocumentedParts p hex_encode) where
  read_items-with_nil :
      (qs : List (Quality p))
      → All (IsQuality p) qs
      → read_items (qualities_items (with_nil p qs)) ≡ some (with_nil p qs)
  unfolding read_items qualities_items read_element
  read_items-with_nil [] a = refl
  read_items-with_nil (q ∷ qs) a =
      let fits = quality_msg-MsgFits p q a.0 in
      rw (read_items, read_element_lem (quality_msg p q) fits, read_items-with_nil qs a.1) refl

  new_qualities-with_nil :
      (qs : List (Quality p)) → All (IsQuality p) qs → new_qualities p (with_nil p qs) ≡ panics
  unfolding new_qualities new_quality ◌>>=◌
  new_qualities-with_nil [] a = refl
  new_qualities-with_nil (q ∷ qs) a =
      rw (set_quality_lem p doc q a.0, new_qualities-with_nil qs a.1) refl

  report_qualities-with_nil :
      (t : p.Uuid) (qs : List (Quality p))
      → All (IsQuality p) qs
      → (read_report_qualities (
            report_qualities_json (record { task_id = p.uuid_string t; qualities = with_nil p qs }))
          >>= new_report_qualities p)
        ≡ panics
  unfolding read_report_qualities report_qualities_json new_report_qualities ◌>>=◌
  report_qualities-with_nil t qs a =
      rw
        (
          read_items-with_nil qs a,
          read_field,
          doc.uuid_parse-uuid_string t,
          new_qualities-with_nil qs a,
        )
        refl

  report_proof-nil :
      (t : p.Uuid)
      → (read_report_proof (report_proof_json (record { task_id = p.uuid_string t; proof = none }))
          >>= new_report_proof p)
        ≡ panics
  unfolding read_report_proof report_proof_json proof_value into_proof new_report_proof new_proof
      ◌>>=◌
  report_proof-nil t = rw (read_field, doc.uuid_parse-uuid_string t) refl

-- Documented behaviour of the identifiers, hashes and group elements, and JSON text that reads as the
-- value meant. DecodeMessage dereferences nil, and does not return an error, on a report of qualities
-- in which null follows any qualities that are in order, and on a report of a proof whose proof is null.
pub decode_message_nil :
    (p : Parts) (text : JsonText) (t : p.Uuid) (qs : List (Quality p)) (report proof : Bytes)
    → DocumentedParts p hex_encode
    → All (IsQuality p) qs
    → text.parse report
      ≡ some
          (report_qualities_json (record { task_id = p.uuid_string t; qualities = with_nil p qs }))
    → text.parse proof
      ≡ some (report_proof_json (record { task_id = p.uuid_string t; proof = none }))
    → (decode_message p text (msg_type_to_bytes 2 ++ report) ≡ panics)
      × (decode_message p text (msg_type_to_bytes 4 ++ proof) ≡ panics)
unfolding decode_message msg_type_to_bytes msg_type_from_bytes is_known of_json as_message ◌>>=◌
decode_message_nil p text t qs report proof doc a e f = (
  rw (e) (ap (as_message p _) (report_qualities-with_nil p doc t qs a)),
  rw (f) (ap (as_message p _) (report_proof-nil p doc t)),
)
