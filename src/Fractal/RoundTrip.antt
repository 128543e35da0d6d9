-- ===== src/Fractal/RoundTrip.antt =====
-- A message that is encoded is decoded.
pub mod Qualities
pub mod Proofs
pub mod Signatures
use mass_net_miner.Common.{
  ℕ, ◌<◌, ◌^◌, ◌≡◌, refl, ap, Bool, true, List, [], ◌∷◌, ◌++◌, Option, none, some, map, drop, arith,
}
use mass_net_miner.Common.Bytes.{Bytes}
use mass_net_miner.Fractal.Base.{
  Decoded, ok, err, panics, or_fail, ◌>>=◌, Parts, DocumentedParts, IsHash,
}
use mass_net_miner.Fractal.Hex.{hex_encode}
use mass_net_miner.Fractal.Json.{Json, JsonText}
use mass_net_miner.Fractal.Message.{
  Message, msg_type_byte_size, request_qualities, report_qualities, request_proof, report_proof,
  request_signature, report_signature, msg_type, msg_type_to_bytes, msg_type_from_bytes, to_json,
  encode_message, is_known, as_message, of_json, decode_message,
}
use mass_net_miner.Fractal.RoundTrip.Qualities.{
  All, IsQuality, without_error, request_qualities_trip, report_qualities_trip,
}
use mass_net_miner.Fractal.RoundTrip.Proofs.{
  IsProof, as_sent, request_proof_trip, report_proof_trip,
}
use mass_net_miner.Fractal.RoundTrip.Signatures.{request_signature_trip, report_signature_trip}

-- Hashes have 32 bytes, and unsigned integers fit their widths.
abbrev pub MessageFits : (p : Parts) → Message p → Type 0
MessageFits p (request_qualities m) =
    IsHash m.challenge × (m.parent_slot < 2 ^ 64) × (m.height < 2 ^ 64)
MessageFits p (report_qualities m) = All (IsQuality p) m.qualities
MessageFits p (request_proof m) = IsHash m.challenge × (m.height < 2 ^ 64) × (m.index < 2 ^ 32)
MessageFits p (report_proof m) = IsProof p m.proof
MessageFits p (request_signature m) = IsHash m.hash × (m.height < 2 ^ 64)
MessageFits p (report_signature m) = IsHash m.hash

-- What arrives of a message: errors and ordinals are not sent.
abbrev pub arrives : (p : Parts) → Message p → Message p
arrives p (report_qualities m) =
    report_qualities (record m { qualities = map (without_error p) m.qualities })
arrives p (report_proof m) = report_proof (record m { proof = as_sent p m.proof })
arrives p (request_qualities m) = request_qualities m
arrives p (request_proof m) = request_proof m
arrives p (request_signature m) = request_signature m
arrives p (report_signature m) = report_signature m

module _ (p : Parts) (doc : DocumentedParts p hex_encode) where
  of_json-to_json :
      (m : Message p) → MessageFits p m → of_json p (msg_type p m) (to_json p m) ≡ ok (arrives p m)
  unfolding ◌>>=◌ of_json msg_type to_json
  of_json-to_json (request_qualities m) v =
      ap (as_message p request_qualities) (request_qualities_trip p doc m v.0 v.1 v.2)
  of_json-to_json (report_qualities m) v =
      ap (as_message p report_qualities) (report_qualities_trip p doc m v)
  of_json-to_json (request_proof m) v =
      ap (as_message p request_proof) (request_proof_trip p doc m v.0 v.1 v.2)
  of_json-to_json (report_proof m) v = ap (as_message p report_proof) (report_proof_trip p doc m v)
  of_json-to_json (request_signature m) v =
      ap (as_message p request_signature) (request_signature_trip p doc m v.0 v.1)
  of_json-to_json (report_signature m) v =
      ap (as_message p report_signature) (report_signature_trip p doc m v)

  msg_type-is_known : (m : Message p) → is_known (msg_type p m) ≡ true
  unfolding ◌>>=◌ is_known msg_type
  msg_type-is_known (request_qualities m) = refl
  msg_type-is_known (report_qualities m) = refl
  msg_type-is_known (request_proof m) = refl
  msg_type-is_known (report_proof m) = refl
  msg_type-is_known (request_signature m) = refl
  msg_type-is_known (report_signature m) = refl

  msg_type-lt : (m : Message p) → msg_type p m < 65536
  unfolding ◌>>=◌ msg_type
  msg_type-lt (request_qualities m) = omega arith
  msg_type-lt (report_qualities m) = omega arith
  msg_type-lt (request_proof m) = omega arith
  msg_type-lt (report_proof m) = omega arith
  msg_type-lt (request_signature m) = omega arith
  msg_type-lt (report_signature m) = omega arith

  msg_type_from_bytes-msg_type_to_bytes :
      (t : ℕ) (rest : Bytes) → t < 65536 → msg_type_from_bytes (msg_type_to_bytes t ++ rest) ≡ ok t
  unfolding ◌>>=◌ msg_type_from_bytes msg_type_to_bytes
  msg_type_from_bytes-msg_type_to_bytes t rest h = ap ok (omega arith)

drop-msg_type_to_bytes :
    (t : ℕ) (rest : Bytes) → drop msg_type_byte_size (msg_type_to_bytes t ++ rest) ≡ rest
unfolding ◌>>=◌ msg_type_to_bytes
drop-msg_type_to_bytes t rest = refl

-- Documented behaviour of the identifiers, hashes and group elements; hashes have 32 bytes, integers
-- fit their widths, and the JSON text of this message reads back as the value that was written.
-- Decoding what EncodeMessage makes of the message gives it back, of the same kind, with all that is
-- sent of it: of a quality all but its error, of a proof all but its error and its ordinal, with the
-- plot's public key as the public key.
pub decode_message-encode_message :
    (p : Parts) (text : JsonText) (m : Message p)
    → DocumentedParts p hex_encode
    → MessageFits p m
    → text.parse (text.print (to_json p m)) ≡ some (to_json p m)
    → decode_message p text (encode_message p text m) ≡ ok (arrives p m)
unfolding ◌>>=◌ decode_message encode_message
decode_message-encode_message p text m doc v e =
    let t =
      msg_type_from_bytes-msg_type_to_bytes p doc (msg_type p m) (text.print (to_json p m))
        (msg_type-lt p doc m) in
    rw
      (
        t,
        msg_type-is_known p doc m,
        drop-msg_type_to_bytes (msg_type p m) (text.print (to_json p m)),
        e,
      )
      (of_json-to_json p doc m v)
