-- ===== src/Fractal/Message.antt =====
-- fractal/protocol/message.go: a message with its type before its JSON text.
use mass_net_miner.Common.{
  ℕ, Bool, ◌&&◌, ◌+◌, ◌*◌, ◌/◌, ◌%◌, [], ◌∷◌, ◌++◌, ltb, ◌==◌, if◌then◌else◌, drop,
}
use mass_net_miner.Common.Bytes.{Bytes}
use mass_net_miner.Fractal.Base.{
  bad_json, short_type, unknown_type, Decoded, ok, err, ◌>>=◌, or_fail, Parts,
}
use mass_net_miner.Fractal.Json.{Json, JsonText}
use mass_net_miner.Fractal.Qualities.{
  RequestQualities, ReportQualities, request_qualities_msg, request_qualities_json,
  new_request_qualities, read_request_qualities, report_qualities_msg, report_qualities_json,
  new_report_qualities, read_report_qualities,
}
use mass_net_miner.Fractal.Proofs.{
  RequestProof, ReportProof, request_proof_msg, request_proof_json, new_request_proof,
  read_request_proof, report_proof_msg, report_proof_json, new_report_proof, read_report_proof,
}
use mass_net_miner.Fractal.Signatures.{
  RequestSignature, ReportSignature, request_signature_msg, request_signature_json,
  new_request_signature, read_request_signature, report_signature_msg, report_signature_json,
  new_report_signature, read_report_signature,
}

pub data Message (p : Parts) : Type 0 where
  request_qualities : RequestQualities p → Message p
  report_qualities : ReportQualities p → Message p
  request_proof : RequestProof p → Message p
  report_proof : ReportProof p → Message p
  request_signature : RequestSignature p → Message p
  report_signature : ReportSignature p → Message p

-- A MsgType is a uint16.
abbrev pub MsgType : Type 0
MsgType = ℕ

unfoldable pub msg_type : (p : Parts) → Message p → MsgType
msg_type p (request_qualities m) = 1
msg_type p (report_qualities m) = 2
msg_type p (request_proof m) = 3
msg_type p (report_proof m) = 4
msg_type p (request_signature m) = 5
msg_type p (report_signature m) = 6

abbrev pub msg_type_byte_size : ℕ
msg_type_byte_size = 2

-- PutUint16, the high byte first
unfoldable pub msg_type_to_bytes : MsgType → Bytes
msg_type_to_bytes t = (t / 256 % 256) ∷ (t % 256) ∷ []

unfoldable pub msg_type_from_bytes : Bytes → Decoded MsgType
msg_type_from_bytes [] = err short_type
msg_type_from_bytes (h ∷ []) = err short_type
msg_type_from_bytes (h ∷ l ∷ rest) = ok (h * 256 + l)

-- Bytes, before json.Marshal
unfoldable pub to_json : (p : Parts) → Message p → Json
unfolding request_qualities_msg request_qualities_json report_qualities_msg report_qualities_json
    request_proof_msg request_proof_json report_proof_msg report_proof_json request_signature_msg
    request_signature_json report_signature_msg report_signature_json
to_json p (request_qualities m) = request_qualities_json (request_qualities_msg p m)
to_json p (report_qualities m) = report_qualities_json (report_qualities_msg p m)
to_json p (request_proof m) = request_proof_json (request_proof_msg p m)
to_json p (report_proof m) = report_proof_json (report_proof_msg p m)
to_json p (request_signature m) = request_signature_json (request_signature_msg p m)
to_json p (report_signature m) = report_signature_json (report_signature_msg p m)

unfoldable pub encode_message : (p : Parts) → JsonText → Message p → Bytes
encode_message p text m = msg_type_to_bytes (msg_type p m) ++ text.print (to_json p m)

abbrev pub as_message :
    (p : Parts) → {A : Type 0} → (A → Message p) → Decoded A → Decoded (Message p)
as_message p kind x = x >>= λ a. ok (kind a)

-- SetBytes of an empty message of the type, behind json.Unmarshal. With an error the message is of no
-- use, and stands for none.
unfoldable pub of_json : (p : Parts) → MsgType → Json → Decoded (Message p)
unfolding read_request_qualities new_request_qualities read_report_qualities new_report_qualities
    read_request_proof new_request_proof read_report_proof new_report_proof read_request_signature
    new_request_signature read_report_signature new_report_signature
of_json p t j =
    if t == 1
    then as_message p request_qualities (read_request_qualities j >>= new_request_qualities p)
    else if t == 2
    then as_message p report_qualities (read_report_qualities j >>= new_report_qualities p)
    else if t == 3
    then as_message p request_proof (read_request_proof j >>= new_request_proof p)
    else if t == 4
    then as_message p report_proof (read_report_proof j >>= new_report_proof p)
    else if t == 5
    then as_message p request_signature (read_request_signature j >>= new_request_signature p)
    else if t == 6
    then as_message p report_signature (read_report_signature j >>= new_report_signature p)
    else err unknown_type

unfoldable pub is_known : MsgType → Bool
is_known t = ltb 0 t && ltb t 7

unfoldable pub decode_message : (p : Parts) → JsonText → Bytes → Decoded (Message p)
decode_message p text bytes = do
  t ← msg_type_from_bytes bytes
  if is_known t
      then (do j ← or_fail bad_json (text.parse (drop msg_type_byte_size bytes)); of_json p t j)
      else err unknown_type
