-- ===== src/Fractal/Returns.antt =====
-- When DecodeMessage returns.
use mass_net_miner.Common.{
  ◌≡◌, ◌≢◌, refl, ap, ◌∙◌, subst, Bool, true, false, ==_iff, [], ◌∷◌, Option, none, some, ◌==◌,
  if◌then◌else◌,
}
use mass_net_miner.Common.Bytes.{Bytes}
use mass_net_miner.Fractal.Base.{
  Decoded, DecodeError, ok, err, panics, ◌>>=◌, or_fail, unknown_type, Parts,
}
use mass_net_miner.Fractal.Json.{
  Json, null, boolean, num, other, str, arr, obj, JsonText, fields_of,
}
use mass_net_miner.Fractal.Qualities.{new_request_qualities, read_request_qualities}
use mass_net_miner.Fractal.Proofs.{new_request_proof, read_request_proof}
use mass_net_miner.Fractal.Signatures.{
  g2_from_string, new_request_signature, read_request_signature, new_report_signature,
  read_report_signature,
}
use mass_net_miner.Fractal.Message.{
  Message, MsgType, request_qualities, request_proof, request_signature, report_signature,
  msg_type_from_bytes, of_json, as_message, is_known, decode_message,
}

unfoldable Returns {ℓ} : {A : Type ℓ} → Decoded A → Type 0
Returns (ok a) = Unit {0}
Returns (err e) = Unit {0}
Returns panics = ⊥

Returns-ok {ℓ} : {A : Type ℓ} (a : A) → Returns (ok a)
unfolding Returns
Returns-ok a = tt

Returns-err {ℓ} : (A : Type ℓ) (e : DecodeError) → Returns {A = A} (err e)
unfolding Returns
Returns-err A e = tt

or_fail-Returns {ℓ} : {A : Type ℓ} (e : DecodeError) (x : Option A) → Returns (or_fail e x)
unfolding Returns
or_fail-Returns e none = tt
or_fail-Returns e (some a) = tt

then-Returns {ℓ κ} :
    {A : Type ℓ} {B : Type κ} (x : Decoded A) (f : A → Decoded B)
    → Returns x
    → ((a : A) → Returns (f a))
    → Returns (x >>= f)
unfolding Returns ◌>>=◌
then-Returns (ok a) f h g = g a
then-Returns (err e) f h g = tt
then-Returns panics f h g = elim h [ ]

then-Returns_at {ℓ κ} :
    {A : Type ℓ} {B : Type κ} (x : Decoded A) (f : A → Decoded B)
    → Returns x
    → ((a : A) → x ≡ ok a → Returns (f a))
    → Returns (x >>= f)
unfolding Returns ◌>>=◌
then-Returns_at (ok a) f h g = g a refl
then-Returns_at (err e) f h g = tt
then-Returns_at panics f h g = elim h [ ]

field-Returns {ℓ κ} :
    {A : Type ℓ} {B : Type κ} (e : DecodeError) (x : Option A) (f : A → Decoded B)
    → ((a : A) → Returns (f a))
    → Returns (or_fail e x >>= f)
field-Returns e x f g = then-Returns (or_fail e x) f (or_fail-Returns e x) g

fields_of-Returns : (j : Json) → Returns (fields_of j)
unfolding Returns
fields_of-Returns null = tt
fields_of-Returns (obj fs) = tt
fields_of-Returns (boolean b) = tt
fields_of-Returns (num n) = tt
fields_of-Returns other = tt
fields_of-Returns (str s) = tt
fields_of-Returns (arr js) = tt

Returns-at {ℓ} : {A : Type ℓ} (x : Decoded A) → Returns x → x ≢ panics
unfolding Returns
Returns-at x h e = subst Returns e h

msg_type_from_bytes-Returns : (bytes : Bytes) → Returns (msg_type_from_bytes bytes)
unfolding Returns msg_type_from_bytes
msg_type_from_bytes-Returns [] = tt
msg_type_from_bytes-Returns (h ∷ []) = tt
msg_type_from_bytes-Returns (h ∷ l ∷ rest) = tt

read_request_qualities-Returns : (j : Json) → Returns (read_request_qualities j)
unfolding read_request_qualities
read_request_qualities-Returns j = then-Returns _ _ (fields_of-Returns j) (λ x0.
    field-Returns _ _ _ (λ x1. field-Returns _ _ _ (λ x2.
      field-Returns _ _ _
        (λ x3. field-Returns _ _ _ (λ x4. field-Returns _ _ _ (λ x5. Returns-ok _))))))

read_request_proof-Returns : (j : Json) → Returns (read_request_proof j)
unfolding read_request_proof
read_request_proof-Returns j = then-Returns _ _ (fields_of-Returns j) (λ x0.
    field-Returns _ _ _ (λ x1. field-Returns _ _ _ (λ x2.
      field-Returns _ _ _
        (λ x3. field-Returns _ _ _ (λ x4. field-Returns _ _ _ (λ x5. Returns-ok _))))))

read_request_signature-Returns : (j : Json) → Returns (read_request_signature j)
unfolding read_request_signature
read_request_signature-Returns j = then-Returns _ _ (fields_of-Returns j) (λ x0.
    field-Returns _ _ _ (λ x1.
      field-Returns _ _ _
        (λ x2. field-Returns _ _ _ (λ x3. field-Returns _ _ _ (λ x4. Returns-ok _)))))

read_report_signature-Returns : (j : Json) → Returns (read_report_signature j)
unfolding read_report_signature
read_report_signature-Returns j = then-Returns _ _ (fields_of-Returns j) (λ x0.
    field-Returns _ _ _ (λ x1.
      field-Returns _ _ _
        (λ x2. field-Returns _ _ _ (λ x3. field-Returns _ _ _ (λ x4. Returns-ok _)))))

module _ (p : Parts) where
  request_qualities-Returns :
      (j : Json) → Returns (read_request_qualities j >>= new_request_qualities p)
  unfolding new_request_qualities
  request_qualities-Returns j = then-Returns _ _ (read_request_qualities-Returns j) (λ x0.
      field-Returns _ _ _
        (λ x1. field-Returns _ _ _ (λ x2. field-Returns _ _ _ (λ x3. Returns-ok _))))

  request_proof-Returns : (j : Json) → Returns (read_request_proof j >>= new_request_proof p)
  unfolding new_request_proof
  request_proof-Returns j =
      then-Returns _ _ (read_request_proof-Returns j)
        (λ x0. field-Returns _ _ _ (λ x1. field-Returns _ _ _ (λ x2. Returns-ok _)))

  request_signature-Returns :
      (j : Json) → Returns (read_request_signature j >>= new_request_signature p)
  unfolding new_request_signature
  request_signature-Returns j =
      then-Returns _ _ (read_request_signature-Returns j)
        (λ x0. field-Returns _ _ _ (λ x1. field-Returns _ _ _ (λ x2. Returns-ok _)))

  g2_from_string-Returns : (s : _) → Returns (g2_from_string p s)
  unfolding g2_from_string
  g2_from_string-Returns s = field-Returns _ _ _ (λ bytes. or_fail-Returns _ (p.new_g2 bytes))

  report_signature-Returns :
      (j : Json) → Returns (read_report_signature j >>= new_report_signature p)
  unfolding new_report_signature
  report_signature-Returns j = then-Returns _ _ (read_report_signature-Returns j) (λ x0.
      field-Returns _ _ _ (λ x1.
        field-Returns _ _ _
          (λ x2. then-Returns _ _ (g2_from_string-Returns x0.signature) (λ x3. Returns-ok _))))

  Returns-if :
      (b : Bool) (x y : Decoded (Message p))
      → (b ≡ true → Returns x)
      → (b ≡ false → Returns y)
      → Returns (if b then x else y)
  Returns-if true x y h k = h refl
  Returns-if false x y h k = k refl

  of_kind :
      {A : Type 0} (kind : A → Message p) (x : Decoded A)
      → Returns x
      → Returns (as_message p kind x)
  of_kind kind x h = then-Returns _ _ h (λ a. Returns-ok (kind a))

  of_json-Returns : (t : MsgType) (j : Json) → t ≢ 2 → t ≢ 4 → Returns (of_json p t j)
  unfolding of_json
  of_json-Returns t j h k =
      Returns-if (t == 1) _ _ (λ _. of_kind request_qualities _ (request_qualities-Returns j))
        (λ _.
          Returns-if (t == 2) _ _ (λ e. elim (h ((==_iff t 2).0 e)) [ ])
            (λ _.
              Returns-if (t == 3) _ _ (λ _. of_kind request_proof _ (request_proof-Returns j))
                (λ _.
                  Returns-if (t == 4) _ _ (λ e. elim (k ((==_iff t 4).0 e)) [ ])
                    (λ _.
                      Returns-if (t == 5) _ _
                        (λ _. of_kind request_signature _ (request_signature-Returns j))
                        (λ _.
                          Returns-if (t == 6) _ _
                            (λ _. of_kind report_signature _ (report_signature-Returns j))
                            (λ _. Returns-err _ unknown_type))))))

-- Whatever bytes arrive: where their type is not the two of a report of qualities and of a proof,
-- DecodeMessage returns a message or an error, and does not dereference nil.
pub decode_message-returns :
    (p : Parts) (text : JsonText) (bytes : Bytes)
    → msg_type_from_bytes bytes ≢ ok 2
    → msg_type_from_bytes bytes ≢ ok 4
    → decode_message p text bytes ≢ panics
unfolding decode_message
decode_message-returns p text bytes h k = Returns-at _ (
    then-Returns_at _ _ (msg_type_from_bytes-Returns bytes) (λ t e.
      Returns-if p (is_known t) _ _
        (λ _.
          field-Returns _ _ _
            (λ j. of_json-Returns p t j (λ two. h (e ∙ ap ok two)) (λ four. k (e ∙ ap ok four))))
        (λ _. Returns-err _ unknown_type)))
