-- ===== src/Fractal/Hex.antt =====
-- encoding/hex: EncodeToString and DecodeString.
use mass_net_miner.Common.{
  ℕ, ◌+◌, ◌-◌, ◌*◌, ◌/◌, ◌%◌, ◌<◌, ◌≡◌, refl, ap, ◌&&◌, [], ◌∷◌, Option, none, some, ltb, leb,
  if◌then◌else◌, arith,
}
use mass_net_miner.Common.Bytes.{Bytes}
use mass_net_miner.Fractal.Base.{Text, IsBytes}

unfoldable pub hex_digit : ℕ → ℕ
hex_digit d = if ltb d 10 then d + b'0' else d - 10 + b'a'

unfoldable pub hex_encode : Bytes → Text
unfolding hex_digit
hex_encode [] = []
hex_encode (b ∷ bs) = hex_digit (b / 16) ∷ hex_digit (b % 16) ∷ hex_encode bs

-- Both cases of a letter are read.
unfoldable pub digit_value : ℕ → Option ℕ
digit_value c =
    if leb b'0' c && leb c b'9'
    then some (c - b'0')
    else if leb b'a' c && leb c b'f'
    then some (c - b'a' + 10)
    else if leb b'A' c && leb c b'F'
    then some (c - b'A' + 10)
    else none

unfoldable pub byte_of : Option ℕ → Option ℕ → Option ℕ
byte_of none _ = none
byte_of (some h) none = none
byte_of (some h) (some l) = some (h * 16 + l)

unfoldable pub push_byte : Option ℕ → Option Bytes → Option Bytes
push_byte none _ = none
push_byte (some b) none = none
push_byte (some b) (some bs) = some (b ∷ bs)

unfoldable pub hex_decode : Text → Option Bytes
unfolding digit_value byte_of push_byte
hex_decode [] = some []
hex_decode (c ∷ []) = none
hex_decode (c ∷ d ∷ rest) = push_byte (byte_of (digit_value c) (digit_value d)) (hex_decode rest)

digit_value-hex_digit : (d : ℕ) → d < 16 → digit_value (hex_digit d) ≡ some d
unfolding digit_value hex_digit
digit_value-hex_digit d h = ground arith

pub hex_decode-hex_encode : (bs : Bytes) → IsBytes bs → hex_decode (hex_encode bs) ≡ some bs
unfolding hex_encode hex_decode
hex_decode-hex_encode [] h = refl
hex_decode-hex_encode (b ∷ bs) h =
    rw
      (
        digit_value-hex_digit (b / 16) (omega (arith, h.0)),
        digit_value-hex_digit (b % 16) (omega arith),
        hex_decode-hex_encode bs h.1,
      )
      (ap (λ x. some (x ∷ bs)) (omega arith))
