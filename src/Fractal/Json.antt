-- ===== src/Fractal/Json.antt =====
-- encoding/json, between its text and the fields of a struct: the values, the choice of a struct's
-- fields by their keys, and what a value does to a field.
use mass_net_miner.Common.{
  ℕ, ◌+◌, ◌^◌, ◌<◌, ◌≡◌, refl, lt→ltb, Bool, true, false, ◌&&◌, [], ◌∷◌, Option, none, some, ltb,
  leb, ◌==◌, if◌then◌else◌,
}
use mass_net_miner.Common.Bytes.{Bytes}
use mass_net_miner.Fractal.Base.{Text, Decoded, ok, err, bad_json}

-- A number that is no natural number, or is written with a fraction or an exponent, is `other`.
mutual
  pub data Json : Type 0 where
    null : Json
    boolean : Bool → Json
    num : ℕ → Json
    other : Json
    str : Text → Json
    arr : Items → Json
    obj : Fields → Json

  pub data Items : Type 0 where
    nil : Items
    cons : Json → Items → Items

  pub data Fields : Type 0 where
    end : Fields
    field : Text → Json → Fields → Fields

-- Keys are matched without regard to the case of ASCII letters. (The two letters beyond ASCII that
-- fold to k and s are left out.)
unfoldable pub lower : ℕ → ℕ
lower c = if leb b'A' c && leb c b'Z' then c + 32 else c

unfoldable pub same_key : Text → Text → Bool
unfolding lower
same_key [] [] = true
same_key [] (d ∷ ds) = false
same_key (c ∷ cs) [] = false
same_key (c ∷ cs) (d ∷ ds) = (lower c == lower d) && same_key cs ds

-- What each value of the key does to the field, which holds its zero value at first. `none` is an
-- UnmarshalTypeError. A key should occur once: an object or array of a key that is repeated replaces
-- the former one, and is not merged into it.
unfoldable pub read_field {ℓ} : {A : Type ℓ} → (Json → A → Option A) → Text → Fields → A → Option A
unfolding same_key
read_field into name end a = some a
read_field into name (field k v fs) a = elim (if same_key k name then into v a else some a) [
  | none ↦ none
  | some b ↦ read_field into name fs b
]

-- null leaves a field as it is.
abbrev pub into_string : Json → Text → Option Text
into_string null a = some a
into_string (str s) a = some s
into_string _ a = none

-- An unsigned integer of w bits.
unfoldable pub into_uint : ℕ → Json → ℕ → Option ℕ
into_uint w null a = some a
into_uint w (num n) a = if ltb n (2 ^ w) then some n else none
into_uint w _ a = none

pub into_uint-num : (w n a : ℕ) → n < 2 ^ w → into_uint w (num n) a ≡ some n
unfolding into_uint
into_uint-num w n a h = rw (lt→ltb n (2 ^ w) h) refl

-- A struct is read from an object, and stays as it is on null.
abbrev pub fields_of : Json → Decoded Fields
fields_of (obj fs) = ok fs
fields_of null = ok end
fields_of _ = err bad_json

-- The text of a value, and the value of a text.
pub record JsonText : Type 0 where
  pub print : Json → Bytes
  pub parse : Bytes → Option Json
