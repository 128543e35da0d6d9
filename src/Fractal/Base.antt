-- ===== src/Fractal/Base.antt =====
-- What decoding gives, and the types of other repositories that the messages carry.
use Prim.Native.Char.{code}
use Prim.Native.String.{String}
use mass_net_miner.Common.{ℕ, ◌<◌, ◌≡◌, List, [], ◌∷◌, Option, none, some, length}
use mass_net_miner.Common.Bytes.{Bytes}

-- A Go string, by its bytes.
abbrev pub Text : Type 0
Text = List ℕ

abbrev pub codes : String → Text
codes String.[] = []
codes (String.◌∷◌ c s) = code c ∷ codes s

pub data DecodeError : Type 0 where
  bad_uuid bad_hash bad_hex bad_point bad_json short_type unknown_type : DecodeError

-- A function returns, returns an error, or dereferences nil.
pub data Decoded {ℓ} (A : Type ℓ) : Type ℓ where
  ok : A → Decoded A
  err : DecodeError → Decoded A
  panics : Decoded A

infixl 5 ◌>>=◌
unfoldable pub ◌>>=◌ {ℓ κ} : {A : Type ℓ} {B : Type κ} → Decoded A → (A → Decoded B) → Decoded B
ok a >>= f = f a
err e >>= f = err e
panics >>= f = panics

abbrev pub or_fail {ℓ} : {A : Type ℓ} → DecodeError → Option A → Decoded A
or_fail e none = err e
or_fail e (some a) = ok a

-- The values of a list are bytes.
abbrev pub IsBytes : Bytes → Type 0
IsBytes [] = Unit {0}
IsBytes (b ∷ bs) = (b < 256) × IsBytes bs

abbrev pub IsHash : Bytes → Type 0
IsHash h = (length h ≡ 32) × IsBytes h

-- uuid.UUID, chiapos's group elements, and the texts of identifiers and hashes.
pub record Parts : Type 1 where
  pub Uuid : Type 0
  pub G1 : Type 0
  pub G2 : Type 0
  pub uuid_string : Uuid → Text
  pub uuid_parse : Text → Option Uuid
  pub hash_string : Bytes → Text
  pub decode_hash : Text → Option Bytes
  pub g1_bytes : G1 → Bytes
  pub new_g1 : Bytes → Option G1
  pub g2_bytes : G2 → Bytes
  pub new_g2 : Bytes → Option G2

-- What their documentation says of their round trips.
pub record DocumentedParts (p : Parts) (encoded : Bytes → Text) : Type 0 where
  pub uuid_parse-uuid_string : (t : p.Uuid) → p.uuid_parse (p.uuid_string t) ≡ some t
  pub decode_hash-hash_string : (h : Bytes) → IsHash h → p.decode_hash (p.hash_string h) ≡ some h
  pub decode_hash-encoded : (h : Bytes) → IsHash h → p.decode_hash (encoded h) ≡ some h
  pub new_g1-g1_bytes : (g : p.G1) → p.new_g1 (p.g1_bytes g) ≡ some g
  pub g1_bytes-IsBytes : (g : p.G1) → IsBytes (p.g1_bytes g)
  pub new_g2-g2_bytes : (g : p.G2) → p.new_g2 (p.g2_bytes g) ≡ some g
  pub g2_bytes-IsBytes : (g : p.G2) → IsBytes (p.g2_bytes g)
