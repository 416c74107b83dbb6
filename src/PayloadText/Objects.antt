-- ===== src/PayloadText/Objects.antt =====
-- A grammar of the bytes that sliceJSONObject of cmd/plaintext_format.go cuts out: strings with escaped
-- bytes, and braces in pairs outside of the strings.
pub mod Steps
pub mod Complete
pub mod Split
pub mod Sound
use network_observability_cl.Base.{ℕ, [], ◌∷◌, ◌++◌, ◌≡◌, ◌≢◌, Bytes}

-- What follows the quote that opens a string, up to the quote that closes it: a backslash takes the
-- next byte with it, whatever it is.
pub data Quoted : Bytes → Type 0 where
  end_quote : Quoted (b'"' ∷ [])
  escaped_byte : (c : ℕ) (q : Bytes) → Quoted q → Quoted (b'\\' ∷ c ∷ q)
  string_byte : (c : ℕ) (q : Bytes) → c ≢ b'"' → c ≢ b'\\' → Quoted q → Quoted (c ∷ q)

-- What stands between a pair of braces.
pub data Inner : Bytes → Type 0 where
  no_more : Inner []
  outer_byte : (c : ℕ) (xs : Bytes) → c ≢ b'"' → c ≢ b'{' → c ≢ b'}' → Inner xs → Inner (c ∷ xs)
  quoted : (q xs : Bytes) → Quoted q → Inner xs → Inner (b'"' ∷ q ++ xs)
  nested : (xs ys : Bytes) → Inner xs → Inner ys → Inner (b'{' ∷ xs ++ b'}' ∷ ys)

abbrev pub IsObject : Bytes → Type 0
IsObject object = (inner : Bytes) × (object ≡ b'{' ∷ inner ++ b'}' ∷ []) × Inner inner
