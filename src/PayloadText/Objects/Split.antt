-- ===== src/PayloadText/Objects/Split.antt =====
-- What the scan of sliceJSONObject (cmd/plaintext_format.go) leaves between the braces, and how one more
-- byte, string or pair of braces in front of it fits in.
use network_observability_cl.Base.{ℕ, zero, suc, [], ◌∷◌, ◌++◌, ◌≡◌, ◌≢◌, sym, ◌∙◌, ap, Bytes}
use mathlib.Core.List.{append_assoc}
use network_observability_cl.PayloadText.Objects.{
  Quoted, Inner, no_more, outer_byte, quoted, nested,
}

-- The bytes up to the end of what stands between the innermost braces, and those behind its brace.
pub record Split (P : Bytes → Type 0) (object : Bytes) : Type 0 where
  pub inner : Bytes
  pub rest : Bytes
  pub cut : object ≡ inner ++ b'}' ∷ rest
  pub well : Inner inner
  pub after : P rest

-- So many braces are closed, the last one at the end.
abbrev pub Levels : ℕ → Bytes → Type 0
Levels zero rest = rest ≡ []
Levels (suc d) rest = Split (Levels d) rest

abbrev pub InString : ℕ → Bytes → Type 0
InString d object =
    (q : Bytes) × (rest : Bytes) × (object ≡ q ++ rest) × Quoted q × Levels (suc d) rest

module _ (P : Bytes → Type 0) where
  pub Split-byte :
      (c : ℕ) (rest object : Bytes)
      → c ≢ b'"'
      → c ≢ b'{'
      → c ≢ b'}'
      → object ≡ c ∷ rest
      → Split P rest
      → Split P object
  Split-byte c rest object quote opens ends e s = record {
    inner = c ∷ s.inner;
    rest = s.rest;
    cut = e ∙ ap (◌∷◌ c) s.cut;
    well = outer_byte c s.inner quote opens ends s.well;
    after = s.after;
  }

  pub Split-string :
      (q rest object : Bytes) → Quoted q → object ≡ b'"' ∷ q ++ rest → Split P rest → Split P object
  Split-string q rest object k e s = record {
    inner = b'"' ∷ q ++ s.inner;
    rest = s.rest;
    cut =
        e
        ∙ ap (λ r. b'"' ∷ q ++ r) s.cut
        ∙ ap (◌∷◌ b'"') (sym (append_assoc q s.inner (b'}' ∷ s.rest)));
    well = quoted q s.inner k s.well;
    after = s.after;
  }

  pub Split-nested :
      (rest object : Bytes) → object ≡ b'{' ∷ rest → Split (Split P) rest → Split P object
  Split-nested rest object e s =
      let t = s.after in
      record {
        inner = b'{' ∷ s.inner ++ b'}' ∷ t.inner;
        rest = t.rest;
        cut =
            e
            ∙ ap (◌∷◌ b'{') s.cut
            ∙ ap (λ r. b'{' ∷ s.inner ++ b'}' ∷ r) t.cut
            ∙ ap (◌∷◌ b'{') (sym (append_assoc s.inner (b'}' ∷ t.inner) (b'}' ∷ t.rest)));
        well = nested s.inner t.inner s.well t.well;
        after = t.after;
      }

  pub Split-end : (rest object : Bytes) → object ≡ b'}' ∷ rest → P rest → Split P object
  Split-end rest object e p = record { inner = []; rest = rest; cut = e; well = no_more; after = p }
