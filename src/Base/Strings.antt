-- ===== src/Base/Strings.antt =====
-- What the CLI uses of package strings, on texts as sequences of characters.
use Prim.Native.Nat.{ℕ, zero, suc, ◌/◌, ◌%◌}
use Prim.Native.Char.{Char, code}
use Prim.Native.String.{String}
use mathlib.Core.Bool.{Bool, ◌&&◌, ◌||◌}
use mathlib.Core.Option.{Option, none, some}
use mathlib.Core.List.{List, [], ◌∷◌}
use network_observability_cl.Base.Tests.{ltb, leb, ◌==◌, if◌then◌else◌, is_some}

-- unicode.IsSpace, on a code point.
unfoldable pub is_space : ℕ → Bool
is_space c =
    (leb 9 c && leb c 13)
    || c == 32
    || c == 0x85
    || c == 0xa0
    || c == 0x1680
    || (leb 0x2000 c && leb c 0x200a)
    || c == 0x2028
    || c == 0x2029
    || c == 0x202f
    || c == 0x205f
    || c == 0x3000

unfoldable pub trim_left : String → String
trim_left String.[] = String.[]
trim_left (String.◌∷◌ c s) = if is_space (code c) then trim_left s else String.◌∷◌ c s

-- A character in front of a trimmed tail: a space is kept only before something else.
unfoldable pub keep_last : Char → String → String
keep_last c String.[] = if is_space (code c) then String.[] else String.◌∷◌ c String.[]
keep_last c (String.◌∷◌ d s) = String.◌∷◌ c (String.◌∷◌ d s)

unfoldable pub trim_right : String → String
unfolding keep_last
trim_right String.[] = String.[]
trim_right (String.◌∷◌ c s) = keep_last c (trim_right s)

-- strings.TrimSpace.
unfoldable pub trim_space : String → String
unfolding is_space trim_left trim_right
trim_space s = trim_right (trim_left s)

-- s[:i] at the first c, the whole of s where there is none.
unfoldable pub cut_before : ℕ → String → String
cut_before c String.[] = String.[]
cut_before c (String.◌∷◌ d s) = if code d == c then String.[] else String.◌∷◌ d (cut_before c s)

-- What follows a prefix, none where the text does not begin with it: strings.HasPrefix, then
-- strings.TrimPrefix or a slice.
unfoldable pub after_prefix : String → String → Option String
after_prefix String.[] s = some s
after_prefix (String.◌∷◌ p ps) String.[] = none
after_prefix (String.◌∷◌ p ps) (String.◌∷◌ c s) =
    if code p == code c then after_prefix ps s else none

-- strings.TrimPrefix.
unfoldable pub trim_prefix : String → String → String
unfolding after_prefix
trim_prefix p s = elim (after_prefix p s) [ none ↦ s | some rest ↦ rest ]

-- One more character in front of the first part.
abbrev extend_first : Char → List String → List String
extend_first c [] = String.◌∷◌ c String.[] ∷ []
extend_first c (part ∷ parts) = String.◌∷◌ c part ∷ parts

-- strings.Split at a separator of one character.
unfoldable pub split : ℕ → String → List String
split sep String.[] = String.[] ∷ []
split sep (String.◌∷◌ c s) =
    let parts = split sep s in if code c == sep then String.[] ∷ parts else extend_first c parts

-- s + t.
unfoldable pub concat : String → String → String
concat String.[] t = t
concat (String.◌∷◌ c s) t = String.◌∷◌ c (concat s t)

-- strings.HasPrefix.
unfoldable pub has_prefix : String → String → Bool
unfolding after_prefix
has_prefix s p = is_some (after_prefix p s)

-- strings.Contains.
unfoldable pub contains : String → String → Bool
unfolding has_prefix
contains String.[] t = has_prefix String.[] t
contains (String.◌∷◌ c s) t = has_prefix (String.◌∷◌ c s) t || contains s t

-- What follows the first c, none where there is none: the second part of strings.Cut.
unfoldable pub cut_after : ℕ → String → Option String
cut_after c String.[] = none
cut_after c (String.◌∷◌ d s) = if code d == c then some s else cut_after c s

abbrev pub digit : ℕ → Char
digit zero = "0"
digit (suc zero) = "1"
digit (suc (suc zero)) = "2"
digit (suc (suc (suc zero))) = "3"
digit (suc (suc (suc (suc zero)))) = "4"
digit (suc (suc (suc (suc (suc zero))))) = "5"
digit (suc (suc (suc (suc (suc (suc zero)))))) = "6"
digit (suc (suc (suc (suc (suc (suc (suc zero))))))) = "7"
digit (suc (suc (suc (suc (suc (suc (suc (suc zero)))))))) = "8"
digit (suc (suc (suc (suc (suc (suc (suc (suc (suc n))))))))) = "9"

-- The digits of a number in front of a text: the last digit first, as many as there are.
unfoldable pub digits_before : ℕ → ℕ → String → String
digits_before zero n text = text
digits_before (suc fuel) n text =
    let written = String.◌∷◌ (digit (n % 10)) text in
    let rest = digits_before fuel (n / 10) written in if ltb n 10 then written else rest
