-- ===== src/TlsProfile/Decimal.antt =====
-- The decimal numbers that uint16SliceToString of internal/pkg/tlsresolver/config.go joins are read
-- back.
use Prim.Native.Char.{Char, code}
use network_observability_cl.Base.{
  ◌≡◌, refl, sym, ap, subst, ◌∙◌, arith, ℕ, ◌+◌, ◌-◌, ◌*◌, ◌/◌, ◌%◌, ◌^◌, ◌<◌, ◌≤◌, zero, suc,
  String, true, false, none, some, List, [], ◌∷◌, map, All, ltb, leb, ◌==◌, Bool-cases, inl, inr,
  if_true, if_false, if_both, ◌&&◌, ltb→lt,
}
use network_observability_cl.Base.Strings.{concat, split, digit, digits_before}
use network_observability_cl.Endpoint.Port.{is_digit, parse_digits, parse_uint16}
use network_observability_cl.TlsProfile.EnvMap.{format_uint16, uint16_slice_to_string}

code-digit : (d : ℕ) → d < 10 → code (digit d) ≡ 48 + d
code-digit zero h = omega arith
code-digit (suc zero) h = omega arith
code-digit (suc (suc zero)) h = omega arith
code-digit (suc (suc (suc zero))) h = omega arith
code-digit (suc (suc (suc (suc zero)))) h = omega arith
code-digit (suc (suc (suc (suc (suc zero))))) h = omega arith
code-digit (suc (suc (suc (suc (suc (suc zero)))))) h = omega arith
code-digit (suc (suc (suc (suc (suc (suc (suc zero))))))) h = omega arith
code-digit (suc (suc (suc (suc (suc (suc (suc (suc zero)))))))) h = omega arith
code-digit (suc (suc (suc (suc (suc (suc (suc (suc (suc zero))))))))) h = omega arith
code-digit (suc (suc (suc (suc (suc (suc (suc (suc (suc (suc n)))))))))) h =
    absurd (omega (arith, h))

-- One digit is read.
parse_digit :
    (m d : ℕ) (s : String)
    → d < 10
    → m * 10 + d ≤ 65535
    → parse_digits m (String.◌∷◌ (digit d) s) ≡ parse_digits (m * 10 + d) s
unfolding parse_digits
parse_digit m d s small fits =
    let value : code (digit d) - 48 ≡ d = omega (arith, code-digit d small) in
    let fits_in : (is_digit (code (digit d)) && leb (m * 10 + (code (digit d) - 48)) 65535) ≡ true =
      ground (arith, code-digit d small) in
    if_true (parse_digits (m * 10 + (code (digit d) - 48)) s) none fits_in
    ∙ ap (λ k. parse_digits (m * 10 + k) s) value

parse_digits-digits_before :
    (fuel n : ℕ) (text : String)
    → n < 10 ^ fuel
    → n ≤ 65535
    → parse_digits 0 (digits_before fuel n text) ≡ parse_digits n text
unfolding digits_before
parse_digits-digits_before zero n text small fits =
    ap (λ k. parse_digits k text) (omega (arith, small))
parse_digits-digits_before (suc fuel) n text small fits =
    let last = String.◌∷◌ (digit (n % 10)) text in
    let rest = digits_before fuel (n / 10) last in
    elim (Bool-cases (ltb n 10)) [
      | inl one ↦
          let below : n < 10 = ltb→lt n 10 one in
          ap (parse_digits 0) (if_true last rest one)
          ∙ parse_digit 0 (n % 10) text (omega (arith, below)) (omega (arith, below))
          ∙ ap (λ k. parse_digits k text) (omega (arith, below))
      | inr more ↦
          let tenth : n / 10 < 10 ^ fuel = omega (arith, small) in
          ap (parse_digits 0) (if_false last rest more)
          ∙ parse_digits-digits_before fuel (n / 10) last tenth (omega (arith, fits))
          ∙ parse_digit (n / 10) (n % 10) text (omega arith) (omega (arith, fits))
          ∙ ap (λ k. parse_digits k text) (omega arith)
    ]

-- A text without a character.
Without : ℕ → String → Type 0
Without sep String.[] = Unit
Without sep (String.◌∷◌ c s) = (code c == sep ≡ false) × Without sep s

Without-digits_before :
    (fuel n : ℕ) (text : String) → Without 44 text → Without 44 (digits_before fuel n text)
unfolding digits_before Without
Without-digits_before zero n text h = h
Without-digits_before (suc fuel) n text h =
    let digit_here : Without 44 (String.◌∷◌ (digit (n % 10)) text) =
      (ground (arith, code-digit (n % 10) (omega arith)), h) in
    if_both (Without 44) (ltb n 10) (String.◌∷◌ (digit (n % 10)) text)
      (digits_before fuel (n / 10) (String.◌∷◌ (digit (n % 10)) text)) digit_here
      (Without-digits_before fuel (n / 10) (String.◌∷◌ (digit (n % 10)) text) digit_here)

split-Without : (s : String) → Without 44 s → split 44 s ≡ s ∷ []
unfolding split Without
split-Without String.[] h = refl
split-Without (String.◌∷◌ c s) h = rw (h.0, split-Without s h.1) refl

split-concat :
    (s t : String) → Without 44 s → split 44 (concat s (String.◌∷◌ "," t)) ≡ s ∷ split 44 t
unfolding split concat Without
split-concat String.[] t h = refl
split-concat (String.◌∷◌ c s) t h = rw (h.0, split-concat s t h.1) refl

abbrev pub Uint16 : ℕ → Type 0
Uint16 n = n ≤ 65535

NonEmpty : String → Type 0
NonEmpty s = (c : Char) × (t : String) × (s ≡ String.◌∷◌ c t)

NonEmpty-digits_before :
    (fuel n : ℕ) (c : Char) (text : String) → NonEmpty (digits_before fuel n (String.◌∷◌ c text))
unfolding digits_before NonEmpty
NonEmpty-digits_before zero n c text = (c, text, refl)
NonEmpty-digits_before (suc fuel) n c text =
    let last = String.◌∷◌ (digit (n % 10)) (String.◌∷◌ c text) in
    if_both NonEmpty (ltb n 10) last (digits_before fuel (n / 10) last)
      (digit (n % 10), String.◌∷◌ c text, refl)
      (NonEmpty-digits_before fuel (n / 10) (digit (n % 10)) (String.◌∷◌ c text))

parse_uint16-NonEmpty : (s : String) → NonEmpty s → parse_uint16 s ≡ parse_digits 0 s
unfolding NonEmpty parse_uint16
parse_uint16-NonEmpty s (c, t, e) = subst (λ x. parse_uint16 x ≡ parse_digits 0 x) (sym e) refl

format-NonEmpty : (n : ℕ) → NonEmpty (digits_before 5 n String.[])
unfolding NonEmpty digits_before
format-NonEmpty n =
    let last = String.◌∷◌ (digit (n % 10)) String.[] in
    if_both NonEmpty (ltb n 10) last (digits_before 4 (n / 10) last)
      (digit (n % 10), String.[], refl)
      (NonEmpty-digits_before 4 (n / 10) (digit (n % 10)) String.[])

parse_end : (n : ℕ) → parse_digits n String.[] ≡ some n
unfolding parse_digits
parse_end n = refl

format_uint16-digits : (n : ℕ) → format_uint16 n ≡ digits_before 5 n String.[]
unfolding format_uint16
format_uint16-digits n = refl

pub parse_uint16-format_uint16 : (n : ℕ) → Uint16 n → parse_uint16 (format_uint16 n) ≡ some n
parse_uint16-format_uint16 n h =
    let text = digits_before 5 n String.[] in
    ap parse_uint16 (format_uint16-digits n)
    ∙ parse_uint16-NonEmpty text (format-NonEmpty n)
    ∙ parse_digits-digits_before 5 n String.[] (omega (arith, h)) h
    ∙ parse_end n

Without-format_uint16 : (n : ℕ) → Without 44 (format_uint16 n)
unfolding Without
Without-format_uint16 n =
    subst (Without 44) (sym (format_uint16-digits n)) (Without-digits_before 5 n String.[] tt)

-- Ids joined by commas are read back.
pub ids_read :
    (id : ℕ) (ids : List ℕ)
    → All Uint16 (id ∷ ids)
    → map parse_uint16 (split 44 (uint16_slice_to_string (id ∷ ids))) ≡ map some (id ∷ ids)
unfolding uint16_slice_to_string
ids_read id [] h =
    ap (map parse_uint16) (split-Without (format_uint16 id) (Without-format_uint16 id))
    ∙ ap (λ o. o ∷ []) (parse_uint16-format_uint16 id h.0)
ids_read id (next ∷ ids) h =
    ap (map parse_uint16) (
      split-concat (format_uint16 id) (uint16_slice_to_string (next ∷ ids))
        (Without-format_uint16 id))
    ∙ ap (λ o. o ∷ map parse_uint16 (split 44 (uint16_slice_to_string (next ∷ ids))))
        (parse_uint16-format_uint16 id h.0)
    ∙ ap (λ os. some id ∷ os) (ids_read next ids h.1)
