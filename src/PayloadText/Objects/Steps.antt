-- ===== src/PayloadText/Objects/Steps.antt =====
-- Single bytes of the scan of sliceJSONObject (cmd/plaintext_format.go).
use network_observability_cl.Base.{
  ◌==◌, ==_iff, ℕ, ◌+◌, ◌-◌, suc, true, false, some, [], ◌∷◌, ◌≡◌, ◌≢◌, refl, sym, ◌∙◌, ap, inl,
  inr, arith, Bytes, Bool-cases, Option-cases, some_eq,
}
use network_observability_cl.PayloadText.{Scan, scan_step, closes, object_end}

-- The scan at a depth above 0, outside of strings, in a string, and behind a backslash in a string.
pub data Mode : Type 0 where
  outside : Mode
  in_quotes : Mode
  behind_backslash : Mode

abbrev pub state_of : ℕ → Mode → Scan
state_of d outside = record { depth = suc d; in_string = false; escape = false }
state_of d in_quotes = record { depth = suc d; in_string = true; escape = false }
state_of d behind_backslash = record { depth = suc d; in_string = true; escape = true }

not_equal : (a b : ℕ) → a ≢ b → (a == b) ≡ false
not_equal a b ne = elim (Bool-cases (a == b)) [
  | inl same ↦ absurd (ne ((==_iff a b).0 same))
  | inr other ↦ other
]

pub are_equal : (a b : ℕ) → (a == b) ≡ true → a ≡ b
are_equal a b h = (==_iff a b).0 h

pub differ : (a b : ℕ) → (a == b) ≡ false → a ≢ b
differ a b h e = cc (h, (==_iff a b).1 e)

pub step_outer :
    (d c : ℕ)
    → c ≢ b'"'
    → c ≢ b'{'
    → c ≢ b'}'
    → (scan_step c (state_of d outside) ≡ state_of d outside)
      × (closes c (state_of d outside) ≡ false)
unfolding scan_step closes
step_outer d c quote opens ends =
    let a = not_equal c b'"' quote in
    let b = not_equal c b'{' opens in
    let e = not_equal c b'}' ends in (rw (a, b, e) refl, rw e refl)

pub step_string :
    (d c : ℕ) → c ≢ b'"' → c ≢ b'\\' → scan_step c (state_of d in_quotes) ≡ state_of d in_quotes
unfolding scan_step
step_string d c quote slash =
    let a = not_equal c b'"' quote in let b = not_equal c b'\\' slash in rw (b, a) refl

pub step_open : (d : ℕ) → scan_step b'{' (state_of d outside) ≡ state_of (suc d) outside
unfolding scan_step
step_open d =
    let n : suc d + 1 ≡ suc (suc d) = omega arith in
    ap (λ depth. record { depth = depth; in_string = false; escape = false }) n

pub step_close : (d : ℕ) → scan_step b'}' (state_of (suc d) outside) ≡ state_of d outside
unfolding scan_step
step_close d =
    let n : suc (suc d) - 1 ≡ suc d = omega arith in
    ap (λ depth. record { depth = depth; in_string = false; escape = false }) n

pub deeper_stays : (d : ℕ) → closes b'}' (state_of (suc d) outside) ≡ false
unfolding closes
deeper_stays d = ground arith

-- A byte that does not close the object is put in front of what the scan finds behind it.
pub object_end-later :
    (s next : Scan) (c : ℕ) (xs object : Bytes)
    → closes c s ≡ false
    → scan_step c s ≡ next
    → object_end next xs ≡ some object
    → object_end s (c ∷ xs) ≡ some (c ∷ object)
unfolding object_end
object_end-later s next c xs object going step h =
    let found : object_end (scan_step c s) xs ≡ some object = ap (λ t. object_end t xs) step ∙ h in
    rw (going, found, object_end) refl

pub object_end-here :
    (s : Scan) (c : ℕ) (xs object : Bytes)
    → closes c s ≡ true
    → object_end s (c ∷ xs) ≡ some object
    → object ≡ c ∷ []
unfolding object_end
object_end-here s c xs object now h = sym (some_eq (rw now at h))

pub object_end-behind :
    (s next : Scan) (c : ℕ) (xs object : Bytes)
    → closes c s ≡ false
    → scan_step c s ≡ next
    → object_end s (c ∷ xs) ≡ some object
    → (rest : Bytes) × (object_end next xs ≡ some rest) × (object ≡ c ∷ rest)
unfolding object_end
object_end-behind s next c xs object going step h =
    elim (Option-cases (object_end (scan_step c s) xs)) [
      | inl n ↦ cc (rw (going, n, object_end) at h)
      | inr (rest, e) ↦ (
        rest,
        ap (λ t. object_end t xs) (sym step) ∙ e,
        sym (some_eq (rw (going, e, object_end) at h)),
      )
    ]

pub string_going : (d c : ℕ) → closes c (state_of d in_quotes) ≡ false
unfolding closes
string_going d c = refl
