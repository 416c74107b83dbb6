-- ===== src/Metrics/Times.antt =====
-- The range of a query to Prometheus: queryProm of cmd/metric_capture.go. Times are nanoseconds since
-- 1970, later than its first day, in a zone whose offset is in whole minutes.
use network_observability_cl.Base.{
  ◌≡◌, refl, ap, ◌∙◌, arith, ℕ, zero, suc, ◌+◌, ◌-◌, ◌*◌, ◌/◌, ◌%◌, ◌≤◌, ◌<◌, String, Option, none,
  some, get_elem?, str_eq, if◌then◌else◌,
}
use network_observability_cl.Endpoint.{◌>>=◌}
use network_observability_cl.Table.Controls.{Screen, durations}
use network_observability_cl.Table.Divisors.{Sound}
use native.Mathlib.Nat.{mul-div-le, le-div_iff_mul-le, lt-mul-div-succ, div-eq_of_lt-le}

abbrev pub minute : ℕ
minute = 60_000_000_000

-- time.ParseDuration, of the durations that can be selected.
abbrev pub parse_duration : String → Option ℕ
parse_duration text =
    if str_eq text "5m"
    then some (5 * minute)
    else if str_eq text "10m"
    then some (10 * minute)
    else if str_eq text "30m"
    then some (30 * minute)
    else if str_eq text "1h"
    then some (60 * minute)
    else if str_eq text "6h"
    then some (360 * minute)
    else none

pub record Range : Type 0 where
  pub start : ℕ
  pub end : ℕ
  pub range_step : ℕ

-- none where the division by showCount panics.
abbrev pub step_of : ℕ → ℕ → Option ℕ
step_of ran zero = none
step_of ran (suc count) = some (ran / suc count)

-- The minute that a time lies in.
abbrev pub whole_minute : ℕ → ℕ
whole_minute now = now - now % minute

unfoldable pub range_back : ℕ → ℕ → ℕ → Option Range
range_back now ran show_count = step_of ran show_count >>= λ step.
    some (record { start = whole_minute now - ran; end = whole_minute now; range_step = step })

-- none is a panic, or the end of the program where the duration does not parse.
unfoldable pub query_range : Screen → ℕ → Option Range
query_range s now = get_elem? durations s.selected_duration >>= λ text.
    parse_duration text >>= λ ran. range_back now ran s.show_count

-- How many samples Prometheus evaluates: at the start and at each step up to the end.
abbrev pub points : Range → ℕ
points r = (r.end - r.start) / r.range_step + 1

pub record Covers (show_count now : ℕ) (r : Range) : Type 0 where
  pub ended : r.end ≤ now
  pub recent : now < r.end + minute
  pub backwards : r.start + 5 * minute ≤ r.end
  pub steps : 0 < r.range_step
  pub samples : points r ≡ show_count + 1

step_samples : (ran count : ℕ) → 0 < count → count * count ≤ ran → ran / (ran / count) ≡ count
step_samples ran count h small =
    let wide : count ≤ ran / count = (le-div_iff_mul-le h).1 small in
    div-eq_of_lt-le (ran / count) (mul-div-le ran count)
      (grind (arith, lt-mul-div-succ ran h, wide))

range_back-Covers :
    (now ran count : ℕ)
    → 0 < count
    → count * count ≤ 5 * minute
    → 5 * minute ≤ ran
    → ran + minute ≤ now
    → (r : Range) × (range_back now ran count ≡ some r) × Covers count now r
unfolding range_back
range_back-Covers now ran zero h small long late = absurd (omega (arith, h))
range_back-Covers now ran (suc k) h small long late =
    let step = ran / suc k in
    let wide : suc k ≤ step = (le-div_iff_mul-le h).1 (omega (arith, small, long)) in
    let back : whole_minute now - (whole_minute now - ran) ≡ ran = omega (arith, late) in
    (
      record { start = whole_minute now - ran; end = whole_minute now; range_step = step },
      refl,
      record {
        ended = omega arith;
        recent = omega arith;
        backwards = omega (arith, long, late);
        steps = omega (arith, wide);
        samples =
            ap (λ n. n / step + 1) back
            ∙ ap (λ n. n + 1) (step_samples ran (suc k) h (omega (arith, small, long)));
      },
    )

selected :
    (i : ℕ)
    → i < 5
    → (text : String) × (ran : ℕ) × (get_elem? durations i ≡ some text)
      × (parse_duration text ≡ some ran)
      × (5 * minute ≤ ran)
      × (ran ≤ 360 * minute)
selected zero h = ("5m", 5 * minute, refl, refl, omega arith, omega arith)
selected (suc zero) h = ("10m", 10 * minute, refl, refl, omega arith, omega arith)
selected (suc (suc zero)) h = ("30m", 30 * minute, refl, refl, omega arith, omega arith)
selected (suc (suc (suc zero))) h = ("1h", 60 * minute, refl, refl, omega arith, omega arith)
selected (suc (suc (suc (suc zero)))) h = ("6h", 360 * minute, refl, refl, omega arith, omega arith)
selected (suc (suc (suc (suc (suc n))))) h = absurd (omega (arith, h))

-- On a sound screen with a duration of the list, and a count whose square does not exceed the
-- nanoseconds of five minutes, a query is made: it ends at the minute that the clock is in, begins at
-- least five minutes before, and has one sample more than the screen shows.
pub query_range-Covers :
    (s : Screen) (now : ℕ)
    → Sound s
    → s.selected_duration < 5
    → s.show_count * s.show_count ≤ 5 * minute
    → 361 * minute ≤ now
    → (r : Range) × (query_range s now ≡ some r) × Covers s.show_count now r
unfolding query_range
query_range-Covers s now sound listed small late =
    let (text, ran, at_index, parses, long, short) = selected s.selected_duration listed in
    let (r, e, covers) =
      range_back-Covers now ran s.show_count sound.shows small long (omega (arith, short, late)) in
    (r, rw (at_index, parses) e, covers)
