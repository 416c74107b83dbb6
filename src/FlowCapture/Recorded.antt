-- ===== src/FlowCapture/Recorded.antt =====
-- What a flow capture (cmd/flow_capture.go) has recorded.
use network_observability_cl.Base.{
  take, ◌≡◌, refl, sym, ap, ◌∙◌, ℕ, zero, suc, ◌≤◌, false, List, [], ◌∷◌, ◌++◌, map, Bytes, length,
  All, ◌⊎◌, some,
}
use mathlib.Core.List.{append_assoc, append-nil}
use network_observability_cl.FlowCapture.{
  Settings, Session, one_if, FlowArrival, FlowCollector, record_of,
}

-- The file that the shell turns into a JSON array: each value with a comma and a line break.
abbrev pub joined_records : List Bytes → Bytes
joined_records [] = []
joined_records (value ∷ values) = record_of value ++ joined_records values

-- A session is ended once: the app is stopped at most once, and the daemon set is deleted at most once,
-- by a capture in the background only.
pub record EndsOnce (settings : Settings) (s : Session) : Type 0 where
  pub unended : s.capture_ended ≡ false → (s.app_stops ≡ 0) × (s.deletions ≡ 0)
  pub stopped_once : s.app_stops ≤ 1
  pub deleted_once : s.deletions ≤ one_if settings.is_background

-- What is missing at the end of the file: nothing, or the end of the last record, whose write failed.
abbrev pub MissingOf : List FlowArrival → Bytes → Type 0
MissingOf handled missing =
    (missing ≡ [])
    ⊎ ((before : List FlowArrival) × (a : FlowArrival) × (n : ℕ) × (front : Bytes) × (handled
          ≡ before ++ a ∷ [])
        × (a.short_write ≡ some n)
        × (front ++ missing ≡ record_of a.value))

-- The flows handled are the first of those that arrived: each was handed to the table and to the
-- database and stands in the file, in order. Bytes miss at the end of the file only where a write
-- failed.
pub record Written (arrivals : List FlowArrival) (c : FlowCollector) : Type 0 where
  pub handled : List FlowArrival
  pub left : List FlowArrival
  pub missing : Bytes
  pub arrived : arrivals ≡ handled ++ left
  pub rows : c.rows ≡ map (λ a. a.value) handled
  pub appended : c.appended ≡ c.rows
  pub file : c.file ++ missing ≡ joined_records c.rows
  pub lost : MissingOf handled missing
  pub counted : c.total_bytes ≤ length c.file
  pub complete :
      c.returned ≡ false
      → (left ≡ [])
        × (missing ≡ [])
        × (c.total_bytes ≡ length c.file)
        × All (λ a. a.stop_received ≡ false) handled

-- In the foreground a capture that goes on has not reached a limit.
pub record Recorded (settings : Settings) (arrivals : List FlowArrival) (c : FlowCollector)
    : Type 0 where
  pub written : Written arrivals c
  pub ends_once : EndsOnce settings c.session
  pub within :
      c.returned ≡ false
      → settings.is_background ≡ false
      → (c.session.capture_ended ≡ false)
        × (c.total_bytes ≤ settings.max_bytes)
        × All (λ a. a.elapsed ≤ settings.max_time) written.handled

pub joined_records-append :
    (values : List Bytes) (value : Bytes)
    → joined_records (values ++ value ∷ []) ≡ joined_records values ++ record_of value
joined_records-append [] value = append-nil (record_of value)
joined_records-append (v ∷ values) value =
    ap (λ l. record_of v ++ l) (joined_records-append values value)
    ∙ sym (append_assoc (record_of v) (joined_records values) (record_of value))

pub take-drop : (n : ℕ) (bs : Bytes) → (rest : Bytes) × (take n bs ++ rest ≡ bs)
take-drop zero bs = (bs, refl)
take-drop (suc n) [] = ([], refl)
take-drop (suc n) (b ∷ bs) = let (rest, e) = take-drop n bs in (rest, ap (◌∷◌ b) e)

-- All that arrived is recorded whole.
pub record Whole (arrivals : List FlowArrival) (c : FlowCollector) : Type 0 where
  pub rows : c.rows ≡ map (λ a. a.value) arrivals
  pub appended : c.appended ≡ c.rows
  pub file : c.file ≡ joined_records c.rows
  pub counted : c.total_bytes ≡ length c.file
  pub unstopped : All (λ a. a.stop_received ≡ false) arrivals
