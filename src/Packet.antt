-- ===== src/Packet.antt =====
-- Buffered wire packets and pending plaintext records, and the constants of their correlation:
-- bufferedWirePacket, pendingPlaintext and the const block of cmd/packet_capture_wire_buffer.go.
--
-- Times and durations are nanoseconds, times since 1970. A packet or an event with no capture time of
-- its own has none there, which is the source's zero time.Time.
use network_observability_cl.Base.{ℕ, String, Bool, Option, List, Bytes}
use network_observability_cl.Record.{GenericMap}

pub record BufferedWirePacket : Type 0 where
  pub received_at : ℕ
  pub packet_time : Option ℕ
  pub generic_map : GenericMap
  pub frame : Bytes
  pub annotations : List String
  pub packet_id : Option ℕ
  pub annotated : Bool

pub record PendingPlaintext : Type 0 where
  pub received_at : ℕ
  pub event_time : Option ℕ
  pub fields : GenericMap
  pub original : GenericMap
  pub id : ℕ
  pub connection_ambiguous : Bool

-- Durations, in nanoseconds; plaintextMatchMinDelta is -match_min_lag.
abbrev pub millisecond : ℕ
millisecond = 1_000_000

abbrev pub correlation_window : ℕ
correlation_window = 30_000_000_000

abbrev pub match_max_skew : ℕ
match_max_skew = 5_000_000_000

abbrev pub match_min_lag : ℕ
match_min_lag = 2_000_000_000

abbrev pub strict_match_base : ℕ
strict_match_base = 100

abbrev pub remote_match_base : ℕ
remote_match_base = 75

abbrev pub loose_match_base : ℕ
loose_match_base = 50

abbrev pub filter_match_base : ℕ
filter_match_base = 50

abbrev pub ambiguity_margin : ℕ
ambiguity_margin = 5

abbrev pub payload_bonus : ℕ
payload_bonus = 20

abbrev pub payload_size_bonus : ℕ
payload_size_bonus = 5

abbrev pub time_bonus_max : ℕ
time_bonus_max = 10
