-- ===== src/FlowCapture.antt =====
-- The flow capture: the loop of startFlowCollector (cmd/flow_capture.go), and the end of a capture at
-- its limits, onLimitReached (cmd/root.go), with the loop of startMetricCollector
-- (cmd/metric_capture.go), which has the same end. Times are nanoseconds since the start of the
-- program. The go statement of parseGenericMapAndAppendFlow is the list of what it is called with, and
-- queryFlowDB, whose errors are only logged, the list of what it is given.
pub mod Recorded
pub mod Limits
pub mod Writes
pub mod Complete
use network_observability_cl.Base.{
  take, ℕ, ◌+◌, Bool, true, false, not, Option, none, some, List, [], ◌∷◌, ◌++◌, ltb, if◌then◌else◌,
  zero, suc, Bytes, codes, length,
}

-- The flags and globals that a limit reads; has_app is app != nil && errAdvancedDisplay == nil.
pub record Settings : Type 0 where
  pub is_background : Bool
  pub has_app : Bool
  pub max_bytes : ℕ
  pub max_time : ℕ

-- captureEnded, with the calls of app.Stop and of kubernetes.DeleteDaemonSet.
pub record Session : Type 0 where
  pub capture_ended : Bool
  pub app_stops : ℕ
  pub deletions : ℕ

abbrev pub new_session : Session
new_session = record { capture_ended = false; app_stops = 0; deletions = 0 }

abbrev pub one_if : Bool → ℕ
one_if true = 1
one_if false = 0

-- The session after onLimitReached, and what it returns.
unfoldable pub ended_session : Settings → Session → Session
ended_session settings s = if s.capture_ended then s else (record {
  capture_ended = true;
  app_stops = s.app_stops + one_if settings.has_app;
  deletions = s.deletions + one_if settings.is_background;
})

unfoldable pub should_exit : Settings → Session → Bool
should_exit settings s = if s.capture_ended then false else not settings.is_background

-- A flow that arrives: its JSON text, whether stopReceived is set, the bytes written where f.Write
-- fails, and the clock after the write.
pub record FlowArrival : Type 0 where
  pub value : Bytes
  pub stop_received : Bool
  pub short_write : Option ℕ
  pub elapsed : ℕ

pub record FlowCollector : Type 0 where
  pub session : Session
  pub file : Bytes
  pub rows : List Bytes
  pub appended : List Bytes
  pub total_bytes : ℕ
  pub returned : Bool

abbrev pub new_flow_collector : FlowCollector
new_flow_collector = record {
  session = new_session;
  file = [];
  rows = [];
  appended = [];
  total_bytes = 0;
  returned = false;
}

abbrev pub record_of : Bytes → Bytes
record_of value = value ++ codes ",\n"

-- A tick of startMetricCollector, with stopReceived and the clock after its queries.
pub record MetricTick : Type 0 where
  pub stop_received : Bool
  pub elapsed : ℕ

-- Its loop, with the number of ticks that queried the graphs.
pub record MetricCollector : Type 0 where
  pub session : Session
  pub queries : ℕ
  pub returned : Bool

module _ (settings : Settings) where
  abbrev pub reach_limit : FlowCollector → FlowCollector
  reach_limit c = record c {
    session = ended_session settings c.session;
    returned = should_exit settings c.session;
  }

  unfoldable pub check_bytes : FlowCollector → FlowCollector
  check_bytes c = if ltb settings.max_bytes c.total_bytes then reach_limit c else c

  unfoldable pub check_time : ℕ → FlowCollector → FlowCollector
  check_time elapsed c =
      if c.returned then c else if ltb settings.max_time elapsed then reach_limit c else c

  abbrev pub hand_over : Bytes → FlowCollector → FlowCollector
  hand_over value c = record c { appended = c.appended ++ value ∷ []; rows = c.rows ++ value ∷ [] }

  abbrev pub write_whole : Bytes → FlowCollector → FlowCollector
  write_whole bytes c = record c {
    file = c.file ++ bytes;
    total_bytes = c.total_bytes + length bytes;
  }

  unfoldable pub write_flow : FlowArrival → Option ℕ → FlowCollector → FlowCollector
  write_flow a (some n) c = record c {
    file = c.file ++ take n (record_of a.value);
    returned = true;
  }
  write_flow a none c = check_time a.elapsed (check_bytes (write_whole (record_of a.value) c))

  -- One round of the loop.
  unfoldable pub receive_flow : FlowArrival → FlowCollector → FlowCollector
  receive_flow a c =
      if a.stop_received
      then (record c { returned = true })
      else write_flow a a.short_write (hand_over a.value c)

  -- The loop over the flows, until the channel is closed.
  unfoldable pub collect_flows : List FlowArrival → FlowCollector → FlowCollector
  collect_flows [] c = c
  collect_flows (a ∷ arrivals) c =
      if c.returned then c else collect_flows arrivals (receive_flow a c)

  unfoldable pub metric_tick : MetricTick → MetricCollector → MetricCollector
  metric_tick t c =
      if t.stop_received
      then (record c { returned = true })
      else if ltb settings.max_time t.elapsed
      then (record {
        session = ended_session settings c.session;
        queries = c.queries + 1;
        returned = should_exit settings c.session;
      })
      else (record c { queries = c.queries + 1 })
