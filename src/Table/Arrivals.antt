-- ===== src/Table/Arrivals.antt =====
-- What the buffers of AppendFlow in cmd/flow_display.go promise: of all the entries that arrived
-- while the table was not paused, each buffer holds the latest.
use network_observability_cl.Base.{
  ℕ, ◌+◌, ◌%◌, ◌^◌, String, Bool, true, false, Option, some, List, [], ◌∷◌, count, if◌then◌else◌,
  ◌≡◌,
}
use network_observability_cl.Base.Latest.{Latest}
use network_observability_cl.Endpoint.{◌>>=◌}
use network_observability_cl.Record.{GenericMap}
use network_observability_cl.Table.Order.{Capture, Host, comes_before, untimed}
use network_observability_cl.Table.Buffers.{
  Table, Buffer, flow_rows, wire_rows, plaintext_rows, limit_of, rows_of, buffer_of, splits,
  numbered, append_flow,
}

-- An arrival, or a change of the pause.
pub data Event : Type 0 where
  arrives : GenericMap → Event
  pauses : Bool → Event

-- All that arrived, the newest first, by the buffer it goes to.
pub record Arrivals : Type 0 where
  pub index : ℕ
  pub held : Bool
  pub log : Buffer → List GenericMap

abbrev pub no_arrivals : Arrivals
no_arrivals = record { index = 0; held = false; log = λ b. [] }

abbrev pub same_buffer : Buffer → Buffer → Bool
same_buffer flow_rows flow_rows = true
same_buffer wire_rows wire_rows = true
same_buffer plaintext_rows plaintext_rows = true
same_buffer _ _ = false

module _ (host : Host) (kind : Capture) (options : String) where
  abbrev pub add : GenericMap → Buffer → Arrivals → Arrivals
  add row buffer s = record {
    index = (s.index + 1) % 2 ^ 64;
    held = s.held;
    log = λ b. if same_buffer b buffer then row ∷ s.log b else s.log b;
  }

  unfoldable pub observe : Event → Arrivals → Arrivals
  observe (arrives m) s =
      if s.held
      then s
      else (let row = numbered s.index m in add row (buffer_of (splits host kind options) row) s)
  observe (pauses b) s = record s { held = b }

  unfoldable pub table_step : Event → Table → Option Table
  table_step (arrives m) t = append_flow host kind options m t
  table_step (pauses b) t = some (record t { paused = b })

  pub record Refines (t : Table) (s : Arrivals) : Type 0 where
    pub same_index : t.flow_index ≡ s.index
    pub same_pause : t.paused ≡ s.held
    pub latest : (b : Buffer) → Latest (comes_before host kind) (limit_of b) (s.log b) (rows_of b t)
    pub timed : (b : Buffer) → count (untimed host kind) (s.log b) ≡ 0

  abbrev pub Timed : Event → Type 0
  Timed (arrives m) = untimed host kind m ≡ false
  Timed (pauses b) = Unit

  unfoldable pub run_table : List Event → Table → Option Table
  run_table [] t = some t
  run_table (e ∷ es) t = do after ← table_step e t; run_table es after

  unfoldable pub observed : List Event → Arrivals → Arrivals
  observed [] s = s
  observed (e ∷ es) s = observed es (observe e s)
