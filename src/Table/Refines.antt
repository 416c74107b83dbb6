-- ===== src/Table/Refines.antt =====
-- AppendFlow of cmd/flow_display.go keeps its buffers to the arrivals.
use mathlib.Core.List.Perm
use network_observability_cl.Base.{
  ap, ◌∙◌, if_true, if_false, str_eq, All, last_of_all, count-append, ℕ, ◌+◌, ◌%◌, ◌^◌, String,
  Bool, false, not, Option, some, List, [], ◌∷◌, ◌++◌, ltb, length, count, is_some, if◌then◌else◌,
  ◌≡◌, refl, sym, subst, arith, Bool-cases, inl, inr, last_of,
}
use network_observability_cl.Base.Latest.{Latest, Latest-cons, Latest-nil}
use network_observability_cl.Base.Permutations.{perm_last, count-perm}
use network_observability_cl.Record.{GenericMap, int, lookup}
use network_observability_cl.Record.Laws.{lookup-put}
use network_observability_cl.Table.Order.{
  Capture, flow, packet, metric, Host, HostLaws, to_float64, float_field, packet_flow_time_ms,
  comes_before, untimed, sort_entries, order_time,
}
use network_observability_cl.Table.Order.Strict.{comes_before-StrictOrder}
use network_observability_cl.Table.Buffers.{
  Table, empty_table, Buffer, flow_rows, wire_rows, plaintext_rows, limit_of, rows_of, stored,
  buffer_of, splits, append_to_time_sorted_buffer, numbered, signed_64, append_to, append_flow,
}
use network_observability_cl.Table.Arrivals.{
  Event, arrives, pauses, Arrivals, no_arrivals, same_buffer, add, observe, table_step, Refines,
  Timed, run_table, observed,
}

module _ (host : Host) (kind : Capture) (options : String) where
  Latest-paused :
      (b : Bool) (t : Table) (s : Arrivals)
      → ((c : Buffer) → Latest (comes_before host kind) (limit_of c) (s.log c) (rows_of c t))
      → (c : Buffer)
      → Latest (comes_before host kind) (limit_of c) (s.log c) (rows_of c (record t { paused = b }))
  Latest-paused b t s h flow_rows = h flow_rows
  Latest-paused b t s h wire_rows = h wire_rows
  Latest-paused b t s h plaintext_rows = h plaintext_rows

  Latest-empty :
      (c : Buffer)
      → Latest (comes_before host kind) (limit_of c) (no_arrivals.log c) (rows_of c empty_table)
  Latest-empty flow_rows =
      Latest-nil (comes_before host kind) (comes_before-StrictOrder host kind) 100
  Latest-empty wire_rows =
      Latest-nil (comes_before host kind) (comes_before-StrictOrder host kind) 200
  Latest-empty plaintext_rows =
      Latest-nil (comes_before host kind) (comes_before-StrictOrder host kind) 300

  module _ (laws : HostLaws host) where
    sorts :
        (xs : List GenericMap)
        → count (untimed host kind) xs ≡ 0
        → sort_entries host kind xs ≡ some (host.sort (comes_before host kind) xs)
    unfolding sort_entries
    sorts xs h = rw h refl

    append_sorted :
        (buf all : List GenericMap) (m : GenericMap) (max : ℕ)
        → Latest (comes_before host kind) max all buf
        → count (untimed host kind) all ≡ 0
        → (untimed host kind) m ≡ false
        → (rows : List GenericMap) × (append_to_time_sorted_buffer host kind options buf m max
            ≡ some rows)
          × Latest (comes_before host kind) max (m ∷ all) rows
    unfolding append_to_time_sorted_buffer
    append_sorted buf all m max h timed tm =
        let less = comes_before host kind in
        let sorted : List GenericMap = host.sort less (buf ++ m ∷ []) in
        let still_timed : count (untimed host kind) (buf ++ m ∷ []) ≡ 0 = ground (
          arith,
          count-append (untimed host kind) buf (m ∷ []),
          count-append (untimed host kind) buf h.evicted,
          count-perm (untimed host kind) h.whole,
          tm,
        ) in
        let cut : (if ltb max (length sorted) then last_of max sorted else sorted)
            ≡ last_of max sorted =
          elim (Bool-cases (ltb max (length sorted))) [
            | inl over ↦ rw over refl
            | inr fits ↦ rw fits (sym (last_of_all max sorted (ground arith)))
          ] in
        (
          last_of max sorted,
          rw (sorts (buf ++ m ∷ []) still_timed) (ap some cut),
          Latest-cons less (comes_before-StrictOrder host kind) max all buf sorted m h
              (Perm.trans (laws.sort-perm less (buf ++ m ∷ [])) (perm_last buf m))
              (laws.sort-ascending less (buf ++ m ∷ []) (comes_before-StrictOrder host kind)),
        )

    -- The other two buffers and logs stay.
    Latest-add :
        (b buffer : Buffer) (row : GenericMap) (t : Table) (s : Arrivals) (rows : List GenericMap)
        → ((c : Buffer) → Latest (comes_before host kind) (limit_of c) (s.log c) (rows_of c t))
        → Latest (comes_before host kind) (limit_of buffer) (row ∷ s.log buffer) rows
        → Latest
            (comes_before host kind)
            (limit_of b)
            ((add host kind options row buffer s).log b)
            (rows_of b (stored buffer rows t))
    Latest-add flow_rows flow_rows row t s rows h new = new
    Latest-add wire_rows wire_rows row t s rows h new = new
    Latest-add plaintext_rows plaintext_rows row t s rows h new = new
    Latest-add flow_rows wire_rows row t s rows h new = h flow_rows
    Latest-add flow_rows plaintext_rows row t s rows h new = h flow_rows
    Latest-add wire_rows flow_rows row t s rows h new = h wire_rows
    Latest-add wire_rows plaintext_rows row t s rows h new = h wire_rows
    Latest-add plaintext_rows flow_rows row t s rows h new = h plaintext_rows
    Latest-add plaintext_rows wire_rows row t s rows h new = h plaintext_rows

    timed_after :
        (b buffer : Buffer) (row : GenericMap) (s : Arrivals)
        → ((c : Buffer) → count (untimed host kind) (s.log c) ≡ 0)
        → (untimed host kind) row ≡ false
        → count (untimed host kind) ((add host kind options row buffer s).log b) ≡ 0
    timed_after b buffer row s h fresh = elim (Bool-cases (same_buffer b buffer)) [
      | inl hit ↦ rw hit (rw fresh (omega (arith, h b)))
      | inr miss ↦ rw miss (h b)
    ]

    append_to-Refines :
        (buffer : Buffer) (row : GenericMap) (t : Table) (s : Arrivals)
        → Refines host kind options t s
        → (untimed host kind) row ≡ false
        → (after : Table) × (append_to host kind options buffer row t ≡ some after)
          × Refines host kind options after (add host kind options row buffer s)
    append_to-Refines buffer row t s r fresh =
        let sorted =
          append_sorted (rows_of buffer t) (s.log buffer) row (limit_of buffer) (r.latest buffer)
            (r.timed buffer) fresh in
        (
          stored buffer sorted.0 t,
          rw sorted.1 refl,
          record {
            same_index = ap (λ i. (i + 1) % 2 ^ 64) r.same_index;
            same_pause = r.same_pause;
            latest = λ b. Latest-add b buffer row t s sorted.0 r.latest sorted.2;
            timed = λ b. timed_after b buffer row s r.timed fresh;
          },
        )

    -- The time of an entry is not its index.
    to_float64-numbered :
        (i : ℕ) (m : GenericMap) (name : String)
        → str_eq "Index" name ≡ false
        → to_float64 (numbered i m) name ≡ to_float64 m name
    unfolding to_float64
    to_float64-numbered i m name h = ap float_field (
        lookup-put name "Index" (int (signed_64 i)) m
        ∙ if_false (some (int (signed_64 i))) (lookup name m) h)

    order_time-numbered :
        (k : Capture) (i : ℕ) (m : GenericMap)
        → order_time host k (numbered i m) ≡ order_time host k m
    unfolding packet_flow_time_ms
    order_time-numbered flow i m = to_float64-numbered i m "TimeFlowEndMs" refl
    order_time-numbered metric i m = to_float64-numbered i m "Time" refl
    order_time-numbered packet i m =
        rw (to_float64-numbered i m "TimeFlowStartMs" refl, to_float64-numbered i m "Time" refl)
          refl

    table_step-Refines :
        (e : Event) (t : Table) (s : Arrivals)
        → Timed host kind options e
        → Refines host kind options t s
        → (after : Table) × (table_step host kind options e t ≡ some after)
          × Refines host kind options after (observe host kind options e s)
    unfolding table_step observe append_flow
    table_step-Refines (pauses b) t s h r = (
      record t { paused = b },
      refl,
      record {
        same_index = r.same_index;
        same_pause = refl;
        latest = Latest-paused b t s r.latest;
        timed = r.timed;
      },
    )
    table_step-Refines (arrives m) t s h r =
        let taken : ℕ → Option Table = λ i.
          append_to host kind options (buffer_of (splits host kind options) (numbered i m))
            (numbered i m) t in
        let noted : ℕ → Arrivals = λ i.
          add host kind options (numbered i m) (buffer_of (splits host kind options) (numbered i m))
            s in
        elim (Bool-cases s.held) [
          | inl stopped ↦ (
            t,
            if_true (some t) (taken t.flow_index) (r.same_pause ∙ stopped),
            subst (Refines host kind options t) (sym (if_true s (noted s.index) stopped)) r,
          )
          | inr running ↦
              let row : GenericMap = numbered t.flow_index m in
              let fresh : (untimed host kind) row ≡ false =
                ap (λ f. not (is_some f)) (order_time-numbered kind t.flow_index m) ∙ h in
              let stored =
                append_to-Refines (buffer_of (splits host kind options) row) row t s r fresh in
              (
                stored.0,
                if_false (some t) (taken t.flow_index) (r.same_pause ∙ running) ∙ stored.1,
                subst (Refines host kind options stored.0)
                    (sym (if_false s (noted s.index) running))
                    (subst (λ i. Refines host kind options stored.0 (noted i)) r.same_index
                      stored.2),
              )
        ]

    -- The table starts as the arrivals do, and keeps to them.
    pub run_table-Refines :
        (es : List Event) (t : Table) (s : Arrivals)
        → All (Timed host kind options) es
        → Refines host kind options t s
        → (after : Table) × (run_table host kind options es t ≡ some after)
          × Refines host kind options after (observed host kind options es s)
    unfolding run_table observed
    run_table-Refines [] t s h r = (t, refl, r)
    run_table-Refines (e ∷ es) t s h r =
        let one = table_step-Refines e t s h.0 r in
        let rest = run_table-Refines es one.0 (observe host kind options e s) h.1 one.2 in
        (rest.0, rw one.1 rest.1, rest.2)

    pub nothing-Refines : Refines host kind options empty_table no_arrivals
    nothing-Refines = record {
      same_index = refl;
      same_pause = refl;
      timed = λ b. refl;
      latest = Latest-empty;
    }

    -- With a sort.Slice that sorts by a strict weak ordering, and entries whose time does not
    -- panic: every sequence of arrivals and pauses on the empty table runs without a panic, and
    -- leaves it with the same next index and pause as the arrivals, and each of the three buffers
    -- with the latest of the entries that went to it: at most its limit, in order, with no entry
    -- lost while there is room and none kept that is before an evicted one.
    pub table-Refines :
        (es : List Event)
        → All (Timed host kind options) es
        → (after : Table) × (run_table host kind options es empty_table ≡ some after)
          × Refines host kind options after (observed host kind options es no_arrivals)
    table-Refines es h = run_table-Refines es empty_table no_arrivals h nothing-Refines
