-- ===== src/Collector/Log.antt =====
-- The plaintext log of a whole capture.
use mathlib.Core.List.{map-append, append-nil}
use mathlib.Core.List.Perm
use network_observability_cl.Base.{
  ℕ, ◌+◌, ◌<◌, ◌≤◌, ◌^◌, String, true, false, Option, none, some, List, [], ◌∷◌, ◌++◌, map, ◌≡◌,
  refl, sym, ◌∙◌, ap, subst, inl, inr, arith, Bool-cases, if◌then◌else◌,
}
use network_observability_cl.Base.Permutations.{Perm}
use network_observability_cl.Record.{GenericMap, lookup}
use network_observability_cl.Platform.{Platform}
use network_observability_cl.Plaintext.{Display}
use network_observability_cl.Correlation.Rounds.{export_id}
use network_observability_cl.Buffer.{WirePacketBuffer, new_wire_packet_buffer, close}
use network_observability_cl.Buffer.Records.{handled, handled-close}
use network_observability_cl.Endpoint.{◌>>=◌}
use network_observability_cl.Score.Connection.{bind-eq-some}
use network_observability_cl.Collector.{
  Collector, Arrival, count_bytes, is_plaintext_record, handle_wire_packet, handle_flow, receive,
  collect, shut_down, plaintext_log, finalized_lines, buffer_lines, close_buffer, new_collector,
  plaintext_capture_enabled,
}
use network_observability_cl.Collector.Account.{
  Account, Unmoved, buffered_ids, one_to, some_eq, nothing-Unmoved, route_packet-Unmoved,
  flush_buffer-Unmoved, Unmoved-Account, handle_plaintext_record-Account,
}

abbrev pub plaintext_in : Arrival → ℕ
plaintext_in (Arrival.flow now clock size none) = 0
plaintext_in (Arrival.flow now clock size (some m)) = if is_plaintext_record m then 1 else 0
plaintext_in (Arrival.tick now clock) = 0

-- How many plaintext records there are among the arrivals.
abbrev pub plaintext_count : List Arrival → ℕ
plaintext_count [] = 0
plaintext_count (a ∷ arrivals) = plaintext_in a + plaintext_count arrivals

module _ (env : Platform) (show : Display) where
  -- Receiving an arrival that holds `n` plaintext records keeps the account and counts them.
  record Received (n : ℕ) (before after : Collector) : Type 0 where
    account : Account before → Account after
    counted : after.last_id ≡ before.last_id + n

  Unmoved-Received : (c after : Collector) → Unmoved c after → Received 0 c after
  Unmoved-Received c after u = record {
    account = Unmoved-Account env show c after u;
    counted = omega (arith, u.same_last);
  }

  count_bytes-Received :
      (n max_bytes size : ℕ) (c after : Collector)
      → Received n c after
      → Received n c (count_bytes max_bytes size after)
  count_bytes-Received n max_bytes size c after r = record {
    account = λ a. record { logs = (r.account a).logs; ids_are = (r.account a).ids_are };
    counted = r.counted;
  }

  handle_flow-Received :
      (now clock : ℕ) (m : GenericMap) (c after : Collector)
      → Account c
      → c.last_id + 1 < 2 ^ 64
      → handle_flow env show now clock m c ≡ some after
      → Received (if is_plaintext_record m then 1 else 0) c after
  unfolding handle_flow handle_wire_packet
  handle_flow-Received now clock m c after a room h = elim (Bool-cases (is_plaintext_record m)) [
    | inl it ↦
        let (kept, next) = handle_plaintext_record-Account env show now clock m c room a in
        rw it (
          subst (Received 1 c) (some_eq (rw it at h))
            (record { account = λ _. kept; counted = next }))
    | inr other ↦ rw other (
        Unmoved-Received c after
          (route_packet-Unmoved env show now clock m (lookup "Data" m) c after (rw other at h)))
  ]

  receive-Received :
      (max_bytes : ℕ) (e : Arrival) (c after : Collector)
      → Account c
      → c.last_id + 1 < 2 ^ 64
      → receive env show max_bytes e c ≡ some after
      → Received (plaintext_in e) c after
  unfolding receive
  receive-Received max_bytes (Arrival.flow now clock size none) c after a room h =
      Unmoved-Received c after (subst (Unmoved c) (some_eq h) (nothing-Unmoved env show c))
  receive-Received max_bytes (Arrival.flow now clock size (some m)) c after a room h =
      let (handled, e, f) = bind-eq-some (handle_flow env show now clock m c) _ h in
      subst (Received _ c) (some_eq f) (
        count_bytes-Received _ max_bytes size c handled
          (handle_flow-Received now clock m c handled a room e))
  receive-Received max_bytes (Arrival.tick now clock) c after a room h =
      Unmoved-Received c after
        (subst (Unmoved c) (some_eq h) (flush_buffer-Unmoved env show now clock c.buffer c refl))

  stopped :
      (max_bytes : ℕ) (e : Arrival) (es : List Arrival) (c after : Collector)
      → c.completed ≡ true
      → collect env show max_bytes (e ∷ es) c ≡ some after
      → Path (Option Collector) (some c) (some after)
  unfolding collect
  stopped max_bytes e es c after done h = ground (arith)

  continued :
      (max_bytes : ℕ) (e : Arrival) (es : List Arrival) (c after : Collector)
      → c.completed ≡ false
      → collect env show max_bytes (e ∷ es) c ≡ some after
      → (receive env show max_bytes e c >>= λ x. collect env show max_bytes es x) ≡ some after
  unfolding collect
  continued max_bytes e es c after going h = ground (arith)

  collect-Account :
      (max_bytes : ℕ) (es : List Arrival) (c after : Collector)
      → Account c
      → c.last_id + plaintext_count es + 1 < 2 ^ 64
      → collect env show max_bytes es c ≡ some after
      → Account after
        × (after.last_id ≤ c.last_id + plaintext_count es)
        × (after.completed ≡ false → after.last_id ≡ c.last_id + plaintext_count es)
  unfolding collect
  collect-Account max_bytes [] c after a room h =
      subst
        (λ x.
          Account x
          × (x.last_id ≤ c.last_id + 0)
          × (x.completed ≡ false → x.last_id ≡ c.last_id + 0))
        (some_eq h) (a, omega arith, λ _. omega arith)
  collect-Account max_bytes (e ∷ es) c after a room h = elim (Bool-cases c.completed) [
    | inl done ↦
        let same : c ≡ after = some_eq (stopped max_bytes e es c after done h) in
        subst
          (λ x.
            Account x
            × (x.last_id ≤ c.last_id + plaintext_count (e ∷ es))
            × (x.completed ≡ false → x.last_id ≡ c.last_id + plaintext_count (e ∷ es)))
          same (a, omega arith, λ going. absurd (cc (done, going)))
    | inr going ↦
        let (middle, f, rest) =
          bind-eq-some (receive env show max_bytes e c) _
            (continued max_bytes e es c after going h) in
        let r = receive-Received max_bytes e c middle a (omega (arith, room)) f in
        let (kept, most, exact) =
          collect-Account max_bytes es middle after (r.account a) (omega (arith, room, r.counted))
            rest in
        (kept, omega (arith, r.counted, most), λ x. omega (arith, r.counted, exact x))
  ]

  new_collector-Account :
      (options : String)
      → plaintext_capture_enabled options ≡ true
      → Account (new_collector env show options true)
  unfolding new_collector new_wire_packet_buffer
  new_collector-Account options on = rw on (record { logs = refl; ids_are = Perm.nil })

  finalized-ids :
      (exported : List (ℕ × GenericMap))
      → map export_id (finalized_lines env show true exported) ≡ map export_id exported
  finalized-ids [] = refl
  finalized-ids (e ∷ es) = ap (◌∷◌ e.0) (finalized-ids es)

  closed-ids :
      (clock : ℕ) (o : Option WirePacketBuffer)
      → Perm
          (map export_id (buffer_lines env show true (close_buffer env show clock o)))
          (buffered_ids o)
  unfolding close
  closed-ids clock none = Perm.nil
  closed-ids clock (some b) =
      subst (λ l. Perm l (handled b))
        (append-nil (map export_id (close env show clock b).exported)
          ∙ sym (finalized-ids (close env show clock b).exported))
        (handled-close env show clock b)

  shut_down-log :
      (clock : ℕ) (c : Collector)
      → Account c
      → Perm
          (map export_id (plaintext_log env show (shut_down env show clock c)))
          (one_to c.last_id)
  unfolding shut_down
  shut_down-log clock c a =
      subst
        (λ b.
          Perm
            (map export_id
              (c.lines ++ buffer_lines env show b (close_buffer env show clock c.buffer)))
            (one_to c.last_id))
        (sym a.logs)
        (subst (λ l. Perm l (one_to c.last_id)) (sym (map-append export_id c.lines _))
          (Perm.trans (Perm.append_left (map export_id c.lines) (closed-ids clock c.buffer))
            a.ids_are))

  -- With plaintext capture enabled and its log created, and fewer than 2 ^ 64 - 1 plaintext records: a
  -- capture that ends without a panic leaves in the log, once it is shut down, exactly one line for
  -- each of the ids 1 to n, in some order, where n is the last id given. There are at most as many ids
  -- as plaintext records arrived, and exactly as many if the byte limit did not end the capture.
  pub log_complete :
      (options : String) (max_bytes clock : ℕ) (es : List Arrival) (after : Collector)
      → plaintext_capture_enabled options ≡ true
      → plaintext_count es + 1 < 2 ^ 64
      → collect env show max_bytes es (new_collector env show options true) ≡ some after
      → Perm
          (map export_id (plaintext_log env show (shut_down env show clock after)))
          (one_to after.last_id)
        × (after.last_id ≤ plaintext_count es)
        × (after.completed ≡ false → after.last_id ≡ plaintext_count es)
  unfolding new_collector
  log_complete options max_bytes clock es after on room h =
      let (a, most, exact) =
        collect-Account max_bytes es (new_collector env show options true) after
          (new_collector-Account options on) (omega (arith, room)) h in
      (shut_down-log clock after a, omega (arith, most), λ x. omega (arith, exact x))
