-- ===== src/FlowCapture/Writes.antt =====
-- What the write of one flow leaves of a flow capture (cmd/flow_capture.go).
use network_observability_cl.Base.{
  take, ◌≡◌, refl, sym, ap, subst, ◌∙◌, arith, ℕ, ◌≤◌, false, none, some, List, [], ◌∷◌, ◌++◌, map,
  length-append, All, All-append, inl, inr,
}
use mathlib.Core.List.{append_assoc, append-nil, map-append}
use network_observability_cl.FlowCapture.{
  Settings, FlowArrival, FlowCollector, record_of, check_bytes, check_time, hand_over, write_whole,
  write_flow,
}
use network_observability_cl.FlowCapture.Recorded.{
  EndsOnce, Recorded, joined_records-append, take-drop, Whole,
}
use network_observability_cl.FlowCapture.Limits.{Keeps, Whole-check_bytes, Whole-check_time}

module _ (settings : Settings) where
  pub all_handled :
      (arrivals : List FlowArrival) (c : FlowCollector)
      → c.returned ≡ false
      → (h : Recorded settings arrivals c) → arrivals ≡ h.written.handled
  all_handled arrivals c going h =
      h.written.arrived
      ∙ ap (λ l. h.written.handled ++ l) (h.written.complete going).0
      ∙ append-nil h.written.handled

  -- A capture that goes on has recorded all that arrived.
  pub Recorded-Whole :
      (arrivals : List FlowArrival) (c : FlowCollector)
      → c.returned ≡ false
      → Recorded settings arrivals c
      → Whole arrivals c
  Recorded-Whole arrivals c going h =
      let (none_left, none_missing, counted, unstopped) = h.written.complete going in
      let all = all_handled arrivals c going h in
      record {
        rows = h.written.rows ∙ ap (map (λ a. a.value)) (sym all);
        appended = h.written.appended;
        file = sym (append-nil c.file) ∙ ap (λ l. c.file ++ l) (sym none_missing) ∙ h.written.file;
        counted = counted;
        unstopped = subst (All (λ a. a.stop_received ≡ false)) (sym all) unstopped;
      }

  pub Whole-hand_over :
      (arrivals : List FlowArrival) (a : FlowArrival) (c : FlowCollector)
      → Whole arrivals c
      → a.stop_received ≡ false
      → Whole
          (arrivals ++ a ∷ [])
          (write_whole settings (record_of a.value) (hand_over settings a.value c))
  Whole-hand_over arrivals a c h unstopped = record {
    rows = ap (λ l. l ++ a.value ∷ []) h.rows ∙ sym (map-append (λ b. b.value) arrivals (a ∷ []));
    appended = ap (λ l. l ++ a.value ∷ []) h.appended;
    file = ap (λ l. l ++ record_of a.value) h.file ∙ sym (joined_records-append c.rows a.value);
    counted = omega (arith, h.counted, length-append c.file (record_of a.value));
    unstopped =
        All-append (λ b. b.stop_received ≡ false) arrivals (a ∷ []) h.unstopped (unstopped, tt);
  }

  -- A failed write leaves the first bytes of its record.
  pub Recorded-short_write :
      (arrivals : List FlowArrival) (a : FlowArrival) (n : ℕ) (c : FlowCollector)
      → Whole arrivals c
      → EndsOnce settings c.session
      → a.short_write ≡ some n
      → Recorded settings
          (arrivals ++ a ∷ [])
          (write_flow settings a (some n) (hand_over settings a.value c))
  unfolding write_flow
  Recorded-short_write arrivals a n c h once failed =
      let (rest, e) = take-drop n (record_of a.value) in
      record {
        written = record {
          handled = arrivals ++ a ∷ [];
          left = [];
          missing = rest;
          arrived = sym (append-nil (arrivals ++ a ∷ []));
          rows =
              ap (λ l. l ++ a.value ∷ []) h.rows
              ∙ sym (map-append (λ b. b.value) arrivals (a ∷ []));
          appended = ap (λ l. l ++ a.value ∷ []) h.appended;
          file =
              append_assoc c.file (take n (record_of a.value)) rest
              ∙ ap (λ l. c.file ++ l) e
              ∙ ap (λ l. l ++ record_of a.value) h.file
              ∙ sym (joined_records-append c.rows a.value);
          lost = inr (arrivals, a, n, take n (record_of a.value), refl, failed, e);
          counted = omega (arith, h.counted, length-append c.file (take n (record_of a.value)));
          complete = λ going. cc;
        };
        ends_once = once;
        within = λ going. cc;
      }

  -- The flows handled before keep to the limit of time.
  abbrev pub InTime : List FlowArrival → FlowCollector → Type 0
  InTime arrivals c =
      c.returned ≡ false
      → settings.is_background ≡ false
      → All (λ a. a.elapsed ≤ settings.max_time) arrivals

  pub Whole-Recorded :
      (arrivals : List FlowArrival) (c : FlowCollector)
      → Whole arrivals c
      → EndsOnce settings c.session
      → Keeps settings c.total_bytes settings.max_bytes c
      → InTime arrivals c
      → Recorded settings arrivals c
  Whole-Recorded arrivals c h once keeps in_time = record {
    written = record {
      handled = arrivals;
      left = [];
      missing = [];
      arrived = sym (append-nil arrivals);
      rows = h.rows;
      appended = h.appended;
      file = append-nil c.file ∙ h.file;
      lost = inl refl;
      counted = omega (arith, h.counted);
      complete = λ going. (refl, refl, h.counted, h.unstopped);
    };
    ends_once = once;
    within = λ going front. ((keeps going front).0, (keeps going front).1, in_time going front);
  }

  -- A write of a whole record, with the two limits behind it.
  pub Recorded-full_write :
      (arrivals : List FlowArrival) (a : FlowArrival) (c : FlowCollector)
      → c.returned ≡ false
      → a.stop_received ≡ false
      → Whole arrivals c
      → Recorded settings arrivals c
      → Recorded settings
          (arrivals ++ a ∷ [])
          (write_flow settings a none (hand_over settings a.value c))
  unfolding write_flow
  Recorded-full_write arrivals a c going unstopped whole h =
      let earlier = λ (front : settings.is_background ≡ false).
        subst (All (λ b. b.elapsed ≤ settings.max_time)) (sym (all_handled arrivals c going h))
          (h.within going front).2 in
      let d = write_whole settings (record_of a.value) (hand_over settings a.value c) in
      let first =
        Whole-check_bytes settings (arrivals ++ a ∷ []) d
          (Whole-hand_over arrivals a c whole unstopped) h.ends_once
          (λ front. (h.within going front).0) in
      let (kept, once, in_bytes, in_time) =
        Whole-check_time settings (arrivals ++ a ∷ []) a.elapsed (check_bytes settings d) first.0
          first.1 first.2 in
      Whole-Recorded (arrivals ++ a ∷ []) (check_time settings a.elapsed (check_bytes settings d))
        kept once in_bytes
        (λ after front.
          All-append (λ b. b.elapsed ≤ settings.max_time) arrivals (a ∷ []) (earlier front)
            ((in_time after front).1, tt))
