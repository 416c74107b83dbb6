-- ===== src/FlowCapture/Complete.antt =====
-- What a flow capture (cmd/flow_capture.go) has recorded when its loop ends.
use network_observability_cl.Base.{
  ◌≡◌, refl, sym, ap, subst, ◌∙◌, arith, ℕ, true, false, Option, none, some, List, [], ◌∷◌, ◌++◌,
  if_cases,
}
use mathlib.Core.List.{append_assoc, append-nil}
use network_observability_cl.FlowCapture.{
  Settings, FlowArrival, FlowCollector, new_flow_collector, hand_over, write_flow, receive_flow,
  collect_flows,
}
use network_observability_cl.FlowCapture.Recorded.{Recorded}
use network_observability_cl.FlowCapture.Writes.{
  Recorded-Whole, Recorded-short_write, Whole-Recorded, Recorded-full_write,
}

module _ (settings : Settings) where
  write_flow-Recorded :
      (arrivals : List FlowArrival) (a : FlowArrival) (write_result : Option ℕ) (c : FlowCollector)
      → c.returned ≡ false
      → a.stop_received ≡ false
      → a.short_write ≡ write_result
      → Recorded settings arrivals c
      → Recorded settings
          (arrivals ++ a ∷ [])
          (write_flow settings a write_result (hand_over settings a.value c))
  write_flow-Recorded arrivals a (some n) c going unstopped failed h =
      Recorded-short_write settings arrivals a n c (Recorded-Whole settings arrivals c going h)
        h.ends_once failed
  write_flow-Recorded arrivals a none c going unstopped failed h =
      Recorded-full_write settings arrivals a c going unstopped
        (Recorded-Whole settings arrivals c going h) h

  -- What arrives once the loop returns is left.
  Recorded-returned :
      (arrivals more : List FlowArrival) (c : FlowCollector)
      → Recorded settings arrivals c
      → Recorded settings (arrivals ++ more) (record c { returned = true })
  Recorded-returned arrivals more c h = record {
    written = record {
      handled = h.written.handled;
      left = h.written.left ++ more;
      missing = h.written.missing;
      arrived =
          ap (λ l. l ++ more) h.written.arrived
          ∙ append_assoc h.written.handled h.written.left more;
      rows = h.written.rows;
      appended = h.written.appended;
      file = h.written.file;
      lost = h.written.lost;
      counted = h.written.counted;
      complete = λ going. cc;
    };
    ends_once = h.ends_once;
    within = λ going. cc;
  }

  receive_flow-Recorded :
      (arrivals : List FlowArrival) (a : FlowArrival) (c : FlowCollector)
      → c.returned ≡ false
      → Recorded settings arrivals c
      → Recorded settings (arrivals ++ a ∷ []) (receive_flow settings a c)
  unfolding receive_flow
  receive_flow-Recorded arrivals a c going h =
      if_cases (Recorded settings (arrivals ++ a ∷ [])) a.stop_received _ _
        (λ stopped. Recorded-returned arrivals (a ∷ []) c h)
        (λ unstopped. write_flow-Recorded arrivals a a.short_write c going unstopped refl h)

  collect_from-Recorded :
      (before arrivals : List FlowArrival) (c : FlowCollector)
      → Recorded settings before c
      → Recorded settings (before ++ arrivals) (collect_flows settings arrivals c)
  unfolding collect_flows
  collect_from-Recorded before [] c h =
      subst (λ l. Recorded settings l c) (sym (append-nil before)) h
  collect_from-Recorded before (a ∷ arrivals) c h =
      if_cases (Recorded settings (before ++ a ∷ arrivals)) c.returned c
        (collect_flows settings arrivals (receive_flow settings a c))
        (λ over.
          subst (Recorded settings (before ++ a ∷ arrivals))
            (ap (λ b. record c { returned = b }) (sym over))
            (Recorded-returned before (a ∷ arrivals) c h))
        (λ going.
          subst
            (λ l. Recorded settings l (collect_flows settings arrivals (receive_flow settings a c)))
            (append_assoc before (a ∷ []) arrivals)
            (collect_from-Recorded (before ++ a ∷ []) arrivals (receive_flow settings a c)
              (receive_flow-Recorded before a c going h)))

  started : Recorded settings [] new_flow_collector
  started =
      Whole-Recorded settings [] new_flow_collector
        (record { rows = refl; appended = refl; file = refl; counted = refl; unstopped = tt })
        (record {
          unended = λ open_still. (refl, refl);
          stopped_once = omega arith;
          deleted_once = omega arith;
        })
        (λ going front. (refl, omega arith)) (λ going front. tt)

  -- A capture of any flows has handed the first of them to the table and to the database, and written
  -- each of these to the file in the order of arrival, with the end of the last missing only where a
  -- write failed. While it goes on, all flows are recorded whole, the bytes counted are those of the
  -- file, and a capture in the foreground is within both limits. The app is stopped at most once, and
  -- the daemon set is deleted at most once, in the background only.
  pub collect_flows-Recorded :
      (arrivals : List FlowArrival)
      → Recorded settings arrivals (collect_flows settings arrivals new_flow_collector)
  collect_flows-Recorded arrivals = collect_from-Recorded [] arrivals new_flow_collector started
