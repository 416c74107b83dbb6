-- ===== src/FlowCapture/Limits.antt =====
-- What the two limits leave of a flow capture (cmd/flow_capture.go, cmd/root.go).
use network_observability_cl.Base.{
  ◌≡◌, refl, arith, ℕ, ◌≤◌, true, false, List, ltb, if◌then◌else◌, if_cases,
}
use network_observability_cl.FlowCapture.{
  Settings, Session, ended_session, should_exit, FlowArrival, FlowCollector, reach_limit,
  check_bytes, check_time,
}
use network_observability_cl.FlowCapture.Recorded.{EndsOnce, Whole}

module _ (settings : Settings) where
  pub EndsOnce-ended :
      (s : Session) → EndsOnce settings s → EndsOnce settings (ended_session settings s)
  unfolding ended_session
  EndsOnce-ended s h = ground arith

  pub should_exit_foreground :
      (s : Session)
      → s.capture_ended ≡ false
      → settings.is_background ≡ false
      → should_exit settings s ≡ true
  unfolding should_exit
  should_exit_foreground s h k = rw (h, k) refl

  pub Whole-reach_limit :
      (arrivals : List FlowArrival) (c : FlowCollector)
      → Whole arrivals c
      → Whole arrivals (reach_limit settings c)
  Whole-reach_limit arrivals c whole = record {
    rows = whole.rows;
    appended = whole.appended;
    file = whole.file;
    counted = whole.counted;
    unstopped = whole.unstopped;
  }

  -- A limit on a number that the capture keeps to in the foreground while it goes on.
  abbrev pub Keeps : ℕ → ℕ → FlowCollector → Type 0
  Keeps value limit c =
      c.returned ≡ false
      → settings.is_background ≡ false
      → (c.session.capture_ended ≡ false) × (value ≤ limit)

  pub Whole-check_bytes :
      (arrivals : List FlowArrival) (c : FlowCollector)
      → Whole arrivals c
      → EndsOnce settings c.session
      → (settings.is_background ≡ false → c.session.capture_ended ≡ false)
      → let d = check_bytes settings c in
        Whole arrivals d × EndsOnce settings d.session × Keeps d.total_bytes settings.max_bytes d
  unfolding check_bytes
  Whole-check_bytes arrivals c whole once open_still =
      if_cases
        (λ d.
          Whole arrivals d × EndsOnce settings d.session × Keeps d.total_bytes settings.max_bytes d)
        (ltb settings.max_bytes c.total_bytes) (reach_limit settings c) c
        (λ over. (
          Whole-reach_limit arrivals c whole,
          EndsOnce-ended c.session once,
          λ going front. cc (should_exit_foreground c.session (open_still front) front, going),
        ))
        (λ under. (whole, once, λ going front. (open_still front, ground arith)))

  pub Whole-check_time :
      (arrivals : List FlowArrival) (elapsed : ℕ) (c : FlowCollector)
      → Whole arrivals c
      → EndsOnce settings c.session
      → Keeps c.total_bytes settings.max_bytes c
      → let d = check_time settings elapsed c in
        Whole arrivals d
        × EndsOnce settings d.session
        × Keeps d.total_bytes settings.max_bytes d
        × Keeps elapsed settings.max_time d
  unfolding check_time
  Whole-check_time arrivals elapsed c whole once keeps =
      let P : FlowCollector → Type 0 = λ d.
        Whole arrivals d
        × EndsOnce settings d.session
        × Keeps d.total_bytes settings.max_bytes d
        × Keeps elapsed settings.max_time d in
      if_cases P c.returned c (if ltb settings.max_time elapsed then reach_limit settings c else c)
        (λ over. (whole, once, keeps, λ going front. cc))
        (λ going_on.
          if_cases P (ltb settings.max_time elapsed) (reach_limit settings c) c
            (λ over.
              let exits : settings.is_background ≡ false → should_exit settings c.session ≡ true =
                λ front. should_exit_foreground c.session (keeps going_on front).0 front in
              (
                Whole-reach_limit arrivals c whole,
                EndsOnce-ended c.session once,
                λ going front. cc (exits front),
                λ going front. cc (exits front),
              ))
            (λ under. (whole, once, keeps, λ going front. ((keeps going front).0, ground arith))))
