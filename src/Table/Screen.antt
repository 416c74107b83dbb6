-- ===== src/Table/Screen.antt =====
-- getFlows of cmd/flow_display.go on the buffers that AppendFlow leaves.
use network_observability_cl.Base.{
  ◌≡◌, refl, sym, ap, subst, ◌∙◌, arith, ℕ, ◌≤◌, String, Bool, true, Option, some, List, [], ◌∷◌,
  ◌++◌, count, count-append, keep, if◌then◌else◌, if_true, if_false, inl, inr, Bool-cases, length,
  leb, ◌==◌, ℤ, All, keep-All, last_of-append, last_of_none, ==_iff, leb→le, last_of, last_of_all,
}
use mathlib.Core.List.Perm
use network_observability_cl.Base.Latest.{Latest, Ascending}
use network_observability_cl.Base.Permutations.{Perm, count-perm}
use network_observability_cl.Record.{GenericMap}
use network_observability_cl.Table.Order.{
  flow, packet, Host, HostLaws, comes_before, untimed, sort_entries,
}
use network_observability_cl.Table.Order.Strict.{comes_before-StrictOrder}
use network_observability_cl.Table.Buffers.{
  Table, empty_table, Buffer, flow_rows, wire_rows, plaintext_rows, rows_of, splits,
  packet_capture_flow_snapshot,
}
use network_observability_cl.Table.Arrivals.{
  Arrivals, Refines, Event, Timed, run_table, observed, no_arrivals,
}
use network_observability_cl.Table.Refines.{table-Refines}
use network_observability_cl.Table.Rows.{
  get_flows, index_of, indexes_of, missing_flows, unless_among, with_missing, matches_all,
  trim_flows_to_show_count,
}
use network_observability_cl.Table.Shown.{sorts, trim-Latest, Ascending-keep, count-keep-none}

-- The buffers that the screen of a capture of packets shows.
abbrev pub buffered : Host → String → Table → List GenericMap
buffered host options t =
    if splits host packet options
    then t.last_wire_packets ++ t.last_plaintext_flows
    else t.last_flows

module _ (host : Host) (laws : HostLaws host) (options : String) where
  rows-timed :
      (t : Table) (s : Arrivals) (b : Buffer)
      → Refines host packet options t s
      → count (untimed host packet) (rows_of b t) ≡ 0
  rows-timed t s b r =
      let kept = r.latest b in
      ground (
        arith,
        count-append (untimed host packet) (rows_of b t) kept.evicted,
        count-perm (untimed host packet) kept.whole,
        r.timed b,
      )

  -- The snapshot, where the buffers are split and where they are not.
  Snapshot : Table → Option (List GenericMap) → Type 0
  Snapshot t shot =
      (entries : List GenericMap) × (shot ≡ some entries)
      × Perm entries (buffered host options t)
      × Ascending (comes_before host packet) entries
      × (count (untimed host packet) entries ≡ 0)

  split-Snapshot :
      (t : Table) (s : Arrivals)
      → Refines host packet options t s
      → splits host packet options ≡ true
      → Snapshot t (sort_entries host packet (t.last_wire_packets ++ t.last_plaintext_flows))
  unfolding Snapshot
  split-Snapshot t s r split =
      let less = comes_before host packet in
      let all : List GenericMap = t.last_wire_packets ++ t.last_plaintext_flows in
      let timed : count (untimed host packet) all ≡ 0 = omega (
        arith,
        count-append (untimed host packet) t.last_wire_packets t.last_plaintext_flows,
        rows-timed t s wire_rows r,
        rows-timed t s plaintext_rows r,
      ) in
      (
        host.sort less all,
        sorts host laws packet all timed,
        subst (Perm (host.sort less all)) (sym (if_true all t.last_flows split))
            (laws.sort-perm less all),
        laws.sort-ascending less all (comes_before-StrictOrder host packet),
        count-perm (untimed host packet) (laws.sort-perm less all) ∙ timed,
      )

  packet_capture-Snapshot :
      (t : Table) (s : Arrivals)
      → Refines host packet options t s
      → Snapshot t (packet_capture_flow_snapshot host packet options t)
  unfolding Snapshot packet_capture_flow_snapshot
  packet_capture-Snapshot t s r =
      let all : List GenericMap = t.last_wire_packets ++ t.last_plaintext_flows in
      elim (Bool-cases (splits host packet options)) [
        | inl split ↦
            subst (Snapshot t)
              (sym (if_true (sort_entries host packet all) (some t.last_flows) split))
              (split-Snapshot t s r split)
        | inr together ↦
            subst (Snapshot t)
              (sym (if_false (sort_entries host packet all) (some t.last_flows) together))
              (
                t.last_flows,
                refl,
                subst (Perm t.last_flows) (sym (if_false all t.last_flows together))
                    (Perm.refl t.last_flows),
                (r.latest flow_rows).sorted,
                rows-timed t s flow_rows r,
              )
      ]

  -- In a capture of packets the screen has the latest of the entries that match.
  pub get_flows-Latest :
      (matches : String → GenericMap → Bool) (regexes : List String) (show_count : ℕ)
      (shown : List GenericMap) (t : Table) (s : Arrivals)
      → Refines host packet options t s
      → (entries : List GenericMap) × (rows : List GenericMap) × Perm entries
          (buffered host options t)
        × (get_flows host packet options matches regexes show_count shown t ≡ some rows)
        × Latest
            (comes_before host packet)
            show_count
            (keep (matches_all matches regexes) entries)
            rows
  unfolding get_flows with_missing Snapshot
  get_flows-Latest matches regexes show_count shown t s r =
      let less = comes_before host packet in
      let shot = packet_capture-Snapshot t s r in
      let match = matches_all matches regexes in
      let trimmed =
        trim-Latest host laws (keep match shot.0) show_count
          (count-keep-none less (untimed host packet) match shot.0 shot.4)
          (Ascending-keep less match shot.0 shot.3) in
      (shot.0, trimmed.0, shot.2, rw shot.1 trimmed.1, trimmed.2)

  -- With a sort.Slice that sorts by a strict weak ordering: after every sequence of arrivals and
  -- pauses in a capture of packets, of entries whose time does not panic, getFlows returns. Its
  -- rows are the latest of the buffered entries that match every regex, in order and at most
  -- showCount, whatever was on the screen before.
  pub screen-Latest :
      (es : List Event) (matches : String → GenericMap → Bool) (regexes : List String)
      (show_count : ℕ) (shown : List GenericMap)
      → All (Timed host packet options) es
      → (t : Table) × (entries : List GenericMap) × (rows : List GenericMap) × (run_table host
            packet options es empty_table
          ≡ some t)
        × Perm entries (buffered host options t)
        × (get_flows host packet options matches regexes show_count shown t ≡ some rows)
        × Latest
            (comes_before host packet)
            show_count
            (keep (matches_all matches regexes) entries)
            rows
  screen-Latest es matches regexes show_count shown h =
      let done = table-Refines host packet options laws es h in
      let screen =
        get_flows-Latest matches regexes show_count shown done.0
          (observed host packet options es no_arrivals) done.2 in
      (done.0, screen.0, screen.1, done.1, screen.2, screen.3, screen.4)

module _ (host : Host) (options : String) where
  -- Entries that AppendFlow numbered.
  abbrev pub HasIndex : GenericMap → Type 0
  HasIndex m = (i : ℤ) × (index_of m ≡ some i)

  indexes_of-total :
      (ms : List GenericMap) → All HasIndex ms → (is : List ℤ) × (indexes_of ms ≡ some is)
  unfolding indexes_of
  indexes_of-total [] h = ([], refl)
  indexes_of-total (m ∷ ms) h =
      let rest = indexes_of-total ms h.1 in (h.0.0 ∷ rest.0, rw (h.0.1, rest.1) refl)

  missing_flows-total :
      (is : List ℤ) (ms : List GenericMap)
      → All HasIndex ms
      → (missing : List GenericMap) × (missing_flows is ms ≡ some missing)
  unfolding missing_flows
  missing_flows-total is [] h = ([], refl)
  missing_flows-total is (m ∷ ms) h =
      let rest = missing_flows-total is ms h.1 in
      (unless_among is m h.0.0 rest.0, rw (h.0.1, rest.1) refl)

  no_regex :
      (matches : String → GenericMap → Bool) (xs : List GenericMap)
      → All (λ x. matches_all matches [] x ≡ true) xs
  unfolding matches_all
  no_regex matches [] = tt
  no_regex matches (x ∷ xs) = (refl, no_regex matches xs)

  -- What a limit leaves of entries of a capture of flows.
  trim-last_of :
      (xs : List GenericMap) (limit : ℕ)
      → trim_flows_to_show_count host flow xs limit ≡ some (last_of limit xs)
  unfolding trim_flows_to_show_count
  trim-last_of xs limit =
      let long : Option (List GenericMap) = some (last_of limit xs) in
      let fitting : Option (List GenericMap) = if leb (length xs) limit then some xs else long in
      elim (Bool-cases (limit == 0)) [
        | inl none_shown ↦
            if_true (some []) fitting none_shown
            ∙ ap some (
                sym (
                  subst (λ n. last_of n xs ≡ []) (sym ((==_iff limit 0).0 none_shown))
                    (last_of_none xs)))
        | inr some_shown ↦
            if_false (some []) fitting some_shown ∙ elim (Bool-cases (leb (length xs) limit)) [
              | inl fits ↦
                  if_true (some xs) long fits
                  ∙ ap some (sym (last_of_all limit xs (leb→le (length xs) limit fits)))
              | inr over ↦ if_false (some xs) long over
            ]
      ]

  -- In a capture of flows without regexes, whose entries and shown rows have an int as Index and
  -- whose buffer has at least showCount entries, getFlows returns the last showCount of the buffer:
  -- of the rows on the screen that have left the buffer none is kept.
  pub get_flows-last_of :
      (matches : String → GenericMap → Bool) (show_count : ℕ) (shown : List GenericMap) (t : Table)
      → All HasIndex t.last_flows
      → All HasIndex shown
      → show_count ≤ length t.last_flows
      → get_flows host flow options matches [] show_count shown t
        ≡ some (last_of show_count t.last_flows)
  unfolding get_flows packet_capture_flow_snapshot with_missing
  get_flows-last_of matches show_count shown t hi hs enough =
      let indexes = indexes_of-total t.last_flows hi in
      let missing = missing_flows-total indexes.0 shown hs in
      let all : List GenericMap = missing.0 ++ t.last_flows in
      rw (indexes.1, missing.1)
        (rw (keep-All (matches_all matches []) all (no_regex matches all)) (
          trim-last_of all show_count
          ∙ ap some (last_of-append show_count missing.0 t.last_flows enough)))
