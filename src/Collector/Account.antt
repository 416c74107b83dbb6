-- ===== src/Collector/Account.antt =====
-- Every plaintext record that arrives has one line in the log, under an id of its own.
use mathlib.Core.List.{map-append, append_assoc}
use mathlib.Core.List.Perm
use network_observability_cl.Base.{
  ℕ, zero, suc, ◌+◌, ◌<◌, ◌^◌, String, true, false, Option, none, some, List, [], ◌∷◌, ◌++◌, map,
  ◌≡◌, refl, sym, ◌∙◌, subst, inl, inr, arith, Bool-cases, Bytes,
}
use network_observability_cl.Base.Permutations.{Perm, join_front}
use network_observability_cl.Record.{GenericMap, Value, as_text}
use network_observability_cl.Platform.{Platform}
use network_observability_cl.Plaintext.{
  Display, plaintext_tuple_verified, prepare_unmatched_plaintext,
}
use network_observability_cl.Correlation.{mark_annotated}
use network_observability_cl.Correlation.Rounds.{export_id}
use network_observability_cl.Buffer.{WirePacketBuffer, handle_plaintext}
use network_observability_cl.Buffer.Records.{
  handled, handled-enqueue, handled-handle_plaintext, handled-flush_expired,
}
use network_observability_cl.Collector.{
  Collector, next_packet_id, export_directly, route_plaintext, handle_plaintext_record, route_text,
  write_directly, route_packet, flush_buffer, line,
}

-- The ids of the records that a buffer was given.
abbrev pub buffered_ids : Option WirePacketBuffer → List ℕ
buffered_ids none = []
buffered_ids (some b) = handled b

-- The ids of all records that have their line or wait in the buffer.
abbrev pub accounted : Collector → List ℕ
accounted c = map export_id c.lines ++ buffered_ids c.buffer

abbrev pub one_to : ℕ → List ℕ
one_to zero = []
one_to (suc n) = one_to n ++ suc n ∷ []

-- With a log, the records so far have the ids from 1 to the last one.
pub record Account (c : Collector) : Type 0 where
  pub logs : c.logging ≡ true
  pub ids_are : Perm (accounted c) (one_to c.last_id)

-- What a record that is handled changes: it is accounted for, under its id.
pub record Handled (id : ℕ) (before after : Collector) : Type 0 where
  pub once : Perm (accounted after) (accounted before ++ id ∷ [])
  pub same_last : after.last_id ≡ before.last_id
  pub same_log : after.logging ≡ before.logging

-- What everything else leaves alone.
pub record Unmoved (before after : Collector) : Type 0 where
  pub same_ids : Perm (accounted after) (accounted before)
  pub same_last : after.last_id ≡ before.last_id
  pub same_log : after.logging ≡ before.logging

pub some_eq : {a b : Collector} → Path (Option Collector) (some a) (some b) → a ≡ b
some_eq e = cc

module _ (env : Platform) (show : Display) where
  export_directly-Handled :
      (id : ℕ) (m : GenericMap) (c : Collector)
      → c.logging ≡ true
      → Handled id c (export_directly env show id m c)
  unfolding export_directly
  export_directly-Handled id m c l = record {
    once =
        subst
          (λ b.
            Perm
              (map export_id
                  (c.lines ++ line b id (mark_annotated false (prepare_unmatched_plaintext env m)))
                ++ buffered_ids c.buffer)
              (accounted c ++ id ∷ []))
          (sym l)
          (subst (λ l. Perm (l ++ buffered_ids c.buffer) (accounted c ++ id ∷ []))
            (sym (map-append export_id c.lines (line true id _)))
            (join_front (map export_id c.lines) (buffered_ids c.buffer) id));
    same_last = refl;
    same_log = refl;
  }

  to_buffer-Handled :
      (now clock id : ℕ) (m : GenericMap) (b : WirePacketBuffer) (c : Collector)
      → c.buffer ≡ some b
      → Handled id c (record c { buffer = some (handle_plaintext env show now clock m id b) })
  to_buffer-Handled now clock id m b c e = record {
    once =
        subst
          (λ o.
            Perm (map export_id c.lines ++ handled (handle_plaintext env show now clock m id b))
              ((map export_id c.lines ++ buffered_ids o) ++ id ∷ []))
          (sym e)
          (subst
            (Perm (map export_id c.lines ++ handled (handle_plaintext env show now clock m id b)))
            (sym (append_assoc (map export_id c.lines) (handled b) (id ∷ [])))
            (Perm.append_left (map export_id c.lines)
              (handled-handle_plaintext env show now clock m id b)));
    same_last = refl;
    same_log = refl;
  }

  -- Wherever the record goes, it is accounted for.
  route_plaintext-Handled :
      (now clock id : ℕ) (m : GenericMap) (o : Option WirePacketBuffer) (c : Collector)
      → c.logging ≡ true
      → c.buffer ≡ o
      → Handled id c (route_plaintext env show now clock id m o c)
  unfolding route_plaintext
  route_plaintext-Handled now clock id m none c l e = export_directly-Handled id m c l
  route_plaintext-Handled now clock id m (some b) c l e =
      elim (Bool-cases (plaintext_tuple_verified env m)) [
        | inl good ↦ rw good (to_buffer-Handled now clock id m b c e)
        | inr bad ↦ rw bad (export_directly-Handled id m c l)
      ]

  same_buffer-Unmoved :
      (c : Collector) (before after : Option WirePacketBuffer)
      → c.buffer ≡ before
      → Perm (buffered_ids after) (buffered_ids before)
      → Unmoved c (record c { buffer = after })
  same_buffer-Unmoved c before after e p = record {
    same_ids =
        Perm.append_left (map export_id c.lines)
          (subst (λ o. Perm (buffered_ids after) (buffered_ids o)) (sym e) p);
    same_last = refl;
    same_log = refl;
  }

  pub nothing-Unmoved : (c : Collector) → Unmoved c c
  nothing-Unmoved c = record {
    same_ids = Perm.refl (accounted c);
    same_last = refl;
    same_log = refl;
  }

  write_directly-Unmoved :
      (m : GenericMap) (frame : Option Bytes) (c : Collector)
      → Unmoved c (write_directly env show m frame c)
  write_directly-Unmoved m none c = nothing-Unmoved c
  write_directly-Unmoved m (some frame) c = record {
    same_ids = Perm.refl (accounted c);
    same_last = refl;
    same_log = refl;
  }

  route_text-Unmoved :
      (now clock : ℕ) (m : GenericMap) (t : Option String) (o : Option WirePacketBuffer)
      (c after : Collector)
      → c.buffer ≡ o
      → route_text env show now clock m t o c ≡ some after
      → Unmoved c after
  unfolding route_text
  route_text-Unmoved now clock m none o c after e h = cc
  route_text-Unmoved now clock m (some t) none c after e h =
      subst (Unmoved c) (some_eq h) (write_directly-Unmoved m (env.decode_base64 t) c)
  route_text-Unmoved now clock m (some t) (some b) c after e h =
      subst (Unmoved c) (some_eq h)
        (same_buffer-Unmoved c (some b) _ e (handled-enqueue env show now clock m t b))

  pub route_packet-Unmoved :
      (now clock : ℕ) (m : GenericMap) (v : Option Value) (c after : Collector)
      → route_packet env show now clock m v c.buffer c ≡ some after
      → Unmoved c after
  unfolding route_packet
  route_packet-Unmoved now clock m none c after h =
      subst (Unmoved c) (some_eq h) (nothing-Unmoved c)
  route_packet-Unmoved now clock m (some v) c after h =
      route_text-Unmoved now clock m (as_text v) c.buffer c after refl h

  pub flush_buffer-Unmoved :
      (now clock : ℕ) (o : Option WirePacketBuffer) (c : Collector)
      → c.buffer ≡ o
      → Unmoved c (record c { buffer = flush_buffer env show now clock o })
  flush_buffer-Unmoved now clock none c e = same_buffer-Unmoved c none _ e Perm.nil
  flush_buffer-Unmoved now clock (some b) c e =
      same_buffer-Unmoved c (some b) _ e (handled-flush_expired env show now clock b)

  pub Unmoved-Account : (c after : Collector) → Unmoved c after → Account c → Account after
  Unmoved-Account c after u a = record {
    logs = u.same_log ∙ a.logs;
    ids_are =
        subst (λ n. Perm (accounted after) (one_to n)) (sym u.same_last)
          (Perm.trans u.same_ids a.ids_are);
  }

  -- A plaintext record gets the next id, and its place in the account.
  pub handle_plaintext_record-Account :
      (now clock : ℕ) (m : GenericMap) (c : Collector)
      → c.last_id + 1 < 2 ^ 64
      → Account c
      → Account (handle_plaintext_record env show now clock m c)
        × ((handle_plaintext_record env show now clock m c).last_id ≡ c.last_id + 1)
  unfolding handle_plaintext_record
  handle_plaintext_record-Account now clock m c room a =
      let ids = accounted (handle_plaintext_record env show now clock m c) in
      let next : next_packet_id c.last_id ≡ suc c.last_id = omega arith in
      let h =
        route_plaintext-Handled now clock (next_packet_id c.last_id) _ c.buffer
          (record c { last_id = next_packet_id c.last_id }) a.logs refl in
      (
        record {
          logs = h.same_log ∙ a.logs;
          ids_are =
              subst (λ n. Perm ids (one_to n)) (sym (h.same_last ∙ next))
                (Perm.trans (subst (λ n. Perm ids (accounted c ++ n ∷ [])) next h.once)
                  (Perm.append_right (suc c.last_id ∷ []) a.ids_are));
        },
        h.same_last ∙ omega arith,
      )
