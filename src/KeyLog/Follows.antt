-- ===== src/KeyLog/Follows.antt =====
-- What the watcher of cmd/packet_capture.go writes of a key log file that only grows.
use network_observability_cl.Base.{
  ◌≡◌, refl, sym, ap, ◌∙◌, arith, ◌+◌, Bool, true, false, ◌||◌, not, none, some, List, [], ◌∷◌,
  ◌++◌, Bytes, length, length-append, drop, ◌==◌, if◌then◌else◌, if_cases,
}
use mathlib.Core.List.{append_assoc, append-nil}
use network_observability_cl.KeyLog.{
  KeyLog, no_keys, embed_tls_keylog, watch_tick, FileEvent, grows, ticks, file_step, follow,
}

-- The bytes of the blocks, one after the other.
abbrev pub joined : List Bytes → Bytes
joined [] = []
joined (block ∷ blocks) = block ++ joined blocks

joined-append :
    (blocks : List Bytes) (block : Bytes) → joined (blocks ++ block ∷ []) ≡ joined blocks ++ block
joined-append [] block = append-nil block
joined-append (b ∷ blocks) block =
    ap (λ l. b ++ l) (joined-append blocks block) ∙ sym (append_assoc b (joined blocks) block)

drop-length_append : (front back : Bytes) → drop (length front) (front ++ back) ≡ back
drop-length_append [] back = refl
drop-length_append (x ∷ front) back = drop-length_append front back

-- The blocks are the file up to the offset.
pub record Follows (file : Bytes) (log : KeyLog) : Type 0 where
  pub rest : Bytes
  pub so_far : file ≡ joined log.blocks ++ rest
  pub at_offset : log.keylog_offset ≡ length (joined log.blocks)

Follows-grows : (file more : Bytes) (log : KeyLog) → Follows file log → Follows (file ++ more) log
Follows-grows file more log h = record {
  rest = h.rest ++ more;
  so_far = ap (λ f. f ++ more) h.so_far ∙ append_assoc (joined log.blocks) h.rest more;
  at_offset = h.at_offset;
}

-- What is behind the offset.
unread : (file : Bytes) (log : KeyLog) (h : Follows file log) → drop log.keylog_offset file ≡ h.rest
unread file log h =
    ap (λ n. drop n file) h.at_offset
    ∙ ap (drop (length (joined log.blocks))) h.so_far
    ∙ drop-length_append (joined log.blocks) h.rest

-- With what is unread the blocks are the file.
with_unread :
    (file : Bytes) (log : KeyLog)
    → Follows file log
    → joined (log.blocks ++ drop log.keylog_offset file ∷ []) ≡ file
with_unread file log h =
    joined-append log.blocks (drop log.keylog_offset file)
    ∙ ap (λ r. joined log.blocks ++ r) (unread file log h)
    ∙ sym h.so_far

Follows-block :
    (file : Bytes) (log : KeyLog)
    → Follows file log
    → Follows file (record {
      keylog_offset = log.keylog_offset + length (drop log.keylog_offset file);
      blocks = log.blocks ++ drop log.keylog_offset file ∷ [];
    })
Follows-block file log h =
    let block = drop log.keylog_offset file in
    record {
      rest = [];
      so_far = sym (with_unread file log h) ∙ sym (append-nil (joined (log.blocks ++ block ∷ [])));
      at_offset =
          ap (λ n. n + length block) h.at_offset
          ∙ sym (length-append (joined log.blocks) block)
          ∙ ap length (sym (joined-append log.blocks block));
    }

Follows-tick :
    (file : Bytes) (opens writes : Bool) (log : KeyLog)
    → Follows file log
    → Follows file (watch_tick (if opens then some file else none) writes log)
unfolding watch_tick
Follows-tick file false writes log h = h
Follows-tick file true writes log h =
    let block = drop log.keylog_offset file in
    if_cases (Follows file) (length block == 0 || not writes) log
      (record {
        keylog_offset = log.keylog_offset + length block;
        blocks = log.blocks ++ block ∷ [];
      })
      (λ idle. h) (λ written. Follows-block file log h)

Follows-follow :
    (es : List FileEvent) (s : Bytes × KeyLog)
    → Follows s.0 s.1
    → Follows (follow es s).0 (follow es s).1
unfolding follow
Follows-follow [] s h = h
Follows-follow (grows more ∷ es) s h =
    Follows-follow es (file_step (grows more) s) (Follows-grows s.0 more s.1 h)
Follows-follow (ticks opens writes ∷ es) s h =
    Follows-follow es (file_step (ticks opens writes) s) (Follows-tick s.0 opens writes s.1 h)

Follows-embed :
    (file : Bytes) (opens writes : Bool)
    → Follows file (embed_tls_keylog (if opens then some file else none) writes no_keys)
unfolding embed_tls_keylog
Follows-embed file opens writes =
    let untouched : Follows file no_keys = record {
      rest = file;
      so_far = refl;
      at_offset = refl;
    } in
    go opens untouched
  where
    go :
        (b : Bool)
        → Follows file no_keys
        → Follows file (embed_tls_keylog (if b then some file else none) writes no_keys)
    go false h = h
    go true h =
        if_cases (Follows file) (length file == 0 || not writes) no_keys
          (record { keylog_offset = length file; blocks = file ∷ [] }) (λ idle. h)
          (λ written. record {
            rest = [];
            so_far = sym (append-nil file) ∙ sym (append-nil (file ++ []));
            at_offset = ap length (sym (append-nil file));
          })

no_bytes : (bytes : Bytes) → length bytes ≡ 0 → bytes ≡ []
no_bytes [] h = refl
no_bytes (b ∷ bytes) h = absurd (omega (arith, h))

-- A tick that reads and writes leaves nothing unread.
caught_up :
    (file : Bytes) (log : KeyLog)
    → Follows file log
    → joined (watch_tick (some file) true log).blocks ≡ file
unfolding watch_tick
caught_up file log h =
    let block = drop log.keylog_offset file in
    let after : KeyLog = record {
      keylog_offset = log.keylog_offset + length block;
      blocks = log.blocks ++ block ∷ [];
    } in
    if_cases (λ l. joined l.blocks ≡ file) (length block == 0 || not true) log after
      (λ idle.
        let nothing : h.rest ≡ [] =
          sym (unread file log h) ∙ no_bytes block (ground (arith, idle)) in
        sym (append-nil (joined log.blocks))
        ∙ ap (λ r. joined log.blocks ++ r) (sym nothing)
        ∙ sym h.so_far)
      (λ written. with_unread file log h)

-- For a key log file that only grows, from the embedding on and after any growths and ticks,
-- readings and writings that fail included: the secrets blocks, one after the other, are the first
-- keylogOffset bytes of the file, so no byte is written twice and none is passed over; and after
-- one more tick that reads and writes they are the whole file.
pub follow-Follows :
    (file : Bytes) (opens writes : Bool) (es : List FileEvent)
    → let start : Bytes × KeyLog =
        (file, embed_tls_keylog (if opens then some file else none) writes no_keys) in
      let last = follow es start in
      Follows last.0 last.1 × (joined (watch_tick (some last.0) true last.1).blocks ≡ last.0)
follow-Follows file opens writes es =
    let log = embed_tls_keylog (if opens then some file else none) writes no_keys in
    let held = Follows-follow es (file, log) (Follows-embed file opens writes) in
    (held, caught_up (follow es (file, log)).0 (follow es (file, log)).1 held)
