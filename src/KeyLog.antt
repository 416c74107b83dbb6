-- ===== src/KeyLog.antt =====
-- The TLS key log: embedTLSKeylog and watchTLSKeylog of cmd/packet_capture.go. The content of the
-- file at each reading, and whether it opens and a block can be written, are arguments; the size of
-- the file is below 2 ^ 63.
pub mod Follows
use network_observability_cl.Base.{
  ℕ, ◌+◌, Bool, true, false, ◌||◌, not, Option, none, some, List, [], ◌∷◌, ◌++◌, Bytes, length,
  drop, ◌==◌, if◌then◌else◌,
}

-- keylogOffset, and the secrets blocks written to the packet file so far.
pub record KeyLog : Type 0 where
  pub keylog_offset : ℕ
  pub blocks : List Bytes

abbrev pub no_keys : KeyLog
no_keys = record { keylog_offset = 0; blocks = [] }

abbrev pub embed_content : Bytes → Bool → KeyLog → KeyLog
embed_content content writes log =
    if length content == 0 || not writes
    then log
    else record { keylog_offset = length content; blocks = log.blocks ++ content ∷ [] }

-- none is a file that cannot be read. The errors that are returned are only logged.
unfoldable pub embed_tls_keylog : Option Bytes → Bool → KeyLog → KeyLog
embed_tls_keylog none writes log = log
embed_tls_keylog (some content) writes log = embed_content content writes log

abbrev pub append_block : Bytes → Bool → KeyLog → KeyLog
append_block block writes log = if length block == 0 || not writes then log else record {
  keylog_offset = log.keylog_offset + length block;
  blocks = log.blocks ++ block ∷ [];
}

-- One tick of the loop; a seek behind the end reads nothing.
unfoldable pub watch_tick : Option Bytes → Bool → KeyLog → KeyLog
watch_tick none writes log = log
watch_tick (some content) writes log = append_block (drop log.keylog_offset content) writes log

-- The file grows, or the watcher ticks.
pub data FileEvent : Type 0 where
  grows : Bytes → FileEvent
  ticks : Bool → Bool → FileEvent

abbrev pub file_step : FileEvent → Bytes × KeyLog → Bytes × KeyLog
file_step (grows more) (file, log) = (file ++ more, log)
file_step (ticks opens writes) (file, log) =
    (file, watch_tick (if opens then some file else none) writes log)

unfoldable pub follow : List FileEvent → Bytes × KeyLog → Bytes × KeyLog
follow [] s = s
follow (e ∷ es) s = follow es (file_step e s)
