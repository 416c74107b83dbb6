-- ===== src/Lib.antt =====
-- A model of the network observability CLI: how plaintext TLS records, which an agent reports beside
-- the wire packets, are correlated with those packets, what is written and exported in the end, and
-- what the screen shows of a capture. Paths are from the repository's root.
--
-- The parts, from the data upwards:
--   Base             numbers, lists, strings and permutations that the other files share.
--   Record           config.GenericMap, the JSON object of a flow, as an association list.
--   Platform         package net, base64 and gopacket, as parameters.
--   Endpoint         addresses, ports, five-tuples (cmd/packet_capture_wire_buffer.go).
--   Filters          cmd/packet_capture_filters.go.
--   Plaintext        cmd/packet_capture_plaintext.go and the overlay of a matched packet.
--   Packet, Timing   buffered packets, pending records, their times and the time bonus.
--   Workload, Score  the guards and tiers of scorePlaintextWireMatch; cmd/wire_payload.go.
--   Selection        bestWireMatchWithAmbiguityLocked: the best packet and whether it is clear.
--   Correlation      tryAnnotateLocked and matchPendingAgainstWireLocked.
--   Buffer           wirePacketBuffer with Enqueue, HandlePlaintext, the flushes and Close.
--   History          a capture as a sequence of the calls and ticks that reach the buffer.
--   Collector        the loop over the flows, handlePlaintextRecord and handleWirePacket
--                    (cmd/packet_capture.go), and the plaintext log that is left.
--   Shutdown         the deferred calls of startPacketCollector and the handler of SIGTERM
--                    (cmd/packet_capture.go, cmd/root.go).
--   TlsProfile       internal/pkg/tlsresolver: config.go, the entries of the ConfigMap, resolve.go;
--                    cmd/collector_tls.go.
--   KeyLog           the TLS key log of cmd/packet_capture.go.
--   PayloadText      cmd/plaintext_format.go: byte tests and cuts, the wrappers of a payload, the text
--                    inside it and what is shown of it; the panel text of cmd/wire_payload.go.
--   Options          the cursors of cmd/options.go.
--   Columns          the cells, names and widths of the columns (cmd/map_format.go), and the comments
--                    of a written packet (writePacketDataWithOptions).
--   FlowCapture      the loop of cmd/flow_capture.go, and onLimitReached of cmd/root.go.
--   Table            the flow table: AppendFlow with its buffers, getFlows, the columns and the keys
--                    and buttons (cmd/flow_display.go, cmd/display.go).
--   Metrics          the graphs and panels of cmd/metric_display.go, and the range of a query
--                    (cmd/metric_capture.go).
--   FlowDb           the rows of cmd/flow_db.go.
--   Tests            runs at concrete inputs.
-- A definition has the name of its Go function in snake_case; the suffix Locked and package
-- globals are dropped or become arguments.
--
-- How the code is read. Every operation of the buffer runs under its mutex, so a history is any
-- sequence of whole operations; an operation takes its clock readings as arguments, `now` for the
-- flush and `clock` for time.Since, which is one reading for one operation. Times and durations are
-- nanoseconds in ℕ, and a time.Time{} is none. Scores and indices that Go marks with -1 are none. A
-- float64 is a dyadic fraction, finite as every JSON number is. A map is a list whose order stands for
-- the order of a `range`; all theorems hold for every list. Loops are structural recursions, so no fuel
-- is needed. What the buffer hands to the pcapng writer and to its callback is kept in the state, in
-- order; the map is copied where the code copies it, and the records share nothing.
--
-- Parameters: Platform (net.ParseIP, net.IP.String, net.ParseCIDR, base64, strings.ToLower, the frame
-- decoder) and Display (the payload bytes, the preview and the packet comment that
-- cmd/plaintext_format.go computes for a record); only the overlay of a matched packet relies on
-- what package net documents, as PlatformLaws.
-- The table takes sort.Slice, of which it relies on what package sort documents (HostLaws), and the
-- rounded product of a float64. A panic of the table is none.
-- TlsProfile takes the tables of the OpenShift and Go packages, Columns what fmt prints for a value
-- with the texts of sizes, durations and clock times (Formats), and PayloadText the decoders of JSON and
-- base64 with bytes.TrimSpace and unicode.IsPrint. UTF-8 is decoded in PayloadText.Runes.
--
-- Shutdown takes what the buffered writer inside pcapgo's NgWriter puts on disk at each write: its
-- buffer has a fixed size (4096 bytes by default), so that blocks reach the file ahead of any flush. It
-- relies on the writer passing bytes on in order and dropping none (KeepsBytes). A signal is placed
-- between whole deferred calls, and the errors of the file are left out.
--
-- Metrics takes the values of Prometheus and sort.Strings, FlowDb the driver of SQLite, and the
-- resolution of the TLS settings the replies of the Kubernetes API. An unsigned 16-bit number has at
-- most five digits, which is the fuel of its printing; an int or a uint64 has at most twenty.
--
-- Not modelled: the widgets of the terminal interface, the Prometheus, gRPC and Kubernetes clients, and
-- the pcapng encoding, which are input, output or third-party calls. The buffer and the collector keep
-- texts where PayloadText and Plaintext.Comment give bytes, so they take Display as a parameter;
-- Plaintext.Comment.display_of builds it from these.
pub mod Base
pub mod Record
pub mod Platform
pub mod Endpoint
pub mod Filters
pub mod Plaintext
pub mod Packet
pub mod Timing
pub mod Workload
pub mod Score
pub mod Selection
pub mod Correlation
pub mod Buffer
pub mod History
pub mod Collector
pub mod TlsProfile
pub mod PayloadText
pub mod Options
pub mod Columns
pub mod Table
pub mod Metrics
pub mod FlowDb
pub mod KeyLog
pub mod Tests
pub mod FlowCapture
pub mod Shutdown
