-- ===== src/Table.antt =====
-- The table of flows and packets: cmd/flow_display.go and cmd/display.go, without the widgets.
pub mod Order
pub mod Buffers
pub mod Arrivals
pub mod Refines
pub mod Rows
pub mod Shown
pub mod Screen
pub mod Columns
pub mod Picker
pub mod Controls
pub mod Moves
pub mod Divisors
pub mod Reach
pub mod Cells
pub mod Suggestions
