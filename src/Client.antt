-- ===== src/Client.antt =====
-- The terminal interface of internal/client: what its model holds, and how keys, events and commands change it.
-- Drawing is left out.
pub mod Controls
pub mod Widgets
pub mod Model
pub mod Timeline
pub mod Form
pub mod Incoming
pub mod Commands
pub mod Window
pub mod Keys
pub mod Lines
pub mod Valid
pub mod Runs
