-- ===== src/Tools.antt =====
-- The pure helpers of the agent tools in internal/session/agent_tools.go: the path check, shell
-- quoting, the output limit, the here-document delimiter, and the scan for a JSON object.
pub mod Workspace
pub mod Shell
pub mod Output
pub mod Scan
