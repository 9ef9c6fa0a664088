-- ===== src/Mcp.antt =====
-- The MCP server (crates/epica-mcp/src): its task stores and the handler that spawns System 2 tasks.
use epica.Prelude.{string_eq, nat_eq, list_eq}
pub mod Tasks
pub mod Stores
pub mod Server
pub mod Steps
pub mod Budget
pub mod Base64
pub mod Auth
pub mod Authorized
pub mod Reads
pub mod Settling
pub mod Settled
