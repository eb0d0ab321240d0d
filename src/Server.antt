-- ===== src/Server.antt =====
-- The XML-RPC server of the thin client (xmlrpc/*.c): the steps that its methods share, the
-- methods, the table that the main program registers, and who may do what.
pub mod Xauth
pub mod Exec
pub mod Gates
pub mod Methods
pub mod Registry
pub mod Access
pub mod Cookies
pub mod Commands
pub mod Probes
pub mod Refusals
pub mod Strangers
pub mod PadMoves
