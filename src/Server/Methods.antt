-- ===== src/Server/Methods.antt =====
-- The methods of the server, one function for each handler of xmlrpc/*.c.
pub mod Simple
pub mod Jobs
pub mod Media
pub mod Settings
pub mod Queries
pub mod Pads
