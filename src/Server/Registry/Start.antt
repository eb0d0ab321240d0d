-- ===== src/Server/Registry/Start.antt =====
-- `main` of xmlrpc/tcosxmlrpc.c, built with the interface of the library that has a registry.
use tcos.Base.{ℕ, Option, none, some, List, Bytes, codes, ◌++◌, if◌then◌else◌}
use tcos.Host.{Host, M, print, pure, ask, emit, ◌>>=◌, ◌>>◌, Trace}
use tcos.Server.Registry.{Handler, methods}

-- `xmlrpc_server_abyss_parms`, the fields that the code sets.
pub record ServerParms : Type 0 where
  pub config_file_name : Option Bytes
  pub port_number : ℕ
  pub log_file_name : Bytes

-- The library's registry and server: the fault's text where there is one. That a method can be
-- added is taken for granted.
pub record Abyss : Type 0 where
  pub registry_new : Trace → Option Bytes
  -- The server over the methods that are registered, until it returns.
  pub serve : ServerParms → List (Bytes × Handler) → M (Option Bytes)

unfoldable pub server_parms : Host → ServerParms
server_parms h = record {
  config_file_name = none;
  port_number = 8998;
  log_file_name =
      if h.is_standalone
      then codes "/var/lib/tcos/standalone/log/access.log"
      else codes "/var/log/access.log";
}

-- The report of a fault, and the exit code.
unfoldable pub report_fault : Bytes → Option Bytes → M ℕ
report_fault call none = pure 0
report_fault call (some fault) = do
  emit (print (call ++ codes " failed.  " ++ fault ++ codes "\n"))
  pure 1

unfoldable pub run_server : Host → Abyss → Option Bytes → M ℕ
unfolding report_fault
run_server h a (some fault) = report_fault (codes "xmlrpc_registry_new()") (some fault)
run_server h a none =
    a.serve (server_parms h) methods >>= report_fault (codes "xmlrpc_server_abyss()")

unfoldable pub main : Host → Abyss → M ℕ
main h a = ask a.registry_new >>= run_server h a
