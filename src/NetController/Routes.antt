-- ===== src/NetController/Routes.antt =====
-- The routes of tnc/tcos-net-controller.c: `ip_by_eth`, `create_route`, `add_route` and `del_route`.
use tcos.Base.{
  true, ℕ, Bool, false, ◌&&◌, Bytes, codes, List, [], ◌∷◌, Option, none, some, str_eq, not,
  if◌then◌else◌,
}
use tcos.Host.{
  M, Trace, Route, Event, delete_route, new_route, null_pointer, uninitialised, pure, ask, emit,
  deref, ◌>>=◌, ◌>>◌,
}

-- An address of an interface: whether it is of AF_INET, and what getnameinfo writes for it.
pub record SockAddr : Type 0 where
  pub is_inet : Bool
  pub nameinfo : Option Bytes

-- `struct ifaddrs`; an interface may have no address.
pub record IfAddr : Type 0 where
  pub ifa_name : Bytes
  pub ifa_addr : Option SockAddr

-- The network of the machine, as the C library shows it.
pub record Network : Type 0 where
  pub getifaddrs : Trace → Option (List IfAddr)
  pub inet_addr : Bytes → ℕ
  -- socket(AF_INET, SOCK_DGRAM, 0) >= 0
  pub has_socket : Trace → Bool
  -- ioctl(fd, SIOCADDRT or SIOCDELRT, route) >= 0
  pub ioctl_ok : Trace → Event → Bool

abbrev pub no_ip : Bytes
no_ip = codes "error"

unfoldable pub name_or_error : Option Bytes → Bytes
name_or_error none = no_ip
name_or_error (some host) = host

-- The loop of ip_by_eth; `host` is its static buffer.
unfoldable pub find_address : Bytes → Bytes → List IfAddr → M Bytes
unfolding name_or_error
find_address dev host [] = pure host
find_address dev host (ifa ∷ rest) =
    let next = find_address dev host rest in
    do
      addr ← deref null_pointer ifa.ifa_addr
      if str_eq dev ifa.ifa_name && addr.is_inet then pure (name_or_error addr.nameinfo) else next

unfoldable pub find_listed : Bytes → Bytes → Option (List IfAddr) → M Bytes
unfolding find_address
find_listed dev host none = pure host
find_listed dev host (some ifaddr) = find_address dev host ifaddr

unfoldable pub ip_by_eth : Network → Bytes → Bytes → M Bytes
unfolding find_listed
ip_by_eth n host dev = do ifaddr ← ask n.getifaddrs; find_listed dev host ifaddr

-- create_route: `none` leaves the route as it was. A second look for the address starts with what
-- the first left in the static buffer.
unfoldable pub create_route : Network → Bytes → Bytes → Bytes → M (Option Route)
unfolding ip_by_eth
create_route n dst mask dev = do
  first ← ip_by_eth n no_ip dev
  if str_eq first no_ip then pure none else do
    ip ← ip_by_eth n first dev
    pure (
        some (record {
          rt_dst = n.inet_addr dst;
          rt_gateway = n.inet_addr ip;
          rt_genmask = n.inet_addr mask;
          is_gateway = true;
        }))

-- ioctl, and whether it succeeds.
unfoldable pub ioctl : Network → Event → M Bool
ioctl n e = do accepted ← ask (λ t. n.ioctl_ok t e); emit e; pure accepted

-- The old route is deleted first, whether there is one or not.
unfoldable pub add_route : Network → Bytes → Bytes → Bytes → M Bool
unfolding create_route ioctl
add_route n dst mask dev = do
  created ← create_route n dst mask dev
  opened ← ask n.has_socket
  if not opened then pure false else do
    route ← deref uninitialised created
    ioctl n (delete_route route)
    ioctl n (new_route route)

unfoldable pub del_route : Network → Bytes → Bytes → Bytes → M Bool
unfolding create_route ioctl
del_route n dst mask dev = do
  created ← create_route n dst mask dev
  opened ← ask n.has_socket
  if not opened
      then pure false
      else do route ← deref uninitialised created; ioctl n (delete_route route)
