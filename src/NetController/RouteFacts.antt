-- ===== src/NetController/RouteFacts.antt =====
-- What the route commands of tnc/tcos-net-controller.c do.
use tcos.Base.{
  true, false, ◌&&◌, ◌≡◌, ◌≢◌, refl, Bytes, List, [], ◌∷◌, Option, none, some, str_eq, str_eq_iff,
  Bool-cases, inl, inr, ◌∙◌,
}
use tcos.Host.{Trace, Route, delete_route, new_route, done, pure, ask, emit, deref}
use tcos.NetController.Routes.{
  SockAddr, IfAddr, Network, no_ip, name_or_error, find_address, find_listed, create_route, ioctl,
  add_route,
}

-- The first address of AF_INET of the device, if it has one; every interface has an address.
pub data FirstAddress (dev : Bytes) : List IfAddr → Option SockAddr → Type 0 where
  nowhere : FirstAddress dev [] none
  found :
      (ifa : IfAddr) (addr : SockAddr) (rest : List IfAddr)
      → ifa.ifa_addr ≡ some addr
      → dev ≡ ifa.ifa_name
      → addr.is_inet ≡ true
      → FirstAddress dev (ifa ∷ rest) (some addr)
  skipped :
      (ifa : IfAddr) (addr : SockAddr) (rest : List IfAddr) {o : Option SockAddr}
      → ifa.ifa_addr ≡ some addr
      → (str_eq dev ifa.ifa_name && addr.is_inet) ≡ false
      → FirstAddress dev rest o
      → FirstAddress dev (ifa ∷ rest) o

ne-str_eq : (s r : Bytes) → s ≢ r → str_eq s r ≡ false
ne-str_eq s r ne = elim (Bool-cases (str_eq s r)) [
  | inl e ↦ absurd (ne ((str_eq_iff s r).0 e))
  | inr e ↦ e
]

-- What ip_by_eth answers for it.
pub address_text : Bytes → Option SockAddr → Bytes
address_text host none = host
address_text host (some addr) = name_or_error addr.nameinfo

find_address_lem :
    (dev host : Bytes) {ifs : List IfAddr} {o : Option SockAddr} (t : Trace)
    → FirstAddress dev ifs o
    → find_address dev host ifs t ≡ done (address_text host o) t
unfolding find_address address_text deref pure
find_address_lem dev host t nowhere = refl
find_address_lem dev host t (found ifa addr rest has e inet) =
    rw (has, (str_eq_iff dev ifa.ifa_name).1 e, inet) refl
find_address_lem dev host t (skipped ifa addr rest has other f) =
    rw (has, other) (find_address_lem dev host t f)

-- The route that the arguments and the device's address say.
abbrev pub route_of : Network → Bytes → Bytes → Bytes → Route
route_of n dst mask ip = record {
  rt_dst = n.inet_addr dst;
  rt_gateway = n.inet_addr ip;
  rt_genmask = n.inet_addr mask;
  is_gateway = true;
}

-- A device with an address.
module _ (n : Network) (dst mask dev ip : Bytes) (t : Trace) {ifs : List IfAddr} (addr : SockAddr)
    (listed : n.getifaddrs t ≡ some ifs) (first : FirstAddress dev ifs (some addr))
    (named : addr.nameinfo ≡ some ip) (ip_ne : ip ≢ no_ip) where
  find_named : (host : Bytes) → find_address dev host ifs t ≡ done ip t
  unfolding address_text name_or_error
  find_named host = find_address_lem dev host t first ∙ rw named refl

  create_route_lem : create_route n dst mask dev t ≡ done (some (route_of n dst mask ip)) t
  unfolding create_route find_listed ask pure
  create_route_lem =
      let differs : str_eq ip no_ip ≡ false = ne-str_eq ip no_ip ip_ne in
      rw (listed, find_named no_ip) (rw differs (rw (listed, find_named ip) refl))

  -- A route to a device with an address is set in place of an old one: first the route with this
  -- destination and mask through the device's address is deleted, whether there is one or not, then
  -- it is added, and the answer is whether that was accepted.
  pub add_route_replaces :
      n.has_socket t ≡ true
      → add_route n dst mask dev t
        ≡ done
            (n.ioctl_ok
              (delete_route (route_of n dst mask ip) ∷ t)
              (new_route (route_of n dst mask ip)))
            (new_route (route_of n dst mask ip) ∷ delete_route (route_of n dst mask ip) ∷ t)
  unfolding add_route ioctl ask emit pure deref
  add_route_replaces opened = rw (create_route_lem, opened) refl
