-- ===== src/Dns.antt =====
-- src/dns.rs: the resolved addresses of replicas. What the operating system resolves a host and a port
-- to, and the addresses of the local interfaces, are parameters.
use kudu_rs.Base.{
  Bool, List, Option, Ordering, [], compare, false, if◌then◌else◌, none, some, ℕ, ◌&&◌, ◌++◌, ◌/◌,
  ◌==◌, ◌^◌, ◌||◌, ◌∷◌,
}
use kudu_rs.Bytes.{then_cmp}

-- An address of version 4 with its port, or of version 6 with its port, flow information and scope.
pub data SocketAddr : Type 0 where
  v4 : ℕ → ℕ → SocketAddr
  v6 : ℕ → ℕ → ℕ → ℕ → SocketAddr

unfoldable pub cmp_socket_addrs : SocketAddr → SocketAddr → Ordering
cmp_socket_addrs (v4 a port) (v4 a' port') = then_cmp (compare a a') (compare port port')
cmp_socket_addrs (v6 a port f s) (v6 a' port' f' s') = then_cmp (compare a a') (compare port port')
cmp_socket_addrs (v4 a port) (v6 a' port' f s) = Ordering.lt
cmp_socket_addrs (v6 a port f s) (v4 a' port') = Ordering.gt

-- `==` of addresses.
unfoldable pub eq_socket_addr : SocketAddr → SocketAddr → Bool
eq_socket_addr (v4 a port) (v4 a' port') = (a == a') && (port == port')
eq_socket_addr (v6 a port f s) (v6 a' port' f' s') =
    (a == a') && (port == port') && (f == f') && (s == s')
eq_socket_addr (v4 a port) (v6 a' port' f s) = false
eq_socket_addr (v6 a port f s) (v4 a' port') = false

pub data IpAddr : Type 0 where
  ipv4 : ℕ → IpAddr
  ipv6 : ℕ → IpAddr

unfoldable pub ip : SocketAddr → IpAddr
ip (v4 addr port) = ipv4 addr
ip (v6 addr port f s) = ipv6 addr

unfoldable pub eq_ip : IpAddr → IpAddr → Bool
eq_ip (ipv4 a) (ipv4 b) = a == b
eq_ip (ipv6 a) (ipv6 b) = a == b
eq_ip (ipv4 a) (ipv6 b) = false
eq_ip (ipv6 a) (ipv4 b) = false

-- `127.0.0.0/8` and `::1`
unfoldable pub is_loopback : IpAddr → Bool
is_loopback (ipv4 a) = a / 2 ^ 24 == 127
is_loopback (ipv6 a) = a == 1

unfoldable pub contains_ip : List IpAddr → IpAddr → Bool
unfolding eq_ip
contains_ip [] a = false
contains_ip (b ∷ rest) a = eq_ip b a || contains_ip rest a

unfoldable pub is_local_addr : List IpAddr → IpAddr → Bool
unfolding contains_ip is_loopback
is_local_addr local_addrs a = contains_ip local_addrs a || is_loopback a

-- `sort_by`, which is stable, and `dedup`.
unfoldable pub insert_addr : SocketAddr → List SocketAddr → List SocketAddr
insert_addr a [] = a ∷ []
insert_addr a (b ∷ rest) = elim (cmp_socket_addrs a b) [
  | Ordering.gt ↦ b ∷ insert_addr a rest
  | _ ↦ a ∷ b ∷ rest
]

unfoldable pub sort_addrs : List SocketAddr → List SocketAddr
unfolding insert_addr cmp_socket_addrs
sort_addrs [] = []
sort_addrs (a ∷ rest) = insert_addr a (sort_addrs rest)

unfoldable pub dedup_from : SocketAddr → List SocketAddr → List SocketAddr
unfolding eq_socket_addr
dedup_from a [] = a ∷ []
dedup_from a (b ∷ rest) =
    let kept = a ∷ dedup_from b rest in
    let skipped = dedup_from a rest in if eq_socket_addr a b then skipped else kept

unfoldable pub dedup : List SocketAddr → List SocketAddr
unfolding dedup_from
dedup [] = []
dedup (a ∷ rest) = dedup_from a rest

module _ (to_socket_addrs : List ℕ × ℕ → Option (List SocketAddr)) where
  -- A host that cannot be resolved is left out.
  unfoldable pub resolve_all : List (List ℕ × ℕ) → List SocketAddr
  resolve_all [] = []
  resolve_all (hostport ∷ rest) = elim (to_socket_addrs hostport) [
    | none ↦ resolve_all rest
    | some addrs ↦ addrs ++ resolve_all rest
  ]

  unfoldable pub resolve_hostports : List (List ℕ × ℕ) → List SocketAddr
  unfolding resolve_all sort_addrs dedup
  resolve_hostports hostports = dedup (sort_addrs (resolve_all hostports))
