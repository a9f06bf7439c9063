-- ===== src/Tcp/Endpoint.antt =====
-- native/smolnet_core/src/tcp.rs: `TcpEndpoint::validate`, which every bind, connect and send goes
-- through. Ports and scope ids come from the BEAM as i64.
use smolnet.Prelude.{
  ℕ, ◌-◌, ◌%◌, ◌^◌, ◌<◌, ◌≡◌, ◌↔◌, ◌≢◌, Bool, true, false, not, ◌&&◌, ◌||◌, List, ◌==◌,
  if◌then◌else◌, length, arith, inl, inr,
}
use smolnet.Prelude.Int.{ℤ, pos, negsuc, ltb_ℤ}
use smolnet.Prelude.Result.{Result, ok, err, ◌>>=◌, ◌>>◌, reject, Result-cases}
use smolnet.SocketTable.{SocketError, invalid_address, invalid_port, scope_required, invalid_scope}
use smolnet.Tcp.Address.{IsAddress, unmapped}
use smolnet.Tcp.{IpAddress, ipv4, ipv6, Wire, ValidatedEndpoint, ipv4_mapped, link_local}

pub record TcpEndpoint : Type 0 where
  pub address : List ℕ
  pub port : ℤ
  pub scope_id : ℤ

-- `x as u16` and `x as u32`.
abbrev pub cast : ℕ → ℤ → ℕ
cast width (pos n) = n % 2 ^ width
cast width (negsuc n) = 2 ^ width - 1 - n % 2 ^ width

abbrev pub is_zero : ℤ → Bool
is_zero (pos n) = n == 0
is_zero (negsuc n) = false

unfoldable pub decode_address : List ℕ → Result SocketError IpAddress
decode_address octets =
    if length octets == 4
    then ok (ipv4 octets)
    else if length octets == 16
    then if ipv4_mapped octets then err invalid_address else ok (ipv6 octets)
    else err invalid_address

unfoldable pub check_scope : IpAddress → ℤ → Result SocketError (Unit {0})
check_scope (ipv6 octets) scope_id =
    if link_local octets
    then (reject (is_zero scope_id) scope_required
        >> reject (ltb_ℤ scope_id (pos 0) || ltb_ℤ (pos 0xffff_ffff) scope_id) invalid_scope)
    else reject (not (is_zero scope_id)) invalid_scope
check_scope (ipv4 octets) scope_id = reject (not (is_zero scope_id)) invalid_scope

unfoldable pub validate : Wire → Bool → TcpEndpoint → Result SocketError ValidatedEndpoint
validate wire bind e = do
  address ← decode_address e.address
  reject
      (wire.is_multicast address
        || (wire.is_broadcast address || not bind && wire.is_unspecified address))
      invalid_address
  reject (ltb_ℤ e.port (pos 0) || (ltb_ℤ (pos 0xffff) e.port || not bind && is_zero e.port))
      invalid_port
  check_scope address e.scope_id
  ok (record { address = address; port = cast 16 e.port; scope_id = cast 32 e.scope_id })

-- Which endpoint a raw one stands for, and that it may be used.
pub record Denotes (wire : Wire) (bind : Bool) (e : TcpEndpoint) (v : ValidatedEndpoint)
    : Type 0 where
  pub address : IsAddress e.address v.address
  pub no_multicast : wire.is_multicast v.address ≡ false
  pub no_broadcast : wire.is_broadcast v.address ≡ false
  pub specified : bind ≡ false → wire.is_unspecified v.address ≡ false
  pub port : e.port ≡ pos v.port
  pub port_range : v.port < 2 ^ 16
  pub port_given : bind ≡ false → v.port ≢ 0
  pub scope : e.scope_id ≡ pos v.scope_id
  pub scope_range : v.scope_id < 2 ^ 32

-- A scope is given exactly with a link-local address.
abbrev pub scope_fits : IpAddress → ℕ → Bool
scope_fits (ipv4 octets) scope_id = scope_id == 0
scope_fits (ipv6 octets) scope_id = if link_local octets then not (scope_id == 0) else scope_id == 0

check_scope-ok :
    (a : IpAddress) (s : ℤ)
    → check_scope a s ≡ ok tt
    → (s ≡ pos (cast 32 s)) × (scope_fits a (cast 32 s) ≡ true)
unfolding check_scope
check_scope-ok (ipv4 octets) (pos n) h = ground arith
check_scope-ok (ipv4 octets) (negsuc n) h = ground arith
check_scope-ok (ipv6 octets) (pos n) h = ground arith
check_scope-ok (ipv6 octets) (negsuc n) h = ground arith

check_scope_complete :
    (a : IpAddress) (s : ℤ) (n : ℕ)
    → s ≡ pos n
    → n < 2 ^ 32
    → scope_fits a n ≡ true
    → check_scope a s ≡ ok tt
unfolding check_scope
check_scope_complete (ipv4 octets) s n e h f = rw e (ground arith)
check_scope_complete (ipv6 octets) s n e h f = rw e (ground arith)

decode_address_sound :
    (bytes : List ℕ) (a : IpAddress) → decode_address bytes ≡ ok a → IsAddress bytes a
unfolding decode_address
decode_address_sound bytes (ipv4 octets) h = ground arith
decode_address_sound bytes (ipv6 octets) h =
    (ground arith, ground arith, (unmapped bytes).0 (ground arith))

decode_address_complete :
    (bytes : List ℕ) (a : IpAddress) → IsAddress bytes a → decode_address bytes ≡ ok a
unfolding decode_address
decode_address_complete bytes (ipv4 octets) h = ground (arith, h)
decode_address_complete bytes (ipv6 octets) h =
    let m = (unmapped bytes).1 h.2 in ground (arith, h.0, h.1, m)

sound :
    (wire : Wire) (bind : Bool) (e : TcpEndpoint) (v : ValidatedEndpoint)
    → validate wire bind e ≡ ok v
    → Denotes wire bind e v × (scope_fits v.address v.scope_id ≡ true)
unfolding validate
sound wire bind e v h = elim (Result-cases (decode_address e.address)) [
  | inr (x, p) ↦ absurd (ground (arith, p))
  | inl (a, p) ↦ elim (Result-cases (check_scope a e.scope_id)) [
    | inr (x, q) ↦ absurd (ground (arith, p, q))
    | inl (u, q) ↦
        let c = check_scope-ok a e.scope_id q in
        let i = decode_address_sound e.address a p in
        let same : v.address ≡ a = ground (arith, p, q, c) in
        (
          record {
            address = rw same i;
            no_multicast = ground (arith, p, q, c);
            no_broadcast = ground (arith, p, q, c);
            specified = ground (arith, p, q, c);
            port = ground (arith, p, q, c);
            port_range = ground (arith, p, q, c);
            port_given = ground (arith, p, q, c);
            scope = ground (arith, p, q, c);
            scope_range = ground (arith, p, q, c);
          },
          ground (arith, p, q, c),
        )
  ]
]

complete :
    (wire : Wire) (bind : Bool) (e : TcpEndpoint) (v : ValidatedEndpoint)
    → Denotes wire bind e v
    → scope_fits v.address v.scope_id ≡ true
    → validate wire bind e ≡ ok v
unfolding validate
complete wire bind e v d f = rw (decode_address_complete e.address v.address d.address) (
    rw (check_scope_complete v.address e.scope_id v.scope_id d.scope d.scope_range f)
      (ground (arith, d)))

-- The source's checks pass exactly the endpoints that stand for one: four octets, or sixteen that map no
-- IPv4 address, neither multicast nor broadcast nor, for a peer, unspecified, a port in range and, for
-- a peer, not 0, and a scope exactly with a link-local address. The result is what they stand for.
pub validate-Denotes :
    (wire : Wire) (bind : Bool) (e : TcpEndpoint) (v : ValidatedEndpoint)
    → (validate wire bind e ≡ ok v)
      ↔ (Denotes wire bind e v × (scope_fits v.address v.scope_id ≡ true))
validate-Denotes wire bind e v = (sound wire bind e v, λ p. complete wire bind e v p.0 p.1)
