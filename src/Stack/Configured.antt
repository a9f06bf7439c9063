-- ===== src/Stack/Configured.antt =====
-- native/smolnet_core/src/stack.rs: which configurations `StackConfig::validate` passes, said of the
-- octets, prefixes and timers themselves.
use smolnet.Prelude.{
  All, ℕ, ◌≤◌, ◌<◌, ◌*◌, ◌≡◌, ◌↔◌, ◌⊎◌, refl, Bool, true, false, some, List, [], ◌∷◌, length, arith,
  inl, inr, Bool-cases, Option-cases,
}
use smolnet.Prelude.Result.{ok}
use smolnet.Limits.{Limits}
use smolnet.Tcp.{IpAddress, ipv4, ipv6, Wire, TcpTimers, timers_valid}
use smolnet.Tcp.Address.{IsAddress, unmapped}
use smolnet.Stack.Config.{
  StackConfig, AddressConfig, RouteConfig, ip_address, address_valid, route_valid, route_fits,
  same_family, prefix_limit, any_invalid, config_validate,
}

pub any_invalid-All :
    {A : Type 0} (valid : A → Bool) (xs : List A)
    → (any_invalid valid xs ≡ false) ↔ All (λ x. valid x ≡ true) xs
unfolding any_invalid
any_invalid-All valid [] = (λ h. tt, λ h. refl)
any_invalid-All valid (x ∷ xs) =
    let ih = any_invalid-All valid xs in
    (λ h. (ground arith, ih.0 (ground arith)), λ h. let rest = ih.1 h.1 in ground arith)

-- An address of one of the families, unspecified or unicast, with a prefix of no more than its bits.
abbrev pub IsUsableAddress : Wire → AddressConfig → Type 0
IsUsableAddress wire c =
    (a : IpAddress) × IsAddress c.address a
    × (c.prefix_length ≤ 8 * length c.address)
    × ((wire.is_unspecified a ≡ true) ⊎ (wire.is_unicast a ≡ true))

-- Two addresses of one family, a prefix of no more than their bits, no multicast destination, and a
-- unicast gateway.
abbrev pub IsUsableRoute : Wire → RouteConfig → Type 0
IsUsableRoute wire r =
    (d : IpAddress) × (g : IpAddress) × IsAddress r.destination d
    × IsAddress r.gateway g
    × (length r.destination ≡ length r.gateway)
    × (r.prefix_length ≤ 8 * length r.destination)
    × (wire.is_multicast d ≡ false)
    × (wire.is_unicast g ≡ true)

-- Each duration is of 1 ms to a day, and there is a probe.
abbrev pub AreUsableTimers : TcpTimers → Type 0
AreUsableTimers t =
    (1 ≤ t.user_timeout)
    × (t.user_timeout ≤ 86_400_000)
    × (1 ≤ t.keepalive_idle)
    × (t.keepalive_idle ≤ 86_400_000)
    × (1 ≤ t.keepalive_interval)
    × (t.keepalive_interval ≤ 86_400_000)
    × (0 < t.keepalive_probes)

ip_address_sound : (bytes : List ℕ) (a : IpAddress) → ip_address bytes ≡ some a → IsAddress bytes a
unfolding ip_address
ip_address_sound bytes (ipv4 octets) h = ground arith
ip_address_sound bytes (ipv6 octets) h =
    (ground arith, ground arith, (unmapped bytes).0 (ground arith))

ip_address_complete :
    (bytes : List ℕ) (a : IpAddress) → IsAddress bytes a → ip_address bytes ≡ some a
unfolding ip_address
ip_address_complete bytes (ipv4 octets) h = ground (arith, h)
ip_address_complete bytes (ipv6 octets) h =
    let m = (unmapped bytes).1 h.2 in ground (arith, h.0, h.1, m)

bits : (bytes : List ℕ) (a : IpAddress) → IsAddress bytes a → prefix_limit a ≡ 8 * length bytes
unfolding prefix_limit
bits bytes (ipv4 octets) h = omega (arith, h.1)
bits bytes (ipv6 octets) h = omega (arith, h.1)

address_valid-IsUsableAddress :
    (wire : Wire) (c : AddressConfig) → (address_valid wire c ≡ true) ↔ IsUsableAddress wire c
unfolding address_valid
address_valid-IsUsableAddress wire c = (
  λ h. elim (Option-cases (ip_address c.address)) [
    | inl n ↦ absurd (ground (arith, n))
    | inr (a, e) ↦
        let i = ip_address_sound c.address a e in
        let b = bits c.address a i in
        (
          a,
          i,
          ground (arith, e, b),
          elim (Bool-cases (wire.is_unspecified a)) [
            | inl u ↦ inl u
            | inr u ↦ inr (ground (arith, e, u))
          ],
        )
  ],
  λ (a, i, p, u).
      let e = ip_address_complete c.address a i in
      let b = bits c.address a i in rw (e, address_valid) (ground (arith, b, p, u)),
)

family-length :
    (bs cs : List ℕ) (a b : IpAddress)
    → IsAddress bs a
    → IsAddress cs b
    → (same_family a b ≡ true) ↔ (length bs ≡ length cs)
unfolding same_family
family-length bs cs (ipv4 x) (ipv4 y) h k = (λ e. omega (arith, h.1, k.1), λ e. refl)
family-length bs cs (ipv4 x) (ipv6 y) h k =
    (λ e. absurd (cc), λ e. absurd (omega (arith, h.1, k.1)))
family-length bs cs (ipv6 x) (ipv4 y) h k =
    (λ e. absurd (cc), λ e. absurd (omega (arith, h.1, k.1)))
family-length bs cs (ipv6 x) (ipv6 y) h k = (λ e. omega (arith, h.1, k.1), λ e. refl)

route_valid-IsUsableRoute :
    (wire : Wire) (r : RouteConfig) → (route_valid wire r ≡ true) ↔ IsUsableRoute wire r
unfolding route_valid route_fits
route_valid-IsUsableRoute wire r = (
  λ h. elim (Option-cases (ip_address r.destination)) [
    | inl n ↦ absurd (ground (arith, n))
    | inr (d, e) ↦ elim (Option-cases (ip_address r.gateway)) [
      | inl n ↦ absurd (ground (arith, e, n))
      | inr (g, f) ↦
          let i = ip_address_sound r.destination d e in
          let j = ip_address_sound r.gateway g f in
          let b = bits r.destination d i in
          let fits : route_fits wire r.prefix_length d g ≡ true = ground (arith, e, f) in
          (
            d,
            g,
            i,
            j,
            (family-length r.destination r.gateway d g i j).0 (ground (arith, fits)),
            ground (arith, fits, b),
            ground (arith, fits),
            ground (arith, fits),
          )
    ]
  ],
  λ (d, g, i, j, same, p, m, u).
      let e = ip_address_complete r.destination d i in
      let f = ip_address_complete r.gateway g j in
      let b = bits r.destination d i in
      let s = (family-length r.destination r.gateway d g i j).1 same in
      rw (e, route_valid) (rw (f, route_valid) (ground (arith, b, s, p, m, u))),
)

All-map :
    {A : Type 0} (P Q : A → Type 0) (xs : List A) → ((x : A) → P x → Q x) → All P xs → All Q xs
All-map P Q [] f h = tt
All-map P Q (x ∷ xs) f h = (f x h.0, All-map P Q xs f h.1)

-- A configuration passes exactly when its mtu is in range and fits the copy limit, it has at most 8
-- addresses and 4 routes, all of them usable, and its timers are usable: an address is unspecified or
-- unicast with a prefix of its bits at most, and a route is within one family, from a destination that
-- is no multicast one to a unicast gateway.
pub config_validate-ok :
    (wire : Wire) (limits : Limits) (c : StackConfig)
    → (config_validate wire limits c ≡ ok tt) ↔ (
        (1_280 ≤ c.mtu)
        × (c.mtu ≤ 65_575)
        × (c.mtu ≤ limits.bytes_copied)
        × (length c.addresses ≤ 8)
        × (length c.routes ≤ 4)
        × All (IsUsableAddress wire) c.addresses
        × All (IsUsableRoute wire) c.routes
        × AreUsableTimers c.tcp_timers)
unfolding config_validate timers_valid
config_validate-ok wire limits c =
    let a = any_invalid-All (address_valid wire) c.addresses in
    let r = any_invalid-All (route_valid wire) c.routes in
    (
      λ h.
          let as_valid : any_invalid (address_valid wire) c.addresses ≡ false = ground arith in
          let rs_valid : any_invalid (route_valid wire) c.routes ≡ false = ground arith in
          let timers : timers_valid c.tcp_timers ≡ true = ground arith in
          (
            ground arith,
            ground arith,
            ground arith,
            ground arith,
            ground arith,
            All-map _ _ c.addresses (λ x. (address_valid-IsUsableAddress wire x).0) (a.0 as_valid),
            All-map _ _ c.routes (λ x. (route_valid-IsUsableRoute wire x).0) (r.0 rs_valid),
            (
              ground (arith, timers),
              ground (arith, timers),
              ground (arith, timers),
              ground (arith, timers),
              ground (arith, timers),
              ground (arith, timers),
              ground (arith, timers),
            ),
          ),
      λ (low, high, copied, few_addresses, few_routes, addresses, routes, timers).
          let as_valid =
            a.1
              (All-map _ _ c.addresses (λ x. (address_valid-IsUsableAddress wire x).1) addresses) in
          let rs_valid =
            r.1 (All-map _ _ c.routes (λ x. (route_valid-IsUsableRoute wire x).1) routes) in
          ground (arith, as_valid, rs_valid, timers),
    )
