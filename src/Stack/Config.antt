-- ===== src/Stack/Config.antt =====
-- native/smolnet_core/src/stack.rs: `StackConfig::validate`, and the addresses and routes it is about.
use smolnet.Prelude.{
  ℕ, Bool, true, false, not, ◌&&◌, ◌||◌, Option, none, some, List, [], ◌∷◌, ltb, leb, ◌==◌,
  if◌then◌else◌, length,
}
use smolnet.Prelude.Result.{Result, ok, err}
use smolnet.Limits.{Limits, between}
use smolnet.Device.{EgressCredit}
use smolnet.Tcp.{IpAddress, ipv4, ipv6, Wire, ipv4_mapped, TcpTimers, timers_valid}

pub data StackError : Type 0 where
  closed invalid_limits invalid_stack_config invalid_packet packet_too_large : StackError
  batch_too_large ownership_invariant_violation egress_credit_disabled : StackError

pub record AddressConfig : Type 0 where
  pub address : List ℕ
  pub prefix_length : ℕ

pub record RouteConfig : Type 0 where
  pub destination : List ℕ
  pub prefix_length : ℕ
  pub gateway : List ℕ

pub record StackConfig : Type 0 where
  pub mtu : ℕ
  pub addresses : List AddressConfig
  pub routes : List RouteConfig
  pub egress_credit : Option EgressCredit
  pub tcp_timers : TcpTimers

unfoldable pub ip_address : List ℕ → Option IpAddress
ip_address bytes =
    if length bytes == 4
    then some (ipv4 bytes)
    else if length bytes == 16
    then if ipv4_mapped bytes then none else some (ipv6 bytes)
    else none

unfoldable pub same_family : IpAddress → IpAddress → Bool
same_family (ipv4 a) (ipv4 b) = true
same_family (ipv4 a) (ipv6 b) = false
same_family (ipv6 a) (ipv4 b) = false
same_family (ipv6 a) (ipv6 b) = true

unfoldable pub prefix_limit : IpAddress → ℕ
prefix_limit (ipv4 octets) = 32
prefix_limit (ipv6 octets) = 128

unfoldable pub address_valid : Wire → AddressConfig → Bool
unfolding prefix_limit
address_valid wire a = elim (ip_address a.address) [
  | none ↦ false
  | some address ↦
      leb a.prefix_length (prefix_limit address)
      && (wire.is_unspecified address || wire.is_unicast address)
]

unfoldable pub route_fits : Wire → ℕ → IpAddress → IpAddress → Bool
route_fits wire prefix_length destination gateway =
    same_family destination gateway
    && (leb prefix_length (prefix_limit destination)
        && (not (wire.is_multicast destination) && wire.is_unicast gateway))

unfoldable pub route_valid : Wire → RouteConfig → Bool
unfolding route_fits same_family prefix_limit
route_valid wire r = elim (ip_address r.destination) [
  | none ↦ false
  | some destination ↦ elim (ip_address r.gateway) [
    | none ↦ false
    | some gateway ↦ route_fits wire r.prefix_length destination gateway
  ]
]

-- `items.iter().any(|item| !valid(item))`.
unfoldable pub any_invalid : {A : Type 0} → (A → Bool) → List A → Bool
any_invalid valid [] = false
any_invalid valid (x ∷ xs) = not (valid x) || any_invalid valid xs

unfoldable pub config_validate : Wire → Limits → StackConfig → Result StackError (Unit {0})
config_validate wire limits c =
    if not (between 1_280 65_575 c.mtu)
      || (ltb limits.bytes_copied c.mtu
          || (ltb 8 (length c.addresses)
              || (ltb 4 (length c.routes)
                  || (any_invalid (address_valid wire) c.addresses
                      || (any_invalid (route_valid wire) c.routes
                          || not (timers_valid c.tcp_timers))))))
    then err invalid_stack_config
    else ok tt
