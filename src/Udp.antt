-- ===== src/Udp.antt =====
-- native/smolnet_core/src/udp.rs: the record of a UDP socket, and the largest datagram it sends.
-- The smoltcp socket itself, with its two rings, is not modelled.
use smolnet.Prelude.{ℕ, ◌-◌, ◌*◌, Option, none, List, [], ◌∷◌, min}
use smolnet.Waiter.{SocketIdentity}
use smolnet.Tcp.{AddressFamily, inet, inet6, ValidatedEndpoint}

abbrev pub packet_capacity : ℕ
packet_capacity = 16

abbrev pub payload_bytes : ℕ
payload_bytes = 16 * 1024

abbrev pub buffer_bytes : ℕ
buffer_bytes = 2 * payload_bytes

pub record UdpRecord : Type 0 where
  pub identity : SocketIdentity
  pub handles : List ℕ
  pub family : AddressFamily
  pub local : Option ValidatedEndpoint
  pub peer : Option ValidatedEndpoint
  pub receive_cursor : ℕ

unfoldable pub new_udp : SocketIdentity → ℕ → AddressFamily → UdpRecord
new_udp identity handle family = record {
  identity = identity;
  handles = handle ∷ [];
  family = family;
  local = none;
  peer = none;
  receive_cursor = 0;
}

abbrev pub header_bytes : AddressFamily → ℕ
header_bytes inet = 28
header_bytes inet6 = 48

-- `saturating_sub` is the subtraction that stops at 0.
unfoldable pub max_datagram_bytes : ℕ → AddressFamily → ℕ
max_datagram_bytes mtu family = min (mtu - header_bytes family) payload_bytes
