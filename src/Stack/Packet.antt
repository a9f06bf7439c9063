-- ===== src/Stack/Packet.antt =====
-- native/smolnet_core/src/stack.rs: which packets a stack lets in, and what it reads of their headers.
-- smoltcp's parsers are parameters: `new_checked` of each packet type, as what its accessors then say.
use smolnet.Prelude.{
  ℕ, ◌+◌, ◌*◌, ◌/◌, ◌≡◌, refl, Bool, true, false, not, ◌&&◌, ◌||◌, Option, none, some, List, [],
  ◌∷◌, ltb, leb, ◌==◌, if◌then◌else◌, length, drop,
}
use smolnet.Prelude.Result.{Result, ok, err, ◌>>◌, reject}
use smolnet.Tcp.{IpAddress, ipv4, ipv6}
use smolnet.Stack.Config.{StackError, invalid_packet, packet_too_large}

pub data Protocol : Type 0 where
  hop_by_hop tcp other : Protocol

pub record Ipv4View : Type 0 where
  pub total_len : ℕ
  pub checksum_ok : Bool
  pub more_frags : Bool
  pub frag_offset : ℕ
  pub src_octets : List ℕ
  pub dst_octets : List ℕ
  pub next_header : Protocol
  pub payload : List ℕ

pub record Ipv6View : Type 0 where
  pub payload_len : ℕ
  pub src_octets : List ℕ
  pub dst_octets : List ℕ
  pub next_header : Protocol
  pub payload : List ℕ

pub record ExtView : Type 0 where
  pub next_header : Protocol
  pub header_len : ℕ

pub record TcpView : Type 0 where
  pub src_port : ℕ
  pub dst_port : ℕ
  pub syn : Bool
  pub ack : Bool
  pub rst : Bool

-- smoltcp's `new_checked`, which is `none` where the header does not fit the bytes.
pub record Parser : Type 0 where
  pub ipv4_packet : List ℕ → Option Ipv4View
  pub ipv6_packet : List ℕ → Option Ipv6View
  pub ext_header : List ℕ → Option ExtView
  pub tcp_packet : List ℕ → Option TcpView

-- `packet.first()? >> 4`.
unfoldable pub version : List ℕ → Option ℕ
version [] = none
version (b ∷ bs) = some (b / 16)

unfoldable pub ipv4_whole : ℕ → Option Ipv4View → Bool
ipv4_whole len none = false
ipv4_whole len (some v) =
    v.total_len == len && (v.checksum_ok && (not v.more_frags && v.frag_offset == 0))

-- `checked_add` of 40 to a 16-bit length does not overflow.
unfoldable pub ipv6_whole : ℕ → Option Ipv6View → Bool
ipv6_whole len none = false
ipv6_whole len (some v) = 40 + v.payload_len == len

unfoldable pub whole_packet : Parser → List ℕ → Bool
unfolding version ipv4_whole ipv6_whole
whole_packet parser packet = elim (version packet) [
  | none ↦ false
  | some v ↦
      if v == 4
      then ipv4_whole (length packet) (parser.ipv4_packet packet)
      else if v == 6
      then ipv6_whole (length packet) (parser.ipv6_packet packet)
      else false
]

unfoldable pub is_empty : List ℕ → Bool
is_empty [] = true
is_empty (b ∷ bs) = false

unfoldable pub validate_raw_packet : Parser → List ℕ → ℕ → ℕ → Result StackError (Unit {0})
unfolding is_empty
validate_raw_packet parser packet mtu bytes_copied = do
  reject (is_empty packet) invalid_packet
  reject (not (whole_packet parser packet)) invalid_packet
  reject (ltb mtu (length packet) || ltb bytes_copied (length packet)) packet_too_large
  ok tt

-- The transport header of an IPv6 packet: behind one hop-by-hop extension, if there is one.
unfoldable pub slice_from : ℕ → List ℕ → Option (List ℕ)
slice_from n bytes = if leb n (length bytes) then some (drop n bytes) else none

unfoldable pub ipv6_transport : Parser → Ipv6View → Option (Protocol × List ℕ)
unfolding slice_from
ipv6_transport parser v = elim v.next_header [
  | hop_by_hop ↦ elim (parser.ext_header v.payload) [
    | none ↦ none
    | some ext ↦ elim (slice_from ((ext.header_len + 1) * 8) v.payload) [
      | none ↦ none
      | some rest ↦ some (ext.next_header, rest)
    ]
  ]
  | tcp ↦ some (tcp, v.payload)
  | other ↦ some (other, v.payload)
]

-- A first segment: the destination, if the transport is TCP with a SYN and no ACK.
unfoldable pub first_segment : Parser → IpAddress → Protocol × List ℕ → Option (IpAddress × ℕ)
first_segment parser destination (hop_by_hop, transport) = none
first_segment parser destination (other, transport) = none
first_segment parser destination (tcp, transport) = elim (parser.tcp_packet transport) [
  | none ↦ none
  | some segment ↦
      if segment.syn && not segment.ack then some (destination, segment.dst_port) else none
]

unfoldable pub tcp_listener_target : Parser → List ℕ → Option (IpAddress × ℕ)
unfolding version ipv6_transport first_segment
tcp_listener_target parser packet = elim (version packet) [
  | none ↦ none
  | some v ↦
      if v == 4
      then elim (parser.ipv4_packet packet) [
        | none ↦ none
        | some view ↦ first_segment parser (ipv4 view.dst_octets) (view.next_header, view.payload)
      ]
      else if v == 6
      then elim (parser.ipv6_packet packet) [
        | none ↦ none
        | some view ↦ elim (ipv6_transport parser view) [
          | none ↦ none
          | some transport ↦ first_segment parser (ipv6 view.dst_octets) transport
        ]
      ]
      else none
]

-- `validate_packet`: the result, and the count of rejected packets.
unfoldable pub validate_packet : Parser → List ℕ → ℕ → ℕ → ℕ → Result StackError (Unit {0}) × ℕ
unfolding validate_raw_packet
validate_packet parser packet mtu bytes_copied rejected =
    if is_empty packet
    then (err invalid_packet, rejected + 1)
    else elim (validate_raw_packet parser packet mtu bytes_copied) [
      | ok u ↦ (ok tt, rejected)
      | err e ↦ (err e, rejected + 1)
    ]

pub validate_raw_packet-nil :
    (parser : Parser) (mtu limit : ℕ) → validate_raw_packet parser [] mtu limit ≡ err invalid_packet
unfolding validate_raw_packet
validate_raw_packet-nil parser mtu limit = refl
