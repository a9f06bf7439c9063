-- ===== src/Tests/Wire.antt =====
-- native/smolnet_core/src/{tcp,stack}.rs: endpoints, ports, configurations and packets, with smoltcp's
-- predicates and parsers stood in for by functions on the first octets.
use smolnet.Prelude.{
  All, ℕ, ◌+◌, ◌-◌, ◌*◌, ◌≤◌, ◌<◌, ◌≡◌, ◌↔◌, ◌⊎◌, true, false, not, ◌&&◌, none, some, List, [], ◌∷◌,
  arith, length, ltb, leb, ◌==◌, if◌then◌else◌, get_or, replicate,
}
use smolnet.Prelude.Int.{pos}
use smolnet.Prelude.Result.{ok, err}
use smolnet.SocketTable.{SocketError}
use smolnet.Limits.{Limits}
use smolnet.Device.{BeamDevice, new, receive_fits}
use smolnet.Device.Queue.{total_bytes}
use smolnet.Tcp.{IpAddress, ipv4, ipv6, Wire, ValidatedEndpoint, timers_default}
use smolnet.Tcp.Endpoint.{TcpEndpoint, validate, Denotes, scope_fits, validate-Denotes}
use smolnet.Tcp.Ephemeral.{allocate_ephemeral, contains, candidate, clamp, allocate_ephemeral-first}
use smolnet.Stack.Config.{StackConfig, config_validate, invalid_packet, packet_too_large}
use smolnet.Stack.Configured.{IsUsableAddress, IsUsableRoute, AreUsableTimers, config_validate-ok}
use smolnet.Stack.Whole.{IsWhole, validate_raw_packet-cases}
use smolnet.Stack.Packet.{Parser, Ipv4View, tcp, validate_raw_packet}
use smolnet.Stack.Admission.{admit_batch, admit_batch-ok}

abbrev octet : ℕ → IpAddress → ℕ
octet i (ipv4 octets) = get_or octets i 0
octet i (ipv6 octets) = get_or octets i 0

abbrev wire : Wire
wire = record {
  is_multicast = λ a. leb 224 (octet 0 a) && leb (octet 0 a) 239;
  is_broadcast = λ a. octet 0 a == 255;
  is_unspecified = λ a. octet 0 a == 0;
  is_unicast = λ a. not (octet 0 a == 0) && ltb (octet 0 a) 224;
}

abbrev peer : TcpEndpoint
peer = record { address = 10 ∷ 0 ∷ 0 ∷ 7 ∷ []; port = pos 80; scope_id = pos 0 }

abbrev validated : ValidatedEndpoint
validated = record { address = ipv4 (10 ∷ 0 ∷ 0 ∷ 7 ∷ []); port = 80; scope_id = 0 }

validate-Denotes_example :
    (validate wire false peer ≡ ok validated)
    ↔ (Denotes wire false peer validated × (scope_fits validated.address validated.scope_id ≡ true))
validate-Denotes_example = validate-Denotes wire false peer validated

abbrev used : List ℕ
used = 12 ∷ 13 ∷ 10 ∷ []

allocate_ephemeral-first_example :
    ((port : ℕ)
      → allocate_ephemeral used 12 10 13 ≡ ok port
      → (10 ≤ port)
        × (port ≤ 13)
        × (contains used port ≡ false)
        × (o : ℕ) × (port ≡ candidate (clamp 12 10 13) 10 (13 - 10 + 1) o)
        × ((k : ℕ) → k < o → contains used (candidate (clamp 12 10 13) 10 (13 - 10 + 1) k) ≡ true))
    × (((x : SocketError) × (allocate_ephemeral used 12 10 13 ≡ err x))
        ↔ ((port : ℕ) → 10 ≤ port → port ≤ 13 → contains used port ≡ true))
allocate_ephemeral-first_example =
    allocate_ephemeral-first used 12 10 13 (omega arith) (omega arith)

abbrev limits : Limits
limits = record {
  bytes_copied = 2_000;
  input_packets = 4;
  output_packets = 4;
  ready_events = 4;
  maintenance_work = 4;
  sockets = 4;
}

abbrev config : StackConfig
config = record {
  mtu = 1_500;
  addresses = record { address = 10 ∷ 0 ∷ 0 ∷ 1 ∷ []; prefix_length = 24 } ∷ [];
  routes =
      record { destination = 0 ∷ 0 ∷ 0 ∷ 0 ∷ []; prefix_length = 0; gateway = 10 ∷ 0 ∷ 0 ∷ 9 ∷ [] }
      ∷ [];
  egress_credit = none;
  tcp_timers = timers_default;
}

config_validate-ok_example : (config_validate wire limits config ≡ ok tt) ↔ (
    (1_280 ≤ 1_500)
    × (1_500 ≤ 65_575)
    × (1_500 ≤ 2_000)
    × (1 ≤ 8)
    × (1 ≤ 4)
    × All (IsUsableAddress wire) config.addresses
    × All (IsUsableRoute wire) config.routes
    × AreUsableTimers timers_default)
config_validate-ok_example = config_validate-ok wire limits config

abbrev view : List ℕ → Ipv4View
view bytes = record {
  total_len = get_or bytes 2 0 * 256 + get_or bytes 3 0;
  checksum_ok = true;
  more_frags = false;
  frag_offset = 0;
  src_octets = [];
  dst_octets = [];
  next_header = tcp;
  payload = [];
}

abbrev parser : Parser
parser = record {
  ipv4_packet = λ bytes. if leb 20 (length bytes) then some (view bytes) else none;
  ipv6_packet = λ bytes. none;
  ext_header = λ bytes. none;
  tcp_packet = λ bytes. none;
}

abbrev packet : List ℕ
packet = 69 ∷ 0 ∷ 0 ∷ 20 ∷ replicate 16 0

validate_raw_packet-cases_example :
    ((validate_raw_packet parser packet 1_500 2_000 ≡ ok tt)
      ↔ (IsWhole parser packet × (length packet ≤ 1_500) × (length packet ≤ 2_000)))
    × ((validate_raw_packet parser packet 1_500 2_000 ≡ err invalid_packet)
        ↔ ¬ IsWhole parser packet)
    × ((validate_raw_packet parser packet 1_500 2_000 ≡ err packet_too_large)
        ↔ (IsWhole parser packet × ((1_500 < length packet) ⊎ (2_000 < length packet))))
validate_raw_packet-cases_example = validate_raw_packet-cases parser packet 1_500 2_000

abbrev device : BeamDevice
device = new 1_500 4 none

abbrev before : ℕ
before = 3

abbrev after : ℕ
after = 9

admit_batch-ok_example :
    (admit_batch parser limits 1_500 true device (packet ∷ packet ∷ []) before 7
      ≡ (ok 40, before, after))
    ↔ ((true ≡ true)
        × (2 ≤ 4)
        × All (λ p. validate_raw_packet parser p 1_500 2_000 ≡ ok tt) (packet ∷ packet ∷ [])
        × (40 ≡ total_bytes (packet ∷ packet ∷ []))
        × (40 ≤ 2_000)
        × (receive_fits 2 device ≡ true)
        × (before ≡ before)
        × (after ≡ 7 + 2))
admit_batch-ok_example =
    admit_batch-ok parser limits 1_500 true device (packet ∷ packet ∷ []) before 7 40 before after
