-- ===== src/Tcp.antt =====
-- native/smolnet_core/src/tcp.rs: families, endpoints, timers, and the records of TCP sockets and
-- listeners. smoltcp's address predicates are parameters (`Wire`), and a `SocketHandle` and an
-- `Instant` of smoltcp are the number and the integer of microseconds that they wrap.
pub mod Address
pub mod Endpoint
pub mod Ephemeral
use Prim.Native.Nat.{bit_and}
use smolnet.Prelude.{
  ℕ, ◌+◌, ◌*◌, ◌^◌, Bool, true, false, not, ◌&&◌, Option, none, some, List, [], ◌∷◌, ltb, leb, ◌==◌,
  if◌then◌else◌, min, get_or, take,
}
use smolnet.Prelude.Int.{ℤ}
use smolnet.Prelude.Result.{Result, ok, err}
use smolnet.Waiter.{SocketIdentity}
use smolnet.SocketTable
use smolnet.SocketTable.{SocketError}

abbrev pub default_buffer_bytes : ℕ
default_buffer_bytes = 256 * 1024

abbrev pub min_buffer_bytes : ℕ
min_buffer_bytes = 1024

abbrev pub max_buffer_bytes : ℕ
max_buffer_bytes = 1024 * 1024

abbrev pub ephemeral_port_first : ℕ
ephemeral_port_first = 49_152

abbrev pub ephemeral_port_last : ℕ
ephemeral_port_last = 50_175

abbrev pub listener_pool_max : ℕ
listener_pool_max = 4

pub data AddressFamily : Type 0 where
  inet inet6 : AddressFamily

-- The two forms of smoltcp's `IpAddress`, with their octets.
pub data IpAddress : Type 0 where
  ipv4 ipv6 : List ℕ → IpAddress

-- What the code asks smoltcp about an address.
pub record Wire : Type 0 where
  pub is_multicast : IpAddress → Bool
  pub is_broadcast : IpAddress → Bool
  pub is_unspecified : IpAddress → Bool
  pub is_unicast : IpAddress → Bool

unfoldable pub family_of : IpAddress → AddressFamily
family_of (ipv4 octets) = inet
family_of (ipv6 octets) = inet6

unfoldable pub family_matches : AddressFamily → IpAddress → Bool
family_matches inet (ipv4 octets) = true
family_matches inet (ipv6 octets) = false
family_matches inet6 (ipv4 octets) = false
family_matches inet6 (ipv6 octets) = true

pub record IpEndpoint : Type 0 where
  pub addr : IpAddress
  pub port : ℕ

pub record IpListenEndpoint : Type 0 where
  pub listen_addr : Option IpAddress
  pub listen_port : ℕ

pub record ValidatedEndpoint : Type 0 where
  pub address : IpAddress
  pub port : ℕ
  pub scope_id : ℕ

unfoldable pub ip_endpoint : ValidatedEndpoint → IpEndpoint
ip_endpoint e = record { addr = e.address; port = e.port }

unfoldable pub listen_endpoint : Wire → ValidatedEndpoint → IpListenEndpoint
listen_endpoint wire e = record {
  listen_addr = if wire.is_unspecified e.address then none else some e.address;
  listen_port = e.port;
}

pub record EncodedEndpoint : Type 0 where
  pub address : List ℕ
  pub port : ℕ
  pub scope_id : ℕ

abbrev pub octets_of : IpAddress → List ℕ
octets_of (ipv4 octets) = octets
octets_of (ipv6 octets) = octets

unfoldable pub encode_endpoint : IpEndpoint → ℕ → EncodedEndpoint
encode_endpoint e scope_id = record {
  address = octets_of e.addr;
  port = e.port;
  scope_id = scope_id;
}

abbrev pub all_zero : List ℕ → Bool
all_zero [] = true
all_zero (x ∷ xs) = x == 0 && all_zero xs

unfoldable pub ipv4_mapped : List ℕ → Bool
ipv4_mapped octets =
    all_zero (take 10 octets) && (get_or octets 10 0 == 0xff && get_or octets 11 0 == 0xff)

unfoldable pub link_local : List ℕ → Bool
link_local octets = get_or octets 0 0 == 0xfe && bit_and (get_or octets 1 0) 0xc0 == 0x80

unfoldable pub valid_buffer_bytes : ℕ → Bool
valid_buffer_bytes bytes = leb min_buffer_bytes bytes && leb bytes max_buffer_bytes

pub data ConnectFailure : Type 0 where
  refused reset timed_out : ConnectFailure

-- `unbound` is `Open` of the source.
pub data ConnectPhase : Type 0 where
  unbound bound connecting connected : ConnectPhase
  failed : ConnectFailure → ConnectPhase

unfoldable pub failure_error : ConnectFailure → SocketError
failure_error refused = SocketTable.connection_refused
failure_error reset = SocketTable.connection_reset
failure_error timed_out = SocketTable.connection_timeout

pub record TcpTimers : Type 0 where
  pub user_timeout : ℕ
  pub keepalive_idle : ℕ
  pub keepalive_interval : ℕ
  pub keepalive_probes : ℕ

abbrev pub max_millis : ℕ
max_millis = 86_400_000

unfoldable pub timers_default : TcpTimers
timers_default = record {
  user_timeout = 924_600;
  keepalive_idle = 7_200_000;
  keepalive_interval = 75_000;
  keepalive_probes = 9;
}

unfoldable pub timers_valid : TcpTimers → Bool
timers_valid t =
    (leb 1 t.user_timeout && leb t.user_timeout max_millis)
    && ((leb 1 t.keepalive_idle && leb t.keepalive_idle max_millis)
        && ((leb 1 t.keepalive_interval && leb t.keepalive_interval max_millis)
            && ltb 0 t.keepalive_probes))

pub record KeepAlive : Type 0 where
  pub idle : ℕ
  pub interval : ℕ
  pub probes : Option ℕ

-- Durations in milliseconds.
unfoldable pub keep_alive : TcpTimers → Bool → Option KeepAlive
keep_alive t enabled =
    if enabled
    then some (record {
      idle = t.keepalive_idle;
      interval = t.keepalive_interval;
      probes = some t.keepalive_probes;
    })
    else none

pub record TcpRecord : Type 0 where
  pub identity : SocketIdentity
  pub handle : ℕ
  pub family : AddressFamily
  pub phase : ConnectPhase
  pub local : Option IpEndpoint
  pub local_scope_id : ℕ
  pub remote : Option IpEndpoint
  pub remote_scope_id : ℕ
  pub read_shutdown : Bool
  pub write_shutdown : Bool
  pub close_deadline : Option ℤ
  pub accepted : Bool
  pub rcvbuf : ℕ
  pub sndbuf : ℕ

unfoldable pub new_record : SocketIdentity → ℕ → AddressFamily → ℕ → ℕ → TcpRecord
new_record identity handle family rcvbuf sndbuf = record {
  identity = identity;
  handle = handle;
  family = family;
  phase = unbound;
  local = none;
  local_scope_id = 0;
  remote = none;
  remote_scope_id = 0;
  read_shutdown = false;
  write_shutdown = false;
  close_deadline = none;
  accepted = false;
  rcvbuf = rcvbuf;
  sndbuf = sndbuf;
}

unfoldable pub accepted_record :
    SocketIdentity → ℕ → IpEndpoint → IpEndpoint → ℕ → ℕ → ℕ → TcpRecord
unfolding family_of
accepted_record identity handle local remote scope_id rcvbuf sndbuf = record {
  identity = identity;
  handle = handle;
  family = family_of local.addr;
  phase = connected;
  local = some local;
  local_scope_id = scope_id;
  remote = some remote;
  remote_scope_id = scope_id;
  read_shutdown = false;
  write_shutdown = false;
  close_deadline = none;
  accepted = true;
  rcvbuf = rcvbuf;
  sndbuf = sndbuf;
}

-- `pool` and `accepted` hold handles and identities, the first a set in its order.
pub record ListenerRecord : Type 0 where
  pub identity : SocketIdentity
  pub endpoint : ValidatedEndpoint
  pub listen : IpListenEndpoint
  pub local : IpEndpoint
  pub backlog : ℕ
  pub pool_target : ℕ
  pub pool : List ℕ
  pub accepted : List SocketIdentity
  pub rcvbuf : ℕ
  pub sndbuf : ℕ
  pub nodelay : Bool
  pub keepalive : Bool
