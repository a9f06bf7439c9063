-- ===== src/Tests/Sockets.antt =====
-- native/smolnet_core/src/stack.rs: a stack with one socket of each kind, and its theorems there.
use smolnet.Prelude.{
  get_or, ◌==◌, Bool, List, ℕ, ◌+◌, ◌≤◌, ◌≡◌, ◌↔◌, ◌⊎◌, refl, true, false, Option, none, some, [],
  ◌∷◌, arith,
}
use smolnet.Prelude.Map.{get, total}
use smolnet.Prelude.Result.{Result, ok, err}
use smolnet.Limits.{Limits}
use smolnet.Waiter.{SocketIdentity, Flags}
use smolnet.SocketTable.{SocketEntry, SocketError, SocketKind, new, validate}
use smolnet.Prelude.Int.{pos}
use smolnet.Tcp.Endpoint.{TcpEndpoint}
use smolnet.Stack.Bind.{tcp_bind}
use smolnet.Stack.Sharing.{IsUnshared, tcp_bind-IsUnshared}
use smolnet.Stack.History.{
  SocketCall, opens_tcp, opens_udp, binds_tcp, fresh_stack, calls, calls-IsUnshared,
}
use smolnet.Tcp.{
  Wire, IpAddress, ipv6, inet, ipv4, new_record, bound, ephemeral_port_first, ephemeral_port_last,
}
use smolnet.Tcp.Ephemeral.{allocate_ephemeral, search_from, contains}
use smolnet.Stack.State.{running, StackSockets}
use smolnet.Stack.Capacity.{tcp_open, socket_buffer_bytes}
use smolnet.Stack.Opening.{HasRoom, tcp_open-HasRoom, tcp_open-cases}
use smolnet.Stack.Ports.{
  allocate_ephemeral_port, allocate_udp_ephemeral_port, port_in_use, udp_port_in_use, record_ports,
  listener_ports, allocate_ephemeral_port-unused, allocate_udp_ephemeral_port-unused,
}

abbrev wire : Wire
wire = record {
  is_multicast = λ a. false;
  is_broadcast = λ a. false;
  is_unspecified = λ a. false;
  is_unicast = λ a. true;
}

abbrev local_only : IpAddress → Bool
local_only (ipv4 octets) = get_or octets 0 0 == 10
local_only (ipv6 octets) = false

abbrev limits : Limits
limits = record {
  bytes_copied = 2_000;
  input_packets = 4;
  output_packets = 4;
  ready_events = 4;
  maintenance_work = 4;
  sockets = 4;
}

abbrev unset : Flags
unset = record { fresh = 0; cell = λ a. false }

abbrev stack : StackSockets
stack = record {
  limits = limits;
  lifecycle = running;
  sockets = [];
  socket_table = record { table = new 4 8; next_socket_id = 1; next_generation = 1; flags = unset };
  tcp_records = [];
  tcp_listeners = [];
  udp_records = [];
  closing_tcp = [];
  next_ephemeral_port = ephemeral_port_first;
  next_udp_ephemeral_port = ephemeral_port_first;
}

stack-HasRoom : HasRoom stack
unfolding new socket_buffer_bytes total
stack-HasRoom = record { logical = omega arith; native = omega arith; buffers = omega arith }

tcp_open-HasRoom_example : HasRoom (tcp_open inet 4_096 4_096 7 stack).1
tcp_open-HasRoom_example = tcp_open-HasRoom inet 4_096 4_096 7 stack stack-HasRoom

abbrev opened : Result SocketError SocketIdentity × StackSockets
opened = tcp_open inet 4_096 4_096 7 stack

tcp_open-cases_example :
    ((x : SocketError) × (opened.0 ≡ err x)
      × (opened.1.socket_table.table ≡ stack.socket_table.table)
      × (opened.1.tcp_records ≡ [])
      × (opened.1.sockets ≡ []))
    ⊎ ((i : SocketIdentity) × (e : SocketEntry) × (opened.0 ≡ ok i)
        × (validate opened.1.socket_table.table i SocketKind.tcp ≡ ok e)
        × (get i.id opened.1.tcp_records ≡ some (new_record i 7 inet 4_096 4_096))
        × (opened.1.sockets ≡ 7 ∷ []))
tcp_open-cases_example = tcp_open-cases inet 4_096 4_096 7 stack

abbrev first : SocketIdentity
first = record { id = 1; generation = 1 }

-- A socket that is bound to the first ephemeral port, where the search also starts.
abbrev taken : StackSockets
taken = record stack {
  tcp_records =
      (
        1,
        record (new_record first 7 inet 4_096 4_096) {
          phase = bound;
          local = some (record { addr = ipv4 (10 ∷ 0 ∷ 0 ∷ 1 ∷ []); port = ephemeral_port_first });
        },
      )
      ∷ [];
}

taken_lem : (allocate_ephemeral_port inet taken).0 ≡ ok (ephemeral_port_first + 1)
unfolding allocate_ephemeral_port record_ports listener_ports allocate_ephemeral search_from
    contains new_record
taken_lem = refl

allocate_ephemeral_port-unused_example :
    (ephemeral_port_first ≤ ephemeral_port_first + 1)
    × (ephemeral_port_first + 1 ≤ ephemeral_port_last)
    × ((excluding : Option SocketIdentity)
        → port_in_use (ephemeral_port_first + 1) inet excluding taken ≡ false)
    × (ephemeral_port_first ≤ (allocate_ephemeral_port inet taken).1.next_ephemeral_port)
    × ((allocate_ephemeral_port inet taken).1.next_ephemeral_port ≤ ephemeral_port_last)
allocate_ephemeral_port-unused_example =
    allocate_ephemeral_port-unused inet taken (ephemeral_port_first + 1) taken_lem

allocate_udp_ephemeral_port-unused_example :
    ((port : ℕ)
      → (allocate_udp_ephemeral_port inet stack).0 ≡ ok port
      → (ephemeral_port_first ≤ port)
        × (port ≤ ephemeral_port_last)
        × (udp_port_in_use port inet none stack ≡ false))
    × (((x : SocketError) × ((allocate_udp_ephemeral_port inet stack).0 ≡ err x)) ↔ (
        (port : ℕ)
        → ephemeral_port_first ≤ port
        → port ≤ ephemeral_port_last
        → udp_port_in_use port inet none stack ≡ true))
allocate_udp_ephemeral_port-unused_example = allocate_udp_ephemeral_port-unused inet stack

abbrev endpoint : TcpEndpoint
endpoint = record { address = 10 ∷ 0 ∷ 0 ∷ 1 ∷ []; port = pos 80; scope_id = pos 0 }

-- The second bind is to a port that is taken.
abbrev script : List SocketCall
script =
    opens_tcp inet 4_096 4_096 7
    ∷ opens_udp inet 8
    ∷ opens_tcp inet 4_096 4_096 9
    ∷ binds_tcp first endpoint
    ∷ binds_tcp (record { id = 3; generation = 3 }) endpoint
    ∷ []

calls-IsUnshared_example :
    HasRoom (calls wire local_only script (fresh_stack limits 1 1 unset))
    × IsUnshared (calls wire local_only script (fresh_stack limits 1 1 unset))
calls-IsUnshared_example = calls-IsUnshared wire local_only script limits 1 1 unset

prepared : StackSockets
prepared = calls wire local_only script (fresh_stack limits 1 1 unset)

prepared-IsUnshared : IsUnshared prepared
unfolding prepared
prepared-IsUnshared = (calls-IsUnshared wire local_only script limits 1 1 unset).1

tcp_bind-IsUnshared_example : IsUnshared (tcp_bind wire local_only first endpoint prepared).1
tcp_bind-IsUnshared_example =
    tcp_bind-IsUnshared wire local_only first endpoint prepared prepared-IsUnshared
