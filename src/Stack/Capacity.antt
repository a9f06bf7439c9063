-- ===== src/Stack/Capacity.antt =====
-- native/smolnet_core/src/stack.rs: what a stack may hold, and the two operations that open a socket.
-- A sum of buffer sizes is the number itself: 64 bits hold any of a stack within its limits.
use smolnet.Prelude.{ℕ, ◌+◌, ◌-◌, ◌*◌, not, ◌&&◌, ◌||◌, ◌∷◌, ltb, leb, if◌then◌else◌, length}
use smolnet.Prelude.Map.{insert as map_insert, total}
use smolnet.Prelude.Result.{Result, ok, err, ◌>>◌, reject}
use smolnet.Device.{usize_max}
use smolnet.Waiter.{SocketIdentity}
use smolnet.SocketTable.{
  SocketError, closed, system_limit, invalid_options, SocketKind, tcp, udp, len,
}
use smolnet.SocketTable.Ops.{insert}
use smolnet.Tcp.{
  TcpRecord, ListenerRecord, AddressFamily, max_buffer_bytes, valid_buffer_bytes, new_record,
}
use smolnet.Udp.{UdpRecord, new_udp, buffer_bytes}
use smolnet.Stack.State.{is_running, StackSockets, remove_handle}

abbrev pub max_socket_buffer_bytes : ℕ
max_socket_buffer_bytes = 64 * 2 * max_buffer_bytes

unfoldable pub ensure_running : StackSockets → Result SocketError (Unit {0})
ensure_running s = if is_running s.lifecycle then ok tt else err closed

-- `checked_add`, then the limit.
unfoldable pub ensure_logical_socket_capacity : StackSockets → Result SocketError (Unit {0})
ensure_logical_socket_capacity s =
    let count = len s.socket_table.table + length s.closing_tcp in
    if ltb usize_max count || leb s.limits.sockets count then err system_limit else ok tt

abbrev pub tcp_bytes : TcpRecord → ℕ
tcp_bytes r = r.rcvbuf + r.sndbuf

abbrev pub listener_bytes : ListenerRecord → ℕ
listener_bytes l = length l.pool * (l.rcvbuf + l.sndbuf)

abbrev pub udp_bytes : UdpRecord → ℕ
udp_bytes r = length r.handles * buffer_bytes

unfoldable pub socket_buffer_bytes : StackSockets → ℕ
socket_buffer_bytes s =
    total tcp_bytes s.tcp_records
    + total listener_bytes s.tcp_listeners
    + total udp_bytes s.udp_records

unfoldable pub ensure_socket_buffer_capacity : ℕ → StackSockets → Result SocketError (Unit {0})
ensure_socket_buffer_capacity added s =
    let bytes = socket_buffer_bytes s + added in
    if leb bytes usize_max && leb bytes max_socket_buffer_bytes then ok tt else err system_limit

-- `checked_sub` and `checked_add`, then the limit.
unfoldable pub ensure_native_socket_capacity : ℕ → ℕ → StackSockets → Result SocketError (Unit {0})
ensure_native_socket_capacity added removed s =
    if ltb (length s.sockets) removed
    then err system_limit
    else let count = length s.sockets - removed + added in
      if ltb usize_max count || ltb s.limits.sockets count then err system_limit else ok tt

-- The checks of `tcp_open`, those of `tcp_support::socket` last.
unfoldable pub may_open_tcp : ℕ → ℕ → StackSockets → Result SocketError (Unit {0})
may_open_tcp rcvbuf sndbuf s = do
  ensure_running s
  ensure_logical_socket_capacity s
  ensure_native_socket_capacity 1 0 s
  reject (not (valid_buffer_bytes rcvbuf) || not (valid_buffer_bytes sndbuf)) invalid_options
  ensure_socket_buffer_capacity (rcvbuf + sndbuf) s
  reject (not (valid_buffer_bytes rcvbuf) || not (valid_buffer_bytes sndbuf)) invalid_options

unfoldable pub may_open_udp : StackSockets → Result SocketError (Unit {0})
may_open_udp s = do
  ensure_running s
  ensure_logical_socket_capacity s
  ensure_native_socket_capacity 1 0 s
  ensure_socket_buffer_capacity buffer_bytes s

-- From `self.sockets.add` on: `handle` is what smoltcp's set gives, and is removed again where the
-- table takes no entry. `record_of` writes the record of the new socket.
unfoldable pub open_with :
    SocketKind
    → ℕ
    → (SocketIdentity → StackSockets → StackSockets)
    → StackSockets
    → Result SocketError SocketIdentity × StackSockets
open_with kind handle record_of s =
    let added = handle ∷ s.sockets in
    let (result, table) = insert kind 0 s.socket_table in
    elim result [
      | err e ↦ (err e, record s { sockets = remove_handle handle added; socket_table = table })
      | ok identity ↦
          (ok identity, record_of identity (record s { sockets = added; socket_table = table }))
    ]

abbrev pub add_tcp_record : AddressFamily → ℕ → ℕ → ℕ → SocketIdentity → StackSockets → StackSockets
add_tcp_record family rcvbuf sndbuf handle identity s = record s {
  tcp_records =
      map_insert identity.id (new_record identity handle family rcvbuf sndbuf) s.tcp_records;
}

abbrev pub add_udp_record : AddressFamily → ℕ → SocketIdentity → StackSockets → StackSockets
add_udp_record family handle identity s = record s {
  udp_records = map_insert identity.id (new_udp identity handle family) s.udp_records;
}

unfoldable pub tcp_open :
    AddressFamily → ℕ → ℕ → ℕ → StackSockets → Result SocketError SocketIdentity × StackSockets
tcp_open family rcvbuf sndbuf handle s = elim (may_open_tcp rcvbuf sndbuf s) [
  | err e ↦ (err e, s)
  | ok u ↦ open_with tcp handle (add_tcp_record family rcvbuf sndbuf handle) s
]

unfoldable pub udp_open :
    AddressFamily → ℕ → StackSockets → Result SocketError SocketIdentity × StackSockets
udp_open family handle s = elim (may_open_udp s) [
  | err e ↦ (err e, s)
  | ok u ↦ open_with udp handle (add_udp_record family handle) s
]
