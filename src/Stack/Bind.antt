-- ===== src/Stack/Bind.antt =====
-- native/smolnet_core/src/stack.rs: `tcp_bind` up to `finish_call`. Whether an address is one of the
-- interface's is asked of smoltcp, by `has_ip_address`.
use smolnet.Prelude.{ℕ, Bool, true, false, not, ◌&&◌, Option, none, some, ◌==◌, if◌then◌else◌}
use smolnet.Prelude.Map.{get, write as map_write}
use smolnet.Prelude.Result.{Result, ok, err, ◌>>=◌, ◌>>◌, reject, ok_or}
use smolnet.Waiter.{SocketIdentity}
use smolnet.SocketTable.{
  SocketError, SocketKind, invalid_socket, invalid_state, invalid_address, address_in_use,
  address_not_available, validate,
}
use smolnet.Tcp.{
  IpAddress, Wire, ValidatedEndpoint, AddressFamily, family_matches, TcpRecord, ListenerRecord,
  ConnectPhase, unbound, bound, connecting, connected, failed,
}
use smolnet.Tcp.Endpoint.{TcpEndpoint, validate as endpoint_validate}
use smolnet.Stack.State.{StackSockets}
use smolnet.Stack.Capacity.{ensure_running}
use smolnet.Stack.Ports.{is_identity, port_in_use, allocate_ephemeral_port}

-- `self.tcp_listeners.get(&identity.id).is_some_and(..)`.
unfoldable pub is_listener : SocketIdentity → Option ListenerRecord → Bool
is_listener identity none = false
is_listener identity (some l) = is_identity l.identity (some identity)

-- `filter(|record| record.identity == identity)`.
unfoldable pub of_identity : SocketIdentity → Option TcpRecord → Option TcpRecord
of_identity identity none = none
of_identity identity (some r) = if is_identity r.identity (some identity) then some r else none

-- `tcp_record`, and the read of `tcp_record_mut`.
unfoldable pub tcp_record : SocketIdentity → StackSockets → Result SocketError TcpRecord
unfolding is_listener of_identity
tcp_record identity s = do
  reject (is_listener identity (get identity.id s.tcp_listeners)) invalid_state
  ok_or (of_identity identity (get identity.id s.tcp_records)) invalid_socket

abbrev pub is_unbound : ConnectPhase → Bool
is_unbound unbound = true
is_unbound bound = false
is_unbound connecting = false
is_unbound connected = false
is_unbound (failed x) = false

unfoldable pub pick_port :
    SocketIdentity → ℕ → AddressFamily → StackSockets → Result SocketError ℕ × StackSockets
pick_port identity port family s =
    if port == 0
    then allocate_ephemeral_port family s
    else if port_in_use port family (some identity) s
    then (err address_in_use, s)
    else (ok port, s)

abbrev pub bound_record : ValidatedEndpoint → ℕ → TcpRecord → TcpRecord
bound_record e port r = record r {
  phase = bound;
  local = some (record { addr = e.address; port = port });
  local_scope_id = e.scope_id;
}

unfoldable pub write_bound :
    SocketIdentity
    → ValidatedEndpoint
    → ℕ
    → StackSockets
    → Result SocketError (Unit {0}) × StackSockets
write_bound identity e port s = elim (tcp_record identity s) [
  | err x ↦ (err x, s)
  | ok r ↦ (
    ok tt,
    record s { tcp_records = map_write identity.id (bound_record e port r) s.tcp_records },
  )
]

module _ (wire : Wire) (has_ip_address : IpAddress → Bool) where
  -- Everything that `tcp_bind` checks before it picks a port.
  unfoldable pub may_bind :
      SocketIdentity
      → TcpEndpoint
      → StackSockets
      → Result SocketError (ValidatedEndpoint × TcpRecord)
  may_bind identity endpoint s = do
    ensure_running s
    entry ← validate s.socket_table.table identity SocketKind.tcp
    e ← endpoint_validate wire true endpoint
    r ← tcp_record identity s
    reject (not (is_unbound r.phase)) invalid_state
    reject (not (family_matches r.family e.address)) invalid_address
    reject (not (wire.is_unspecified e.address) && not (has_ip_address e.address))
        address_not_available
    ok (e, r)

  unfoldable pub tcp_bind :
      SocketIdentity → TcpEndpoint → StackSockets → Result SocketError (Unit {0}) × StackSockets
  tcp_bind identity endpoint s = elim (may_bind identity endpoint s) [
    | err x ↦ (err x, s)
    | ok (e, r) ↦
        let (port, s') = pick_port identity e.port r.family s in
        elim port [ err x ↦ (err x, s') | ok p ↦ write_bound identity e p s' ]
  ]
