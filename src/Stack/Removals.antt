-- ===== src/Stack/Removals.antt =====
-- native/smolnet_core/src/stack.rs: what a shutdown has still to do, and what its removals leave of it.
use smolnet.Prelude.{
  ℕ, ◌+◌, ◌*◌, ◌≤◌, ◌≡◌, refl, length, true, Option, none, some, List, [], ◌∷◌, ◌++◌, map, ◌==◌,
  arith, Option-cases, inl, inr, ◌⊎◌,
}
use smolnet.Prelude.Int.{ℤ}
use smolnet.Prelude.Map.{Map, get, remove}
use smolnet.Prelude.Result.{ok}
use smolnet.Waiter.{SocketIdentity}
use smolnet.SocketTable.{State, SocketEntry}
use smolnet.SocketTable.Ops.{close_next, close, first_identity, waiters_of}
use smolnet.Tcp.{IpEndpoint}
use smolnet.Stack.Connections.{
  ConnectionKey, remove_connection, remove_id, remove_deadline, connection_key,
}
use smolnet.Stack.Native.{NativeStack, PendingNotification}
use smolnet.Stack.Shutdown.{
  notification_of, close_socket, drop_deadline, drop_connection, drop_record, shutdown_unit,
}

-- What a table has still to abort, and what a stack has.
unfoldable pub table_aborts : Map (ℕ × SocketEntry) → List PendingNotification
table_aborts [] = []
table_aborts ((id, (generation, entry)) ∷ m) =
    map (notification_of (record { id = id; generation = generation })) (waiters_of entry)
    ++ table_aborts m

unfoldable pub aborts_owed : {B : Type 0} → NativeStack B → List PendingNotification
aborts_owed s = s.pending_notifications ++ table_aborts s.sockets.socket_table.entries

-- The structures and the aborts that a shutdown has still to deal with; a socket counts three times, for
-- itself and its waiters.
unfoldable pub remains : {B : Type 0} → NativeStack B → ℕ
remains s =
    3 * length s.sockets.socket_table.entries
    + length s.sockets.tcp_records
    + length s.sockets.tcp_listeners
    + length s.sockets.udp_records
    + length s.tcp_connections
    + length s.sockets.closing_tcp
    + length s.closing_deadlines
    + length s.device.receive
    + length s.device.transmit
    + length s.pending_notifications

pub length-remove_id : (k : ℕ) (js : List ℕ) → length (remove_id k js) ≤ length js
unfolding remove_id
length-remove_id k [] = omega arith
length-remove_id k (j ∷ js) = ground (arith, length-remove_id k js)

length-remove_deadline :
    (at : ℤ) (k : ℕ) (ds : List (ℤ × ℕ)) → length (remove_deadline at k ds) ≤ length ds
unfolding remove_deadline
length-remove_deadline at k [] = omega arith
length-remove_deadline at k ((t, j) ∷ ds) = ground (arith, length-remove_deadline at k ds)

pub length-drop_deadline :
    (o : Option ℤ) (k : ℕ) (ds : List (ℤ × ℕ)) → length (drop_deadline o k ds) ≤ length ds
unfolding drop_deadline
length-drop_deadline none k ds = omega arith
length-drop_deadline (some at) k ds = length-remove_deadline at k ds

length-remove_connection :
    (k : ConnectionKey) (m : List (ConnectionKey × SocketIdentity))
    → length (remove_connection k m) ≤ length m
unfolding remove_connection
length-remove_connection k [] = omega arith
length-remove_connection k ((j, i) ∷ m) = ground (arith, length-remove_connection k m)

pub length-drop_connection :
    (l r : Option IpEndpoint) (m : List (ConnectionKey × SocketIdentity))
    → length (drop_connection l r m) ≤ length m
unfolding drop_connection
length-drop_connection none r m = omega arith
length-drop_connection (some l) none m = omega arith
length-drop_connection (some l) (some r) m = length-remove_connection (connection_key l r) m

pub length-waiters_of : (e : SocketEntry) → length (waiters_of e) ≤ 2
length-waiters_of e = elim (Option-cases e.read_waiter) [
  | inl r ↦ elim (Option-cases e.write_waiter) [
    | inl w ↦ rw (r, w) (omega arith)
    | inr (x, w) ↦ rw (r, w) (omega arith)
  ]
  | inr (x, r) ↦ elim (Option-cases e.write_waiter) [
    | inl w ↦ rw (r, w) (omega arith)
    | inr (y, w) ↦ rw (r, w) (omega arith)
  ]
]

-- The first socket of a table is closed, and its waiters come out.
pub record FirstClosed (s : State) : Type 0 where
  pub id : ℕ
  pub generation : ℕ
  pub entry : SocketEntry
  pub left : Map (ℕ × SocketEntry)
  pub entries : s.entries ≡ (id, (generation, entry)) ∷ left
  pub closed :
      (close_next s).0 ≡ some (record { id = id; generation = generation }, ok (waiters_of entry))
  pub after : (close_next s).1.entries ≡ left

close_next-first :
    (id g : ℕ) (e : SocketEntry) (m : Map (ℕ × SocketEntry)) (s : State)
    → s.entries ≡ (id, (g, e)) ∷ m
    → FirstClosed s
unfolding close_next first_identity close get remove
close_next-first id g e m s h =
    let at : get id s.entries ≡ some (g, e) = rw h (ground arith) in
    let left : remove id s.entries ≡ m = rw h (ground arith) in
    let same : (g == g) ≡ true = ground arith in
    record {
      id = id;
      generation = g;
      entry = e;
      left = m;
      entries = h;
      closed = rw (h, close_next, at, close, same) refl;
      after = rw (h, close_next, at, close, same, left) refl;
    }

pub shutdown_unit-cases :
    {B : Type 0} (s : NativeStack B)
    → ((f : FirstClosed s.sockets.socket_table) × (shutdown_unit s ≡ (
      true,
      close_socket
          (record { id = f.id; generation = f.generation })
          (ok (waiters_of f.entry))
          (close_next s.sockets.socket_table).1
          s,
    )))
      ⊎ ((s.sockets.socket_table.entries ≡ [])
          × (shutdown_unit s
              ≡ drop_record s.sockets.tcp_records s.sockets.tcp_listeners s.sockets.udp_records s))
unfolding shutdown_unit close_next first_identity
shutdown_unit-cases s = first s.sockets.socket_table.entries refl
  where
    first :
        (m : Map (ℕ × SocketEntry))
        → s.sockets.socket_table.entries ≡ m
        → ((f : FirstClosed s.sockets.socket_table) × (shutdown_unit s ≡ (
          true,
          close_socket
              (record { id = f.id; generation = f.generation })
              (ok (waiters_of f.entry))
              (close_next s.sockets.socket_table).1
              s,
        )))
          ⊎ ((s.sockets.socket_table.entries ≡ [])
              × (shutdown_unit s
                  ≡ drop_record s.sockets.tcp_records s.sockets.tcp_listeners s.sockets.udp_records
                      s))
    first [] h =
        let none_closed : (close_next s.sockets.socket_table).0 ≡ none = rw (h, close_next) refl in
        inr (h, rw (none_closed, shutdown_unit) refl)
    first ((id, (g, e)) ∷ m) h =
        let f = close_next-first id g e m s.sockets.socket_table h in
        inl (f, rw (f.closed, shutdown_unit) refl)
