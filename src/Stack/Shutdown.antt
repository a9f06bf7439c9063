-- ===== src/Stack/Shutdown.antt =====
-- native/smolnet_core/src/stack.rs: the shutdown of a stack, in slices: `shutdown_work` takes structures
-- away one at a time, each call's end sends the aborts that this makes due.
use smolnet.Prelude.{
  ℕ, zero, suc, Bool, true, false, not, ◌||◌, Option, none, some, List, [], ◌∷◌, ◌++◌, map, ltb,
  if◌then◌else◌,
}
use smolnet.Prelude.Map.{Map}
use smolnet.Prelude.Result.{Result, ok, err}
use smolnet.Prelude.Int.{ℤ}
use smolnet.Limits.{Work}
use smolnet.Waiter.{Direction, Waiter, SocketIdentity}
use smolnet.Waiter.Queue.{LockState, has_pending}
use smolnet.SocketTable.{State, SocketError, len}
use smolnet.SocketTable.Ops.{close_next}
use smolnet.Device.{discard_one, queued_packets}
use smolnet.Tcp.{TcpRecord, ListenerRecord, IpEndpoint}
use smolnet.Udp.{UdpRecord}
use smolnet.Stack.State.{Lifecycle, running, shutting_down, shutdown, remove_handle}
use smolnet.Stack.Connections.{
  ConnectionKey, connection_key, remove_connection, remove_id, remove_deadline,
}
use smolnet.Stack.Native.{
  NativeStack, Env, AbortReason, PendingNotification, Effects, empty_effects, Envelope, ReadySweep,
  observe, within_budget,
}
use smolnet.Stack.Calls.{Progress, count_unit, finish_call}
use smolnet.Device.{is_empty}

abbrev pub notification_of : SocketIdentity → Direction × Waiter → PendingNotification
notification_of identity (direction, waiter) = record {
  identity = identity;
  direction = direction;
  waiter = waiter;
}

abbrev pub remove_handles : List ℕ → List ℕ → List ℕ
remove_handles [] handles = handles
remove_handles (h ∷ hs) handles = remove_handles hs (remove_handle h handles)

unfoldable pub drop_deadline : Option ℤ → ℕ → List (ℤ × ℕ) → List (ℤ × ℕ)
drop_deadline none id ds = ds
drop_deadline (some at) id ds = remove_deadline at id ds

unfoldable pub drop_connection :
    Option IpEndpoint
    → Option IpEndpoint
    → List (ConnectionKey × SocketIdentity)
    → List (ConnectionKey × SocketIdentity)
drop_connection (some local) (some remote) m = remove_connection (connection_key local remote) m
drop_connection (some local) none m = m
drop_connection none remote m = m

abbrev pub no_sweep : ReadySweep
no_sweep = record { sweeping = false; cursor = none; resweep = false; pending = [] }

module _ {B : Type 0} where
  -- A socket of the table is closed: its waiters become pending. An error is a panic of `close_next`.
  unfoldable pub close_socket :
      SocketIdentity
      → Result SocketError (List (Direction × Waiter))
      → State
      → NativeStack B
      → NativeStack B
  close_socket identity (err e) table s = record s {
    sockets = record s.sockets { socket_table = table };
  }
  close_socket identity (ok waiters) table s = record s {
    sockets = record s.sockets { socket_table = table };
    pending_notifications = s.pending_notifications ++ map (notification_of identity) waiters;
  }

  unfoldable pub drop_tcp_record : ℕ → TcpRecord → Map TcpRecord → NativeStack B → NativeStack B
  drop_tcp_record id r left s = record s {
    sockets = record s.sockets {
      tcp_records = left;
      sockets = remove_handle r.handle s.sockets.sockets;
      closing_tcp = remove_id id s.sockets.closing_tcp;
    };
    closing_deadlines = drop_deadline r.close_deadline id s.closing_deadlines;
    tcp_connections = drop_connection r.local r.remote s.tcp_connections;
  }

  unfoldable pub drop_listener : ListenerRecord → Map ListenerRecord → NativeStack B → NativeStack B
  drop_listener l left s = record s {
    sockets = record s.sockets {
      tcp_listeners = left;
      sockets = remove_handles l.pool s.sockets.sockets;
    };
  }

  unfoldable pub drop_udp_record : UdpRecord → Map UdpRecord → NativeStack B → NativeStack B
  drop_udp_record r left s = record s {
    sockets = record s.sockets {
      udp_records = left;
      sockets = remove_handles r.handles s.sockets.sockets;
    };
  }

  -- The last branch: an entry of an index, or a packet, is discarded.
  unfoldable pub discard_index :
      List (ConnectionKey × SocketIdentity)
      → List ℕ
      → List (ℤ × ℕ)
      → NativeStack B
      → Bool × NativeStack B
  discard_index (c ∷ cs) closing ds s = (true, record s { tcp_connections = cs })
  discard_index [] (i ∷ is) ds s =
      (true, record s { sockets = record s.sockets { closing_tcp = is } })
  discard_index [] [] (d ∷ ds) s = (true, record s { closing_deadlines = ds })
  discard_index [] [] [] s =
      let (discarded, device) = discard_one s.device in (discarded, record s { device = device })

  unfoldable pub drop_record :
      Map TcpRecord → Map ListenerRecord → Map UdpRecord → NativeStack B → Bool × NativeStack B
  unfolding drop_tcp_record drop_listener drop_udp_record discard_index
  drop_record ((id, r) ∷ left) ls us s = (true, drop_tcp_record id r left s)
  drop_record [] ((id, l) ∷ left) us s = (true, drop_listener l left s)
  drop_record [] [] ((id, u) ∷ left) s = (true, drop_udp_record u left s)
  drop_record [] [] [] s =
      discard_index s.tcp_connections s.sockets.closing_tcp s.closing_deadlines s

  -- One round of the loop of `shutdown_work`, and whether there was something to take away.
  unfoldable pub shutdown_unit : NativeStack B → Bool × NativeStack B
  unfolding close_socket drop_record
  shutdown_unit s =
      let (closed, table) = close_next s.sockets.socket_table in
      elim closed [
        | some (identity, result) ↦ (true, close_socket identity result table s)
        | none ↦ drop_record s.sockets.tcp_records s.sockets.tcp_listeners s.sockets.udp_records s
      ]

  unfoldable pub shutdown_structures_pending : NativeStack B → Bool
  unfolding queued_packets
  shutdown_structures_pending s =
      let (received, transmitted) = queued_packets s.device in
      ltb 0 (len s.sockets.socket_table.table)
      || (not (is_empty s.sockets.tcp_records)
          || (not (is_empty s.sockets.tcp_listeners)
              || (not (is_empty s.sockets.udp_records)
                  || (not (is_empty s.tcp_connections)
                      || (not (is_empty s.sockets.closing_tcp)
                          || (not (is_empty s.closing_deadlines)
                              || (ltb 0 received || ltb 0 transmitted)))))))

  unfoldable pub shutdown_pending : LockState → NativeStack B → Bool
  shutdown_pending lock s =
      shutdown_structures_pending s
      || (not (is_empty s.pending_notifications)
          || (has_pending lock s.ready
              || (not (is_empty s.ready_sweep.pending) || s.ready_sweep.sweeping)))

  -- The fields that the end of a shutdown resets.
  unfoldable pub finish_shutdown : NativeStack B → NativeStack B
  finish_shutdown s = record s {
    sockets = record s.sockets { lifecycle = shutdown };
    closing = record { cursor = none; pending = false; resweep = false };
    listener_scan = record { cursor = none; pending = false; resweep = false };
    ready_sweep = no_sweep;
  }

  abbrev pub begin_shutdown : AbortReason → NativeStack B → NativeStack B
  begin_shutdown reason s = record s {
    sockets = record s.sockets { lifecycle = shutting_down };
    shutdown_reason = reason;
    ready_sweep = no_sweep;
  }

abbrev pub empty_envelope : Envelope (Unit {0})
empty_envelope = record { result = tt; output = []; poll_at = none; more = false }

abbrev pub is_shutdown : Lifecycle → Bool
is_shutdown running = false
is_shutdown shutting_down = false
is_shutdown shutdown = true

module _ {B : Type 0} (env : Env B) where
  -- The loop of `shutdown_work`, with the rounds that the limit leaves it.
  unfoldable pub shutdown_loop : ℕ → Progress B → Progress B
  unfolding shutdown_unit
  shutdown_loop zero p = p
  shutdown_loop (suc rounds) p =
      let (go, s) = within_budget env p.stack in
      let (found, t) = shutdown_unit s in
      let rest = shutdown_loop rounds (count_unit env (record p { stack = t })) in
      if go then if found then rest else record p { stack = t } else record p { stack = s }

  unfoldable pub shutdown_work : NativeStack B → Effects × NativeStack B
  unfolding observe shutdown_structures_pending
  shutdown_work s =
      let p =
        shutdown_loop s.sockets.limits.maintenance_work
          (record { work = 0; uncharged = 0; stack = s }) in
      let work : Work = record {
        bytes_copied = 0;
        input_packets = 0;
        output_packets = 0;
        ready_events = 0;
        maintenance_work = p.work;
      } in
      let t = record p.stack { counters = observe work p.stack.counters } in
      (
        record {
          output = [];
          poll_at = none;
          more = shutdown_structures_pending t;
          maintenance_work = p.work;
        },
        t,
      )

  -- `lock` and `lock'` are the mutex of the queue in `finish_call`, `lock''` in `shutdown_pending`.
  unfoldable pub continue_shutdown :
      LockState → LockState → LockState → NativeStack B → Envelope (Unit {0}) × NativeStack B
  unfolding shutdown_work shutdown_pending finish_shutdown empty_effects
  continue_shutdown lock lock' lock'' s =
      let (effects, t) =
        if is_empty s.pending_notifications then shutdown_work s else (empty_effects, s) in
      let (envelope, u) = finish_call env lock lock' tt effects [] t in
      if shutdown_pending lock'' u
      then (record envelope { more = true; poll_at = none }, u)
      else (record envelope { more = false }, finish_shutdown u)

  unfoldable pub shutdown_stack :
      LockState
      → LockState
      → LockState
      → AbortReason
      → NativeStack B
      → Envelope (Unit {0}) × NativeStack B
  unfolding continue_shutdown
  shutdown_stack lock lock' lock'' reason s =
      if is_shutdown s.sockets.lifecycle
      then (empty_envelope, s)
      else continue_shutdown lock lock' lock'' (begin_shutdown reason s)

  -- Calls that resume a shutdown until it ends: the `poll_call`s of a stack that is not running. Each has
  -- the three looks at the mutex of its `continue_shutdown`.
  unfoldable pub shutdown_polls :
      List (LockState × LockState × LockState) → NativeStack B → NativeStack B
  unfolding continue_shutdown
  shutdown_polls [] s = s
  shutdown_polls ((lock, lock', lock'') ∷ locks) s =
      let t = shutdown_polls locks (continue_shutdown lock lock' lock'' s).1 in
      if is_shutdown s.sockets.lifecycle then s else t
