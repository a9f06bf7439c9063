-- ===== src/Stack/Dismantle.antt =====
-- native/smolnet_core/src/stack.rs: a round of `shutdown_work` takes one structure away, and loses no
-- waiter.
use smolnet.Prelude.{
  ℕ, ◌+◌, ◌<◌, ◌≡◌, refl, ap, length, Bool, true, false, List, [], ◌∷◌, map, append_assoc, arith,
  length-append, length-map, inl, inr,
}
use smolnet.Prelude.Int.{ℤ}
use smolnet.Prelude.Map.{Map}
use smolnet.Prelude.Result.{ok}
use smolnet.Waiter.{SocketIdentity}
use smolnet.SocketTable.Ops.{close_next, waiters_of}
use smolnet.Device.{Packet, BeamDevice, discard_one, discard_from}
use smolnet.Tcp.{TcpRecord, ListenerRecord}
use smolnet.Udp.{UdpRecord}
use smolnet.Stack.Connections.{ConnectionKey}
use smolnet.Stack.Native.{NativeStack}
use smolnet.Stack.Shutdown.{
  notification_of, close_socket, drop_tcp_record, drop_listener, drop_udp_record, discard_index,
  drop_record, shutdown_unit,
}
use smolnet.Stack.Removals.{
  table_aborts, aborts_owed, remains, length-remove_id, length-drop_deadline,
  length-drop_connection, length-waiters_of, FirstClosed, shutdown_unit-cases,
}

-- What a round leaves alone.
pub record Steady {B : Type 0} (s t : NativeStack B) : Type 0 where
  pub ready : t.ready ≡ s.ready
  pub sweep : t.ready_sweep ≡ s.ready_sweep
  pub lifecycle : t.sockets.lifecycle ≡ s.sockets.lifecycle
  pub limits : t.sockets.limits ≡ s.sockets.limits
  pub reason : t.shutdown_reason ≡ s.shutdown_reason
  pub outbox : t.outbox ≡ s.outbox

-- What a round that finds something does, and one that does not.
pub record Shrinks {B : Type 0} (s t : NativeStack B) (found : Bool) : Type 0 where
  pub steady : Steady s t
  pub owed : aborts_owed t ≡ aborts_owed s
  pub less : found ≡ true → remains t < remains s
  pub rest : found ≡ false → (remains t ≡ remains s) × (remains s ≡ length s.pending_notifications)

discard_from-length :
    (rs ts : List Packet) (d : BeamDevice)
    → d.receive ≡ rs
    → d.transmit ≡ ts
    → ((discard_from rs ts d).0 ≡ true
        → length (discard_from rs ts d).1.receive + length (discard_from rs ts d).1.transmit
          < length d.receive + length d.transmit)
      × ((discard_from rs ts d).0 ≡ false
          → ((discard_from rs ts d).1 ≡ d) × (length d.receive ≡ 0) × (length d.transmit ≡ 0))
unfolding discard_from
discard_from-length (p ∷ ps) ts d r t =
    (λ h. let n = ap length r in omega (arith, n), λ h. absurd (cc))
discard_from-length [] (p ∷ ps) d r t =
    (λ h. let n = ap length t in omega (arith, n), λ h. absurd (cc))
discard_from-length [] [] d r t = (λ h. absurd (cc), λ h. (refl, ap length r, ap length t))

discard_index-Shrinks :
    {B : Type 0} (cs : List (ConnectionKey × SocketIdentity)) (closing : List ℕ) (ds : List (ℤ × ℕ))
    (s : NativeStack B)
    → s.tcp_connections ≡ cs
    → s.sockets.closing_tcp ≡ closing
    → s.closing_deadlines ≡ ds
    → s.sockets.socket_table.entries ≡ []
    → s.sockets.tcp_records ≡ []
    → s.sockets.tcp_listeners ≡ []
    → s.sockets.udp_records ≡ []
    → Shrinks s (discard_index cs closing ds s).1 (discard_index cs closing ds s).0
unfolding discard_index remains aborts_owed discard_one
discard_index-Shrinks (c ∷ cs) closing ds s a b d e1 e2 e3 e4 = record {
  steady = record {
    ready = refl;
    sweep = refl;
    lifecycle = refl;
    limits = refl;
    reason = refl;
    outbox = refl;
  };
  owed = refl;
  less = λ h. let n = ap length a in omega (arith, n);
  rest = λ h. absurd (cc);
}
discard_index-Shrinks [] (i ∷ is) ds s a b d e1 e2 e3 e4 = record {
  steady = record {
    ready = refl;
    sweep = refl;
    lifecycle = refl;
    limits = refl;
    reason = refl;
    outbox = refl;
  };
  owed = refl;
  less = λ h. let n = ap length b in omega (arith, n);
  rest = λ h. absurd (cc);
}
discard_index-Shrinks [] [] (x ∷ ds) s a b d e1 e2 e3 e4 = record {
  steady = record {
    ready = refl;
    sweep = refl;
    lifecycle = refl;
    limits = refl;
    reason = refl;
    outbox = refl;
  };
  owed = refl;
  less = λ h. let n = ap length d in omega (arith, n);
  rest = λ h. absurd (cc);
}
discard_index-Shrinks [] [] [] s a b d e1 e2 e3 e4 = record {
  steady = record {
    ready = refl;
    sweep = refl;
    lifecycle = refl;
    limits = refl;
    reason = refl;
    outbox = refl;
  };
  owed = refl;
  less = λ h.
      let n = discard_from-length s.device.receive s.device.transmit s.device refl refl in
      let m = n.0 h in omega (arith, m);
  rest = λ h.
      let n = discard_from-length s.device.receive s.device.transmit s.device refl refl in
      let (same, r, t) = n.1 h in
      let r' : length (discard_one s.device).1.receive ≡ 0 = rw same r in
      let t' : length (discard_one s.device).1.transmit ≡ 0 = rw same t in
      let l1 = ap length a in
      let l2 = ap length b in
      let l3 = ap length d in
      let l4 = ap length e1 in
      let l5 = ap length e2 in
      let l6 = ap length e3 in
      let l7 = ap length e4 in
      (omega (arith, r, t, r', t'), omega (arith, r, t, l1, l2, l3, l4, l5, l6, l7));
}

drop_record-Shrinks :
    {B : Type 0} (rs : Map TcpRecord) (ls : Map ListenerRecord) (us : Map UdpRecord)
    (s : NativeStack B)
    → s.sockets.tcp_records ≡ rs
    → s.sockets.tcp_listeners ≡ ls
    → s.sockets.udp_records ≡ us
    → s.sockets.socket_table.entries ≡ []
    → Shrinks s (drop_record rs ls us s).1 (drop_record rs ls us s).0
unfolding drop_record remains aborts_owed drop_tcp_record drop_listener drop_udp_record
drop_record-Shrinks ((id, r) ∷ rs) ls us s a b c e = record {
  steady = record {
    ready = refl;
    sweep = refl;
    lifecycle = refl;
    limits = refl;
    reason = refl;
    outbox = refl;
  };
  owed = refl;
  less = λ h.
      let n = ap length a in
      let x = length-remove_id id s.sockets.closing_tcp in
      let y = length-drop_deadline r.close_deadline id s.closing_deadlines in
      let z = length-drop_connection r.local r.remote s.tcp_connections in
      omega (arith, n, x, y, z);
  rest = λ h. absurd (cc);
}
drop_record-Shrinks [] ((id, l) ∷ ls) us s a b c e = record {
  steady = record {
    ready = refl;
    sweep = refl;
    lifecycle = refl;
    limits = refl;
    reason = refl;
    outbox = refl;
  };
  owed = refl;
  less = λ h. let n = ap length b in omega (arith, n);
  rest = λ h. absurd (cc);
}
drop_record-Shrinks [] [] ((id, u) ∷ us) s a b c e = record {
  steady = record {
    ready = refl;
    sweep = refl;
    lifecycle = refl;
    limits = refl;
    reason = refl;
    outbox = refl;
  };
  owed = refl;
  less = λ h. let n = ap length c in omega (arith, n);
  rest = λ h. absurd (cc);
}
drop_record-Shrinks [] [] [] s a b c e =
    discard_index-Shrinks s.tcp_connections s.sockets.closing_tcp s.closing_deadlines s refl refl
      refl e a b c

-- A round that finds something leaves less to do, one that does not found nothing left; and each waiter
-- stays among those to abort, in order.
pub shutdown_unit-Shrinks :
    {B : Type 0} (s : NativeStack B) → Shrinks s (shutdown_unit s).1 (shutdown_unit s).0
unfolding close_socket remains aborts_owed table_aborts
shutdown_unit-Shrinks s = elim (shutdown_unit-cases s) [
  | inr (e, u) ↦ rw u (
      drop_record-Shrinks s.sockets.tcp_records s.sockets.tcp_listeners s.sockets.udp_records s refl
        refl refl e)
  | inl (f, u) ↦ rw u (closed f)
]
  where
    closed :
        (f : FirstClosed s.sockets.socket_table)
        → Shrinks s
            (close_socket
              (record { id = f.id; generation = f.generation })
              (ok (waiters_of f.entry))
              (close_next s.sockets.socket_table).1
              s)
            true
    closed f = record {
      steady = record {
        ready = refl;
        sweep = refl;
        lifecycle = refl;
        limits = refl;
        reason = refl;
        outbox = refl;
      };
      owed =
          rw (f.after, f.entries)
            (append_assoc s.pending_notifications
              (map (notification_of (record { id = f.id; generation = f.generation }))
                (waiters_of f.entry))
              (table_aborts f.left));
      less = λ h.
          let n = ap length f.entries in
          let m = ap length f.after in
          let w = length-waiters_of f.entry in
          let ns = length-append s.pending_notifications (
            map (notification_of (record { id = f.id; generation = f.generation }))
              (waiters_of f.entry)) in
          let ms =
            length-map (waiters_of f.entry)
              (notification_of (record { id = f.id; generation = f.generation })) in
          omega (arith, n, m, w, ns, ms);
      rest = λ h. absurd (cc);
    }
