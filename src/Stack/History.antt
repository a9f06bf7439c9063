-- ===== src/Stack/History.antt =====
-- native/smolnet_core/src/stack.rs: histories of opening and binding on one stack.
use smolnet.Prelude.{
  ℕ, ◌+◌, ◌*◌, ◌≡◌, Bool, false, List, [], ◌∷◌, ◌==◌, arith, Bool-cases, inl, inr,
}
use smolnet.Prelude.Map.{get, get-insert, total, total-write}
use smolnet.Prelude.Result.{Result-cases}
use smolnet.Limits.{Limits}
use smolnet.Waiter.{SocketIdentity, Flags}
use smolnet.SocketTable.{SocketKind, new}
use smolnet.Tcp.{
  AddressFamily, IpAddress, Wire, ValidatedEndpoint, TcpRecord, new_record, ephemeral_port_first,
}
use smolnet.Tcp.Endpoint.{TcpEndpoint}
use smolnet.Stack.State.{running, StackSockets}
use smolnet.Stack.Capacity.{
  tcp_open, udp_open, may_open_tcp, may_open_udp, add_tcp_record, add_udp_record,
  socket_buffer_bytes,
}
use smolnet.Stack.Opening.{
  HasRoom, tcp_open-HasRoom, udp_open-HasRoom, open_with-cases, grown, refused,
}
use smolnet.Stack.Bind.{tcp_bind, may_bind, pick_port, write_bound, bound_record, tcp_record}
use smolnet.Stack.Sharing.{
  IsUnshared, clashes, clashes_symm, tcp_record-ok, tcp_bind-IsUnshared, pick_port_free, moved,
}

new_record-clashes :
    (k : SocketIdentity) (handle : ℕ) (family : AddressFamily) (rcvbuf sndbuf : ℕ) (b : TcpRecord)
    → clashes (new_record k handle family rcvbuf sndbuf) b ≡ false
unfolding new_record
new_record-clashes k handle family rcvbuf sndbuf b = ground arith

tcp_open-IsUnshared :
    (family : AddressFamily) (rcvbuf sndbuf handle : ℕ) (s : StackSockets)
    → IsUnshared s
    → IsUnshared (tcp_open family rcvbuf sndbuf handle s).1
unfolding tcp_open grown refused new_record
tcp_open-IsUnshared family rcvbuf sndbuf handle s u =
    elim (Result-cases (may_open_tcp rcvbuf sndbuf s)) [
      | inr (x, e) ↦ rw (e, tcp_open) u
      | inl (tt, e) ↦
          elim (open_with-cases SocketKind.tcp handle (add_tcp_record family rcvbuf sndbuf handle)
            s) [
              | inl (o, same) ↦
                  rw (e, tcp_open)
                    (rw o (record {
                      keyed = u.keyed;
                      listeners_keyed = u.listeners_keyed;
                      records = u.records;
                      listeners = u.listeners;
                    }))
              | inr (k, entry, o, longer, v) ↦
                  let at = λ (j : ℕ).
                    get-insert k.id j (new_record k handle family rcvbuf sndbuf) s.tcp_records in
                  rw (e, tcp_open)
                    (rw o (record {
                      keyed = λ j r h. let stored = at j in ground (arith, u.keyed j r);
                      listeners_keyed = u.listeners_keyed;
                      records = λ i j a b h h' ne. elim (Bool-cases (k.id == i)) [
                        | inl here ↦
                            let same : new_record k handle family rcvbuf sndbuf ≡ a =
                              ground (arith, at i) in
                            rw (← same) (new_record-clashes k handle family rcvbuf sndbuf b)
                        | inr other ↦ elim (Bool-cases (k.id == j)) [
                          | inl here' ↦
                              let same : new_record k handle family rcvbuf sndbuf ≡ b =
                                ground (arith, at j) in
                              rw (clashes_symm a b, ← same)
                                (new_record-clashes k handle family rcvbuf sndbuf a)
                          | inr other' ↦
                              u.records i j a b (ground (arith, at i)) (ground (arith, at j)) ne
                        ]
                      ];
                      listeners =
                          λ i j a l h h'. let ai = at i in ground (arith, u.listeners i j a l);
                    }))
            ]
    ]

udp_open-IsUnshared :
    (family : AddressFamily) (handle : ℕ) (s : StackSockets)
    → IsUnshared s
    → IsUnshared (udp_open family handle s).1
unfolding udp_open grown refused
udp_open-IsUnshared family handle s u = elim (Result-cases (may_open_udp s)) [
  | inr (x, e) ↦ rw (e, udp_open) u
  | inl (tt, e) ↦ elim (open_with-cases SocketKind.udp handle (add_udp_record family handle) s) [
    | inl (o, same) ↦
        rw (e, udp_open)
          (rw o (record {
            keyed = u.keyed;
            listeners_keyed = u.listeners_keyed;
            records = u.records;
            listeners = u.listeners;
          }))
    | inr (k, entry, o, longer, v) ↦
        rw (e, udp_open)
          (rw o (record {
            keyed = u.keyed;
            listeners_keyed = u.listeners_keyed;
            records = u.records;
            listeners = u.listeners;
          }))
  ]
]

-- Binding changes no size.
write_bound-HasRoom :
    (identity : SocketIdentity) (e : ValidatedEndpoint) (port : ℕ) (s : StackSockets)
    → HasRoom s
    → HasRoom (write_bound identity e port s).1
unfolding write_bound socket_buffer_bytes
write_bound-HasRoom identity e port s h = elim (Result-cases (tcp_record identity s)) [
  | inr (x, k) ↦ rw (k, write_bound) h
  | inl (r, k) ↦
      let stored = (tcp_record-ok identity s r k).0 in
      rw (k, write_bound)
        (record {
          logical = h.logical;
          native = h.native;
          buffers = omega (
            arith,
            h.buffers,
            total-write (λ r. r.rcvbuf + r.sndbuf) identity.id (bound_record e port r) r
                s.tcp_records stored,
          );
        })
]

tcp_bind-HasRoom :
    (wire : Wire) (has_ip_address : IpAddress → Bool) (identity : SocketIdentity)
    (endpoint : TcpEndpoint) (s : StackSockets)
    → HasRoom s
    → HasRoom (tcp_bind wire has_ip_address identity endpoint s).1
unfolding tcp_bind socket_buffer_bytes
tcp_bind-HasRoom wire has_ip_address identity endpoint s h =
    elim (Result-cases (may_bind wire has_ip_address identity endpoint s)) [
      | inr (x, m) ↦ rw (m, tcp_bind) h
      | inl ((e, r), m) ↦
          let (n, after, free) = pick_port_free identity e.port r.family s in
          let h' : HasRoom (moved n s) = record {
            logical = h.logical;
            native = h.native;
            buffers = h.buffers;
          } in
          elim (Result-cases (pick_port identity e.port r.family s).0) [
            | inr (x, p) ↦ rw (m, tcp_bind) (rw (p, tcp_bind) (rw after h'))
            | inl (p, q) ↦
                rw (m, tcp_bind)
                  (rw (q, tcp_bind) (rw after (write_bound-HasRoom identity e p (moved n s) h')))
          ]
    ]

pub data SocketCall : Type 0 where
  opens_tcp : AddressFamily → ℕ → ℕ → ℕ → SocketCall
  opens_udp : AddressFamily → ℕ → SocketCall
  binds_tcp : SocketIdentity → TcpEndpoint → SocketCall

-- The sockets of `NativeStack::new`, and the state of the statics that give out ids.
unfoldable pub fresh_stack : Limits → ℕ → ℕ → Flags → StackSockets
fresh_stack limits id generation flags = record {
  limits = limits;
  lifecycle = running;
  sockets = [];
  socket_table = record {
    table = new limits.sockets (limits.sockets * 2);
    next_socket_id = id;
    next_generation = generation;
    flags = flags;
  };
  tcp_records = [];
  tcp_listeners = [];
  udp_records = [];
  closing_tcp = [];
  next_ephemeral_port = ephemeral_port_first;
  next_udp_ephemeral_port = ephemeral_port_first;
}

module _ (wire : Wire) (has_ip_address : IpAddress → Bool) where
  unfoldable pub call : SocketCall → StackSockets → StackSockets
  call (opens_tcp family rcvbuf sndbuf handle) s = (tcp_open family rcvbuf sndbuf handle s).1
  call (opens_udp family handle) s = (udp_open family handle s).1
  call (binds_tcp identity endpoint) s = (tcp_bind wire has_ip_address identity endpoint s).1

  unfoldable pub calls : List SocketCall → StackSockets → StackSockets
  calls [] s = s
  calls (c ∷ cs) s = calls cs (call c s)

  calls_keep :
      (cs : List SocketCall) (s : StackSockets)
      → HasRoom s
      → IsUnshared s
      → HasRoom (calls cs s) × IsUnshared (calls cs s)
  unfolding calls call
  calls_keep [] s h u = (h, u)
  calls_keep (opens_tcp family rcvbuf sndbuf handle ∷ cs) s h u =
      calls_keep cs (tcp_open family rcvbuf sndbuf handle s).1
        (tcp_open-HasRoom family rcvbuf sndbuf handle s h)
        (tcp_open-IsUnshared family rcvbuf sndbuf handle s u)
  calls_keep (opens_udp family handle ∷ cs) s h u =
      calls_keep cs (udp_open family handle s).1 (udp_open-HasRoom family handle s h)
        (udp_open-IsUnshared family handle s u)
  calls_keep (binds_tcp identity endpoint ∷ cs) s h u =
      calls_keep cs (tcp_bind wire has_ip_address identity endpoint s).1
        (tcp_bind-HasRoom wire has_ip_address identity endpoint s h)
        (tcp_bind-IsUnshared wire has_ip_address identity endpoint s u)

  fresh_stack-HasRoom :
      (limits : Limits) (id generation : ℕ) (flags : Flags)
      → HasRoom (fresh_stack limits id generation flags)
  unfolding fresh_stack new socket_buffer_bytes total
  fresh_stack-HasRoom limits id generation flags = record {
    logical = omega arith;
    native = omega arith;
    buffers = omega arith;
  }

  fresh_stack-IsUnshared :
      (limits : Limits) (id generation : ℕ) (flags : Flags)
      → IsUnshared (fresh_stack limits id generation flags)
  unfolding fresh_stack get
  fresh_stack-IsUnshared limits id generation flags = record {
    keyed = λ j r h. absurd (cc);
    listeners_keyed = λ j l h. absurd (cc);
    records = λ i j a b h k ne. absurd (cc);
    listeners = λ i j a l h k. absurd (cc);
  }

  -- After any calls that open TCP and UDP sockets and bind TCP sockets, refused ones among them, a new
  -- stack has its sockets, native sockets and buffer bytes within their limits, and no two of its TCP
  -- sockets of one family that were not accepted have the same local port.
  pub calls-IsUnshared :
      (cs : List SocketCall) (limits : Limits) (id generation : ℕ) (flags : Flags)
      → HasRoom (calls cs (fresh_stack limits id generation flags))
        × IsUnshared (calls cs (fresh_stack limits id generation flags))
  calls-IsUnshared cs limits id generation flags =
      calls_keep cs (fresh_stack limits id generation flags)
        (fresh_stack-HasRoom limits id generation flags)
        (fresh_stack-IsUnshared limits id generation flags)
