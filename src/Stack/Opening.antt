-- ===== src/Stack/Opening.antt =====
-- native/smolnet_core/src/stack.rs: opening a socket keeps a stack within what it may hold.
use smolnet.Prelude.{
  ℕ, suc, ◌+◌, ◌≤◌, ◌*◌, ◌<◌, ◌≡◌, refl, ap, some, ◌∷◌, length, arith, inl, inr, ◌⊎◌,
}
use smolnet.Prelude.Map.{insert as map_insert, get, get-insert, total-insert_le, length-insert_le}
use smolnet.Prelude.Result.{ok, err, Result-cases}
use smolnet.Waiter.{SocketIdentity}
use smolnet.SocketTable.{
  SocketEntry, State, SocketError, system_limit, SocketKind, tcp, udp, len, validate,
}
use smolnet.SocketTable.Ops.{insert}
use smolnet.SocketTable.Insert.{insert-cases}
use smolnet.Tcp.{AddressFamily, new_record}
use smolnet.Udp.{new_udp, buffer_bytes}
use smolnet.Stack.State.{StackSockets, remove_handle-cons}
use smolnet.Stack.Capacity.{
  add_tcp_record, add_udp_record, tcp_open, udp_open, open_with, may_open_tcp, may_open_udp,
  socket_buffer_bytes, max_socket_buffer_bytes, ensure_running, ensure_logical_socket_capacity,
  ensure_native_socket_capacity, ensure_socket_buffer_capacity,
}

-- The sockets, the handles and the buffers of a stack, each within its limit.
pub record HasRoom (s : StackSockets) : Type 0 where
  pub logical : length s.socket_table.entries + length s.closing_tcp ≤ s.limits.sockets
  pub native : length s.sockets ≤ s.limits.sockets
  pub buffers : socket_buffer_bytes s ≤ max_socket_buffer_bytes

Spare : ℕ → StackSockets → Type 0
Spare bytes s =
    (length s.socket_table.entries + length s.closing_tcp < s.limits.sockets)
    × (length s.sockets < s.limits.sockets)
    × (socket_buffer_bytes s + bytes ≤ max_socket_buffer_bytes)

may_open_tcp-Spare :
    (rcvbuf sndbuf : ℕ) (s : StackSockets)
    → may_open_tcp rcvbuf sndbuf s ≡ ok tt
    → Spare (rcvbuf + sndbuf) s
unfolding Spare may_open_tcp ensure_running ensure_logical_socket_capacity
    ensure_native_socket_capacity ensure_socket_buffer_capacity len
may_open_tcp-Spare rcvbuf sndbuf s h = (ground arith, ground arith, ground arith)

may_open_udp-Spare : (s : StackSockets) → may_open_udp s ≡ ok tt → Spare buffer_bytes s
unfolding Spare may_open_udp ensure_running ensure_logical_socket_capacity
    ensure_native_socket_capacity ensure_socket_buffer_capacity len
may_open_udp-Spare s h = (ground arith, ground arith, ground arith)

module _ (kind : SocketKind) (handle : ℕ) (record_of : SocketIdentity → StackSockets → StackSockets)
    (s : StackSockets) where
  unfoldable pub grown : State → StackSockets
  grown table = record s { sockets = handle ∷ s.sockets; socket_table = table }

  unfoldable pub refused : State → StackSockets
  refused table = record s { socket_table = table }

  pub open_with-cases :
      ((open_with kind handle record_of s
          ≡ (err system_limit, refused (insert kind 0 s.socket_table).1))
        × ((insert kind 0 s.socket_table).1.table ≡ s.socket_table.table))
      ⊎ ((i : SocketIdentity) × (e : SocketEntry) × (open_with kind handle record_of s
            ≡ (ok i, record_of i (grown (insert kind 0 s.socket_table).1)))
          × (length (insert kind 0 s.socket_table).1.entries ≤ suc (length s.socket_table.entries))
          × (validate (insert kind 0 s.socket_table).1.table i kind ≡ ok e))
  unfolding open_with grown refused
  open_with-cases = elim (insert-cases kind 0 s.socket_table) [
    | inl (r, same) ↦ inl (rw (r, open_with) (rw (remove_handle-cons handle s.sockets) refl), same)
    | inr (i, e, r, t, v, room) ↦ inr (
      i,
      e,
      rw (r, open_with) refl,
      rw (ap (λ x. length x.entries) t)
          (length-insert_le i.id (i.generation, e) s.socket_table.entries),
      v,
    )
  ]

-- Opening a TCP socket, whether it succeeds or not, keeps the sockets, the native sockets and the
-- buffer bytes of a stack within their limits.
pub tcp_open-HasRoom :
    (family : AddressFamily) (rcvbuf sndbuf handle : ℕ) (s : StackSockets)
    → HasRoom s
    → HasRoom (tcp_open family rcvbuf sndbuf handle s).1
unfolding tcp_open Spare grown refused socket_buffer_bytes new_record
tcp_open-HasRoom family rcvbuf sndbuf handle s h =
    elim (Result-cases (may_open_tcp rcvbuf sndbuf s)) [
      | inr (x, e) ↦ rw (e, tcp_open) h
      | inl (tt, e) ↦
          let (logical, native, buffers) = may_open_tcp-Spare rcvbuf sndbuf s e in
          elim (open_with-cases tcp handle (add_tcp_record family rcvbuf sndbuf handle) s) [
            | inl (o, same) ↦
                rw (e, tcp_open)
                  (rw o (record {
                    logical = rw same h.logical;
                    native = h.native;
                    buffers = h.buffers;
                  }))
            | inr (i, entry, o, longer, v) ↦
                rw (e, tcp_open)
                  (rw o (record {
                    logical = omega arith;
                    native = omega arith;
                    buffers = omega (
                      arith,
                      total-insert_le (λ r. r.rcvbuf + r.sndbuf) i.id
                          (new_record i handle family rcvbuf sndbuf) s.tcp_records,
                    );
                  }))
          ]
    ]

-- Opening a UDP socket, whether it succeeds or not, keeps the sockets, the native sockets and the
-- buffer bytes of a stack within their limits.
pub udp_open-HasRoom :
    (family : AddressFamily) (handle : ℕ) (s : StackSockets)
    → HasRoom s
    → HasRoom (udp_open family handle s).1
unfolding udp_open Spare grown refused socket_buffer_bytes new_udp
udp_open-HasRoom family handle s h = elim (Result-cases (may_open_udp s)) [
  | inr (x, e) ↦ rw (e, udp_open) h
  | inl (tt, e) ↦
      let (logical, native, buffers) = may_open_udp-Spare s e in
      elim (open_with-cases udp handle (add_udp_record family handle) s) [
        | inl (o, same) ↦
            rw (e, udp_open)
              (rw o
                (record { logical = rw same h.logical; native = h.native; buffers = h.buffers }))
        | inr (i, entry, o, longer, v) ↦
            rw (e, udp_open)
              (rw o (record {
                logical = omega arith;
                native = omega arith;
                buffers = omega (
                  arith,
                  total-insert_le (λ r. length r.handles * buffer_bytes) i.id
                      (new_udp i handle family) s.udp_records,
                );
              }))
      ]
]

-- A TCP socket that is opened validates under its identity, has the record of a fresh socket there, and
-- keeps the handle of its native socket; one that is refused leaves the table, the records and the
-- native sockets as they were.
pub tcp_open-cases :
    (family : AddressFamily) (rcvbuf sndbuf handle : ℕ) (s : StackSockets)
    → let (result, t) = tcp_open family rcvbuf sndbuf handle s in
      ((x : SocketError) × (result ≡ err x)
        × (t.socket_table.table ≡ s.socket_table.table)
        × (t.tcp_records ≡ s.tcp_records)
        × (t.sockets ≡ s.sockets))
      ⊎ ((i : SocketIdentity) × (e : SocketEntry) × (result ≡ ok i)
          × (validate t.socket_table.table i tcp ≡ ok e)
          × (get i.id t.tcp_records ≡ some (new_record i handle family rcvbuf sndbuf))
          × (t.sockets ≡ handle ∷ s.sockets))
unfolding tcp_open grown refused
tcp_open-cases family rcvbuf sndbuf handle s = elim (Result-cases (may_open_tcp rcvbuf sndbuf s)) [
  | inr (x, e) ↦ rw (e, tcp_open) (inl (x, refl, refl, refl, refl))
  | inl (tt, e) ↦ elim (open_with-cases tcp handle (add_tcp_record family rcvbuf sndbuf handle) s) [
    | inl (o, same) ↦ rw (e, tcp_open) (rw o (inl (system_limit, refl, same, refl, refl)))
    | inr (i, entry, o, longer, v) ↦
        rw (e, tcp_open) (rw o (inr (i, entry, refl, v, stored i, refl)))
  ]
]
  where
    stored :
        (i : SocketIdentity)
        → get i.id (map_insert i.id (new_record i handle family rcvbuf sndbuf) s.tcp_records)
          ≡ some (new_record i handle family rcvbuf sndbuf)
    stored i =
        rw (get-insert i.id i.id (new_record i handle family rcvbuf sndbuf) s.tcp_records)
          (ground arith)
