-- ===== src/Stack/Reaping.antt =====
-- native/smolnet_core/src/stack.rs: `reap_closing_tcp`, the sweep that removes closed TCP sockets and
-- aborts those that are past their deadline. What smoltcp knows of its sockets is a state `W`, with the
-- calls of it in `Kernel`.
use smolnet.Prelude.{
  ℕ, suc, ◌≤◌, ◌≡◌, refl, Bool, true, false, not, ◌&&◌, ◌||◌, Option, none, some, List, [], ◌∷◌,
  ltb, ◌==◌, if◌then◌else◌, length, take, length-take, arith, Bool-cases, Option-cases, ap, ◌∙◌,
  inl, inr,
}
use smolnet.Prelude.Int.{ℤ, ltb_ℤ}
use smolnet.Prelude.Map.{get, remove, write}
use smolnet.Waiter.Queue.{LockState, ReadyWaker, mark_ready}
use smolnet.Tcp.{TcpRecord}
use smolnet.Stack.State.{remove_handle}
use smolnet.Stack.Connections.{ClosingSweep, remove_id, no_closing}
use smolnet.Stack.Listeners.{request_listener_scan, above, or_else}
use smolnet.Stack.Native.{NativeStack, Env, within_budget}
use smolnet.Stack.Shutdown.{drop_deadline, drop_connection}

-- A run of a waker inside a call of smoltcp: how it finds the mutex of the queue, and whose waker it is.
abbrev pub Wake : Type 0
Wake = LockState × ReadyWaker

-- `tcp::Socket`: whether its state is `Closed`, whether it has no local endpoint, and `abort`, with
-- the wakers that it runs; and `SocketSet::remove`.
pub record Kernel (W : Type 0) : Type 0 where
  pub is_closed : ℕ → W → Bool
  pub reset_dispatched : ℕ → W → Bool
  pub abort : ℕ → W → W × List Wake
  pub remove_socket : ℕ → W → W

-- The wakers run one after the other, on the queue and the flags of the stack.
unfoldable pub run_wakes : {B : Type 0} → List Wake → NativeStack B → NativeStack B
run_wakes [] s = s
run_wakes ((lock, waker) ∷ wakes) s =
    let (ready, flags) = mark_ready lock waker s.ready s.sockets.socket_table.flags in
    run_wakes wakes (record s {
      ready = ready;
      sockets = record s.sockets { socket_table = record s.sockets.socket_table { flags = flags } };
    })

run_wakes-closing :
    {B : Type 0} (wakes : List Wake) (s : NativeStack B) → (run_wakes wakes s).closing ≡ s.closing
unfolding run_wakes
run_wakes-closing [] s = refl
run_wakes-closing ((lock, waker) ∷ wakes) s =
    let (ready, flags) = mark_ready lock waker s.ready s.sockets.socket_table.flags in
    run_wakes-closing wakes (record s {
      ready = ready;
      sockets = record s.sockets { socket_table = record s.sockets.socket_table { flags = flags } };
    })

module _ {B : Type 0} where
  unfoldable pub remove_tcp_record : TcpRecord → NativeStack B → NativeStack B
  remove_tcp_record r s = record s {
    tcp_connections = drop_connection r.local r.remote s.tcp_connections;
    sockets = record s.sockets { tcp_records = remove r.identity.id s.sockets.tcp_records };
  }

  -- All of `remove_tcp_socket` but what it removes from smoltcp's set.
  unfoldable pub remove_tcp_socket : TcpRecord → NativeStack B → NativeStack B
  unfolding remove_tcp_record
  remove_tcp_socket r s =
      let t = remove_tcp_record r (record s {
        sockets = record s.sockets {
          sockets = remove_handle r.handle s.sockets.sockets;
          closing_tcp = remove_id r.identity.id s.sockets.closing_tcp;
        };
        closing_deadlines = drop_deadline r.close_deadline r.identity.id s.closing_deadlines;
      }) in
      record t { listener_scan = request_listener_scan t.sockets.tcp_listeners t.listener_scan }

  -- The deadline of a socket that was aborted is gone.
  unfoldable pub forget_deadline : ℕ → TcpRecord → NativeStack B → NativeStack B
  forget_deadline id r s = record s {
    closing_deadlines = drop_deadline r.close_deadline id s.closing_deadlines;
    sockets = record s.sockets {
      tcp_records = write id (record r { close_deadline = none }) s.sockets.tcp_records;
    };
  }

  abbrev pub set_closing : ClosingSweep → NativeStack B → NativeStack B
  set_closing sweep s = record s { closing = sweep }

abbrev pub is_expired : ℤ → Option ℤ → Bool
is_expired now none = false
is_expired now (some deadline) = not (ltb_ℤ now deadline)

-- `closing_tcp.range((start, Unbounded))`.
abbrev pub closing_behind : Option ℕ → List ℕ → List ℕ
closing_behind none ids = ids
closing_behind (some cursor) ids = above cursor ids

abbrev pub swept : ClosingSweep
swept = record { cursor = none; pending = false; resweep = false }

-- The sweep after its loop: `more`, and the marks.
unfoldable pub finish_reaping : Bool → Option ℕ → ClosingSweep → Bool × ClosingSweep
finish_reaping more last sweep =
    if more
    then (true, record sweep { cursor = or_else last sweep.cursor })
    else if sweep.resweep
    then (true, record sweep { cursor = none; resweep = false })
    else (false, record sweep { cursor = none; pending = false })

finish_reaping-pending :
    (more : Bool) (last : Option ℕ) (sweep : ClosingSweep)
    → sweep.pending ≡ true
    → (finish_reaping more last sweep).0 ≡ (finish_reaping more last sweep).1.pending
unfolding finish_reaping
finish_reaping-pending more last sweep h = ground (arith, h)

-- What the loop has done when it ends.
pub record Reaped (B : Type 0) (W : Type 0) : Type 0 where
  pub work : ℕ
  pub last_processed : Option ℕ
  pub stopped : Bool
  pub stack : NativeStack B
  pub kernel : W

module _ {B : Type 0} {W : Type 0} (env : Env B) (tcp : Kernel W) (now : ℤ) where
  -- An expired socket is aborted, unless it is closed, and its deadline is forgotten.
  unfoldable pub abort_expired : ℕ → TcpRecord → NativeStack B → W → NativeStack B × W
  unfolding forget_deadline run_wakes
  abort_expired id r s w =
      let (w', wakes) = tcp.abort r.handle w in
      if tcp.is_closed r.handle w
      then (forget_deadline id r s, w)
      else (forget_deadline id r (run_wakes wakes s), w')

  unfoldable pub reap_record : ℕ → TcpRecord → NativeStack B → W → NativeStack B × W
  unfolding remove_tcp_socket abort_expired
  reap_record id r s w =
      if tcp.is_closed r.handle w && tcp.reset_dispatched r.handle w
      then (remove_tcp_socket r s, tcp.remove_socket r.handle w)
      else if is_expired now r.close_deadline
      then abort_expired id r s w
      else (s, w)

  unfoldable pub reap_id : ℕ → NativeStack B → W → NativeStack B × W
  unfolding reap_record
  reap_id id s w = elim (get id s.sockets.tcp_records) [
    | none ↦ (
      record s { sockets = record s.sockets { closing_tcp = remove_id id s.sockets.closing_tcp } },
      w,
    )
    | some r ↦ reap_record id r s w
  ]

  unfoldable pub reap_ids : List ℕ → Option ℕ → NativeStack B → W → Reaped B W
  unfolding reap_id
  reap_ids [] last s w = record {
    work = 0;
    last_processed = last;
    stopped = false;
    stack = s;
    kernel = w;
  }
  reap_ids (id ∷ ids) last s w =
      let (go, s') = within_budget env s in
      let (t, w') = reap_id id s' w in
      let rest = reap_ids ids (some id) t w' in
      if go
      then record rest { work = suc rest.work }
      else record { work = 0; last_processed = last; stopped = true; stack = s'; kernel = w }

  unfoldable pub reap_closing_tcp : ℕ → NativeStack B → W → (ℕ × Bool) × NativeStack B × W
  unfolding reap_ids finish_reaping
  reap_closing_tcp limit s w =
      let ids = take (suc limit) (closing_behind s.closing.cursor s.sockets.closing_tcp) in
      let r = reap_ids (take limit ids) none s w in
      let (more, sweep) =
        finish_reaping (ltb limit (length ids) || r.stopped) r.last_processed r.stack.closing in
      if no_closing s.sockets.closing_tcp
      then ((0, false), set_closing swept s, w)
      else if limit == 0 || not s.closing.pending
      then ((0, s.closing.pending), s, w)
      else if no_closing r.stack.sockets.closing_tcp
      then ((r.work, false), set_closing swept r.stack, r.kernel)
      else ((r.work, more), set_closing sweep r.stack, r.kernel)

  reap_ids-work :
      (ids : List ℕ) (last : Option ℕ) (s : NativeStack B) (w : W)
      → (reap_ids ids last s w).work ≤ length ids
  unfolding reap_ids
  reap_ids-work [] last s w = omega arith
  reap_ids-work (id ∷ ids) last s w =
      let t = reap_id id (within_budget env s).1 w in
      ground (arith, reap_ids-work ids (some id) t.0 t.1)

  abort_expired-closing :
      (id : ℕ) (r : TcpRecord) (s : NativeStack B) (w : W)
      → (abort_expired id r s w).0.closing ≡ s.closing
  unfolding abort_expired forget_deadline
  abort_expired-closing id r s w = elim (Bool-cases (tcp.is_closed r.handle w)) [
    | inl gone ↦ rw gone refl
    | inr here ↦ rw here (run_wakes-closing (tcp.abort r.handle w).1 s)
  ]

  reap_record-closing :
      (id : ℕ) (r : TcpRecord) (s : NativeStack B) (w : W)
      → (reap_record id r s w).0.closing ≡ s.closing
  unfolding reap_record remove_tcp_socket remove_tcp_record
  reap_record-closing id r s w =
      elim (Bool-cases (tcp.is_closed r.handle w && tcp.reset_dispatched r.handle w)) [
        | inl gone ↦ rw gone refl
        | inr here ↦ elim (Bool-cases (is_expired now r.close_deadline)) [
          | inl late ↦ rw (here, late) (abort_expired-closing id r s w)
          | inr early ↦ rw (here, early) refl
        ]
      ]

  reap_id-closing : (id : ℕ) (s : NativeStack B) (w : W) → (reap_id id s w).0.closing ≡ s.closing
  unfolding reap_id
  reap_id-closing id s w = elim (Option-cases (get id s.sockets.tcp_records)) [
    | inl n ↦ rw (n, reap_id) refl
    | inr (r, n) ↦ rw (n, reap_id) (reap_record-closing id r s w)
  ]

  reap_ids-pending :
      (ids : List ℕ) (last : Option ℕ) (s : NativeStack B) (w : W)
      → (reap_ids ids last s w).stack.closing ≡ s.closing
  unfolding reap_ids
  reap_ids-pending [] last s w = refl
  reap_ids-pending (id ∷ ids) last s w =
      let t = reap_id id (within_budget env s).1 w in
      let h = reap_ids-pending ids (some id) t.0 t.1 in
      let e : t.0.closing ≡ s.closing =
        reap_id-closing id (within_budget env s).1 w ∙ (unfold within_budget in refl) in
      elim (Bool-cases (within_budget env s).0) [
        | inl go ↦ rw go (h ∙ e)
        | inr spent ↦ rw spent (unfold within_budget in refl)
      ]

  -- A sweep over closing sockets looks at no more of them than its limit, and says that there is more to
  -- do exactly when it leaves the sweep pending.
  pub reap_closing_tcp-bounds :
      (limit : ℕ) (s : NativeStack B) (w : W)
      → ((reap_closing_tcp limit s w).0.0 ≤ limit)
        × ((reap_closing_tcp limit s w).0.1 ≡ (reap_closing_tcp limit s w).1.closing.pending)
  unfolding reap_closing_tcp
  reap_closing_tcp-bounds limit s w =
      let ids = take (suc limit) (closing_behind s.closing.cursor s.sockets.closing_tcp) in
      let n = reap_ids-work (take limit ids) none s w in
      let l = length-take limit ids in
      let r = reap_ids (take limit ids) none s w in
      let e = ap (λ (x : ClosingSweep). x.pending) (reap_ids-pending (take limit ids) none s w) in
      elim (Bool-cases (no_closing s.sockets.closing_tcp)) [
        | inl empty ↦ rw empty (omega arith, refl)
        | inr some_left ↦ elim (Bool-cases (limit == 0 || not s.closing.pending)) [
          | inl idle ↦ rw (some_left, idle) (omega arith, refl)
          | inr active ↦ elim (Bool-cases (no_closing r.stack.sockets.closing_tcp)) [
            | inl emptied ↦ rw (some_left, active, emptied) (omega (arith, n, l), refl)
            | inr others ↦
                let f =
                  finish_reaping-pending (ltb limit (length ids) || r.stopped) r.last_processed
                    r.stack.closing (ground (arith, e, active)) in
                rw (some_left, active, others) (omega (arith, n, l), f)
          ]
        ]
      ]
