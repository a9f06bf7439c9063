-- ===== src/Stack/Told.antt =====
-- native/smolnet_core/src/stack.rs: at the end of a call a waiter stays in the table or is told.
use smolnet.Prelude.{
  ℕ, ◌-◌, ◌≡◌, refl, ◌∙◌, sym, ap, ◌⊎◌, inl, inr, ◌&&◌, some, List, [], ◌∷◌, ◌++◌, append_assoc,
  append-nil, arith, Bool-cases, ltb,
}
use smolnet.Waiter.{Direction, Waiter, SocketIdentity, ReadyKey}
use smolnet.Waiter.Queue.{LockState}
use smolnet.SocketTable.{State}
use smolnet.SocketTable.Ops.{ReadyResult, notify, no_waiter, coalesced, stale, take_ready_waiter}
use smolnet.SocketTable.Scan.{scan_ready}
use smolnet.Stack.State.{StackSockets, is_running}
use smolnet.Stack.Native.{
  NativeStack, Env, Effects, Message, PendingNotification, select, send_message, within_budget,
  charge_pending,
}
use smolnet.Device.{is_empty}
use smolnet.Stack.Calls.{
  Progress, count_unit, abort_loop, deliver_keys, pending_loop, start_sweep, drain_queue, scan_step,
  sweep_step, readiness_work, finish_call, deliver_or_discard_ready, deliver_ready, deliver_result,
  push_pending, set_pending, drop_readiness,
}
use smolnet.Stack.Aborts.{abort_loop-Sends}
use smolnet.Stack.Waiting.{
  waiting, Tells, Tells-left, Tells-right, remember_sent-waiting, take_ready_waiter-waiting,
}

-- From one stack to a later one, each waiter stays or is told by a message said in between.
abbrev pub Settles : {B : Type 0} → NativeStack B → NativeStack B → Type 0
Settles s t =
    (rest : List Message) × (t.outbox ≡ s.outbox ++ rest)
    × ((i : SocketIdentity) (dir : Direction) (w : Waiter)
        → waiting i dir s.sockets.socket_table.entries ≡ some w
        → (waiting i dir t.sockets.socket_table.entries ≡ some w) ⊎ Tells w i rest)

module _ {B : Type 0} (env : Env B) where
  Settles-refl :
      (s t : NativeStack B)
      → t.outbox ≡ s.outbox
      → t.sockets.socket_table.entries ≡ s.sockets.socket_table.entries
      → Settles s t
  Settles-refl s t o e =
      ([], o ∙ sym (append-nil s.outbox), λ i dir w h. inl (ap (waiting i dir) e ∙ h))

  Settles-trans : (s t u : NativeStack B) → Settles s t → Settles t u → Settles s u
  Settles-trans s t u (xs, o, f) (ys, p, g) = (
    xs ++ ys,
    p ∙ (ap (λ (m : List Message). m ++ ys) o ∙ append_assoc s.outbox xs ys),
    λ i dir w h. elim (f i dir w h) [
      | inr told ↦ inr (Tells-left w i xs ys told)
      | inl kept ↦ elim (g i dir w kept) [
        | inl still ↦ inl still
        | inr told ↦ inr (Tells-right w i xs ys told)
      ]
    ],
  )

  deliver_result-Settles :
      (key : ReadyKey) (r : ReadyResult) (table : State) (s : NativeStack B)
      → ((i : SocketIdentity) (dir : Direction) (w : Waiter)
          → waiting i dir s.sockets.socket_table.entries ≡ some w
          → (waiting i dir table.entries ≡ some w) ⊎ ((r ≡ notify w) × (key.identity ≡ i)))
      → Settles s (
          deliver_result env key r
            (record s { sockets = record s.sockets { socket_table = table } }))
  unfolding deliver_result send_message
  deliver_result-Settles key (notify v) table s f = (
    select v key.identity ∷ [],
    refl,
    λ i dir w h. elim (f i dir w h) [
      | inl kept ↦ inl (remember_sent-waiting key.identity i key.direction dir v table ∙ kept)
      | inr (e, j) ↦ inr (inl (cc))
    ],
  )
  deliver_result-Settles key no_waiter table s f = (
    [],
    sym (append-nil s.outbox),
    λ i dir w h. elim (f i dir w h) [ inl kept ↦ inl kept | inr (e, j) ↦ absurd (cc) ],
  )
  deliver_result-Settles key coalesced table s f = (
    [],
    sym (append-nil s.outbox),
    λ i dir w h. elim (f i dir w h) [ inl kept ↦ inl kept | inr (e, j) ↦ absurd (cc) ],
  )
  deliver_result-Settles key stale table s f = (
    [],
    sym (append-nil s.outbox),
    λ i dir w h. elim (f i dir w h) [ inl kept ↦ inl kept | inr (e, j) ↦ absurd (cc) ],
  )

  deliver_or_discard_ready-Settles :
      (key : ReadyKey) (s : NativeStack B) → Settles s (deliver_or_discard_ready env key s)
  unfolding deliver_or_discard_ready deliver_ready
  deliver_or_discard_ready-Settles key s = elim (Bool-cases (is_running s.sockets.lifecycle)) [
    | inr off ↦ rw off (Settles-refl s (drop_readiness s) refl refl)
    | inl live ↦ rw live (
        deliver_result-Settles key (take_ready_waiter key s.sockets.socket_table).0
          (take_ready_waiter key s.sockets.socket_table).1 s
          (λ i dir w h. take_ready_waiter-waiting key i dir w s.sockets.socket_table h))
  ]

  deliver_keys-Settles :
      (ks : List ReadyKey) (p : Progress B) → Settles p.stack (deliver_keys env ks p).stack
  unfolding deliver_keys count_unit within_budget charge_pending
  deliver_keys-Settles [] p = Settles-refl p.stack p.stack refl refl
  deliver_keys-Settles (k ∷ ks) p =
      let s = (within_budget env p.stack).1 in
      let t = deliver_or_discard_ready env k s in
      elim (Bool-cases (env.checkpoint p.stack.call_budget).0) [
        | inl go ↦ rw go (
            Settles-trans p.stack t
              (deliver_keys env ks (count_unit env (record p { stack = t }))).stack
              (deliver_or_discard_ready-Settles k s)
              (deliver_keys-Settles ks (count_unit env (record p { stack = t }))))
        | inr spent ↦ rw spent (deliver_keys-Settles ks (record p { stack = push_pending k s }))
      ]

  pending_loop-Settles :
      (limit : ℕ) (ks : List ReadyKey) (p : Progress B)
      → Settles p.stack (pending_loop env limit ks p).stack
  unfolding pending_loop count_unit within_budget charge_pending
  pending_loop-Settles limit [] p = Settles-refl p.stack (set_pending [] p.stack) refl refl
  pending_loop-Settles limit (k ∷ ks) p =
      let s = (within_budget env p.stack).1 in
      let t = deliver_or_discard_ready env k s in
      elim (Bool-cases (ltb p.work limit)) [
        | inr full ↦ rw full (Settles-refl p.stack (set_pending (k ∷ ks) p.stack) refl refl)
        | inl room ↦ elim (Bool-cases (env.checkpoint p.stack.call_budget).0) [
          | inr spent ↦ rw (room, spent) (Settles-refl p.stack (set_pending (k ∷ ks) s) refl refl)
          | inl go ↦
              rw (room, go)
                (Settles-trans p.stack t
                  (pending_loop env limit ks (count_unit env (record p { stack = t }))).stack
                  (deliver_or_discard_ready-Settles k s)
                  (pending_loop-Settles limit ks (count_unit env (record p { stack = t }))))
        ]
      ]

  sweep_step-Settles : (limit : ℕ) (p : Progress B) → Settles p.stack (sweep_step env limit p).stack
  unfolding sweep_step scan_step
  sweep_step-Settles limit p =
      let s = p.stack in
      let t = s.sockets.socket_table in
      let remaining = limit - p.work in
      let (scan, b) =
        scan_ready env.checkpoint t.table t.flags s.ready_sweep.cursor remaining remaining
          s.call_budget in
      elim (Bool-cases
        (s.ready_sweep.sweeping && (is_empty s.ready_sweep.pending && ltb p.work limit))) [
          | inr stop ↦ rw stop (Settles-refl s s refl refl)
          | inl go ↦
              rw go
                (deliver_keys-Settles scan.keys (record p { stack = record s { call_budget = b } }))
        ]

  drain_queue-Settles :
      (lock : LockState) (limit : ℕ) (s : NativeStack B)
      → Settles s (drain_queue env lock limit (start_sweep env s)).1
  unfolding drain_queue start_sweep
  drain_queue-Settles lock limit s =
      Settles-refl s (drain_queue env lock limit (start_sweep env s)).1 (ground arith)
        (ground arith)

  abort_loop-Settles :
      (limit : ℕ) (ns : List PendingNotification) (p : Progress B)
      → Settles p.stack (abort_loop env limit ns p).stack
  abort_loop-Settles limit ns p =
      let h = abort_loop-Sends env limit ns p in
      (
        _,
        h.outbox,
        λ i dir w waits. inl (
            ap (λ (x : StackSockets). waiting i dir x.socket_table.entries) h.keeps.sockets
            ∙ waits),
      )

  finish_call-Settles {ℓ} :
      {T : Type ℓ} (lock lock' : LockState) (result : T) (effects : Effects)
      (aborts : List PendingNotification) (s : NativeStack B)
      → Settles s (finish_call env lock lock' result effects aborts s).1
  unfolding finish_call readiness_work charge_pending
  finish_call-Settles lock lock' result effects aborts s =
      let limit = s.sockets.limits.ready_events in
      let start : Progress B = record { work = 0; uncharged = 0; stack = s } in
      let ns = s.pending_notifications ++ aborts in
      let p1 = abort_loop env limit ns start in
      let (queued, s2) = drain_queue env lock (limit - p1.work) (start_sweep env p1.stack) in
      let p3 = deliver_keys env queued (record p1 { stack = s2 }) in
      let p4 = pending_loop env limit p3.stack.ready_sweep.pending p3 in
      let p5 = sweep_step env limit p4 in
      Settles-trans s p4.stack p5.stack
        (Settles-trans s p3.stack p4.stack
          (Settles-trans s s2 p3.stack
            (Settles-trans s p1.stack s2 (abort_loop-Settles limit ns start)
              (drain_queue-Settles lock (limit - p1.work) p1.stack))
            (deliver_keys-Settles queued (record p1 { stack = s2 })))
          (pending_loop-Settles limit p3.stack.ready_sweep.pending p3))
        (sweep_step-Settles limit p4)

  -- A waiter in the table when the end of a call begins is there when it is over, in the same socket and
  -- direction, or a message that the call sends tells it, by its socket's identity, that it is ready.
  -- None is taken out and forgotten, whatever the locks, the budget and the lifecycle are.
  pub finish_call-Tells {ℓ} :
      {T : Type ℓ} (lock lock' : LockState) (result : T) (effects : Effects)
      (aborts : List PendingNotification) (s : NativeStack B) (i : SocketIdentity) (dir : Direction)
      (w : Waiter)
      → waiting i dir s.sockets.socket_table.entries ≡ some w
      → let t = (finish_call env lock lock' result effects aborts s).1 in
        (said : List Message) × (t.outbox ≡ s.outbox ++ said)
        × ((waiting i dir t.sockets.socket_table.entries ≡ some w) ⊎ Tells w i said)
  finish_call-Tells lock lock' result effects aborts s i dir w h =
      let (said, o, f) = finish_call-Settles lock lock' result effects aborts s in
      (said, o, f i dir w h)
