-- ===== src/Stack/Deliveries.antt =====
-- native/smolnet_core/src/stack.rs: each message of a call and each wake-up that it drops is work that
-- `finish_call` counts, so that the limit on ready events is one on messages.
use smolnet.Prelude.{
  ℕ, suc, ◌+◌, ◌-◌, ◌≤◌, ◌≡◌, List, [], ◌∷◌, ◌++◌, arith, length, length-append, max,
}
use smolnet.Waiter.{ReadyKey}
use smolnet.Waiter.Queue.{LockState}
use smolnet.SocketTable.Ops.{ReadyResult, notify, no_waiter, coalesced, stale, take_ready_waiter}
use smolnet.SocketTable.Scan.{scan_ready}
use smolnet.Stack.Native.{
  NativeStack, Env, Effects, Message, abort, abort_reason, select, PendingNotification, send_abort,
  send_message, within_budget, charge_pending, observe,
}
use smolnet.Stack.Calls.{
  Progress, count_unit, abort_loop, deliver_keys, pending_loop, start_sweep, drain_queue, scan_step,
  sweep_step, readiness_work, finish_call, deliver_or_discard_ready, deliver_ready, deliver_result,
  push_pending,
}
use smolnet.Stack.Aborts.{readiness_work-peak}
use smolnet.Stack.Effort.{readiness_work-bounds, deliver_keys-work}

-- What a stack has done about wake-ups and aborts: the messages it sent and the wake-ups it dropped.
unfoldable pub handled : {B : Type 0} → NativeStack B → ℕ
handled s = length s.outbox + s.counters.readiness_dropped

module _ {B : Type 0} (env : Env B) where
  send_message-handled :
      (m : Message) (s : NativeStack B) → handled (send_message env m s) ≡ suc (handled s)
  unfolding handled send_message
  send_message-handled m s = let l = length-append s.outbox (m ∷ []) in omega (arith, l)

  send_abort-handled :
      (n : PendingNotification) (s : NativeStack B)
      → handled (send_abort env n (within_budget env s).1) ≡ suc (handled s)
  unfolding handled send_abort within_budget
  send_abort-handled n s =
      send_message-handled
        (abort n.waiter n.identity (abort_reason env s.sockets.lifecycle s.shutdown_reason))
        (within_budget env s).1

  deliver_result-handled :
      (key : ReadyKey) (r : ReadyResult) (s : NativeStack B)
      → handled (deliver_result env key r s) ≡ suc (handled s)
  unfolding handled deliver_result
  deliver_result-handled key (notify w) s = send_message-handled (select w key.identity) s
  deliver_result-handled key no_waiter s = omega arith
  deliver_result-handled key coalesced s = omega arith
  deliver_result-handled key stale s = omega arith

  deliver-handled :
      (key : ReadyKey) (s : NativeStack B)
      → handled (deliver_or_discard_ready env key (within_budget env s).1) ≡ suc (handled s)
  unfolding deliver_or_discard_ready deliver_ready within_budget handled
  deliver-handled key s =
      let (result, table) = take_ready_waiter key s.sockets.socket_table in
      let h = deliver_result-handled key result (record s {
        call_budget = (env.checkpoint s.call_budget).1;
        sockets = record s.sockets { socket_table = table };
      }) in
      ground (arith, h)

  -- Between `p` and `q` as much work was counted as messages were sent and wake-ups dropped, or more.
  abbrev Counts : Progress B → Progress B → Type 0
  Counts p q = handled q.stack + p.work ≤ handled p.stack + q.work

  count_unit-Counts :
      (p : Progress B) (s : NativeStack B)
      → handled s ≡ suc (handled p.stack)
      → Counts p (count_unit env (record p { stack = s }))
  unfolding count_unit charge_pending handled
  count_unit-Counts p s h = omega (arith, h)

  abort_loop-Counts :
      (limit : ℕ) (ns : List PendingNotification) (p : Progress B)
      → Counts p (abort_loop env limit ns p)
  unfolding abort_loop handled count_unit charge_pending within_budget
  abort_loop-Counts limit [] p = omega arith
  abort_loop-Counts limit (n ∷ ns) p =
      let h = send_abort-handled n p.stack in
      let ih =
        abort_loop-Counts limit ns
          (count_unit env (record p { stack = send_abort env n (within_budget env p.stack).1 })) in
      ground (arith, h, ih)

  pending_loop-Counts :
      (limit : ℕ) (ks : List ReadyKey) (p : Progress B) → Counts p (pending_loop env limit ks p)
  unfolding pending_loop handled count_unit charge_pending within_budget
  pending_loop-Counts limit [] p = omega arith
  pending_loop-Counts limit (k ∷ ks) p =
      let h = deliver-handled k p.stack in
      let ih = pending_loop-Counts limit ks (
        count_unit env
          (record p { stack = deliver_or_discard_ready env k (within_budget env p.stack).1 })) in
      ground (arith, h, ih)

  deliver_keys-Counts : (ks : List ReadyKey) (p : Progress B) → Counts p (deliver_keys env ks p)
  unfolding deliver_keys handled count_unit charge_pending within_budget
  deliver_keys-Counts [] p = omega arith
  deliver_keys-Counts (k ∷ ks) p =
      let s = (within_budget env p.stack).1 in
      let h = deliver-handled k p.stack in
      let a =
        deliver_keys-Counts ks
          (count_unit env (record p { stack = deliver_or_discard_ready env k s })) in
      let b = deliver_keys-Counts ks (record p { stack = push_pending k s }) in
      ground (arith, h, a, b)

  scan_step-Counts : (remaining : ℕ) (p : Progress B) → Counts p (scan_step env remaining p)
  unfolding scan_step handled
  scan_step-Counts remaining p =
      let s = p.stack in
      let t = s.sockets.socket_table in
      let (scan, b) =
        scan_ready env.checkpoint t.table t.flags s.ready_sweep.cursor remaining remaining
          s.call_budget in
      let start = record p { stack = record s { call_budget = b } } in
      let h = deliver_keys-Counts scan.keys start in
      let w = deliver_keys-work env scan.keys start in ground (arith, h, w)

  sweep_step-Counts : (limit : ℕ) (p : Progress B) → Counts p (sweep_step env limit p)
  unfolding sweep_step
  sweep_step-Counts limit p = let h = scan_step-Counts (limit - p.work) p in ground (arith, h)

  drain_queue-handled :
      (lock : LockState) (limit : ℕ) (s : NativeStack B)
      → handled (drain_queue env lock limit (start_sweep env s)).1 ≡ handled s
  unfolding drain_queue start_sweep handled
  drain_queue-handled lock limit s = ground arith

  readiness_work-Counts :
      (lock : LockState) (aborts : List PendingNotification) (s : NativeStack B)
      → handled (readiness_work env lock aborts s).stack
        ≤ handled s + (readiness_work env lock aborts s).work
  unfolding readiness_work
  readiness_work-Counts lock aborts s =
      let limit = s.sockets.limits.ready_events in
      let start : Progress B = record { work = 0; uncharged = 0; stack = s } in
      let p1 = abort_loop env limit (s.pending_notifications ++ aborts) start in
      let h1 = abort_loop-Counts limit (s.pending_notifications ++ aborts) start in
      let (queued, s2) = drain_queue env lock (limit - p1.work) (start_sweep env p1.stack) in
      let h2 = drain_queue-handled lock (limit - p1.work) p1.stack in
      let p3 = deliver_keys env queued (record p1 { stack = s2 }) in
      let h3 = deliver_keys-Counts queued (record p1 { stack = s2 }) in
      let p4 = pending_loop env limit p3.stack.ready_sweep.pending p3 in
      let h4 = pending_loop-Counts limit p3.stack.ready_sweep.pending p3 in
      let h5 = sweep_step-Counts limit p4 in omega (arith, h1, h2, h3, h4, h5)

  -- A call sends and drops, as messages and wake-ups together, no more than its limit on ready events.
  -- The maximum of ready events covers them, it is never lowered, and it is raised to no more than
  -- that limit.
  pub finish_call-bounds {ℓ} :
      {T : Type ℓ} (lock lock' : LockState) (result : T) (effects : Effects)
      (aborts : List PendingNotification) (s : NativeStack B)
      → let t = (finish_call env lock lock' result effects aborts s).1 in
        (handled t ≤ handled s + s.sockets.limits.ready_events)
        × (handled t ≤ handled s + t.counters.max_ready_events)
        × (s.counters.max_ready_events ≤ t.counters.max_ready_events)
        × (t.counters.max_ready_events
            ≤ max s.counters.max_ready_events s.sockets.limits.ready_events)
  unfolding finish_call charge_pending observe handled
  finish_call-bounds lock lock' result effects aborts s =
      let c = readiness_work-Counts lock aborts s in
      let w = readiness_work-bounds env lock aborts s in
      let e = readiness_work-peak env lock aborts s in
      (ground (arith, c, w), ground (arith, c, e), ground (arith, e), ground (arith, w, e))
