-- ===== src/Stack/Effort.antt =====
-- native/smolnet_core/src/stack.rs: the work of `finish_call` is within its limit.
use smolnet.Prelude.{ℕ, ◌+◌, ◌-◌, ◌≤◌, List, [], ◌∷◌, ◌++◌, arith, length}
use smolnet.Waiter.{ReadyKey}
use smolnet.Waiter.Queue.{LockState}
use smolnet.Waiter.Drain.{drain_while-split}
use smolnet.SocketTable.ScanBounds.{scan_ready-bounds}
use smolnet.Stack.Native.{NativeStack, Env, PendingNotification, send_abort, within_budget}
use smolnet.Stack.Calls.{
  Progress, count_unit, abort_loop, deliver_keys, pending_loop, start_sweep, drain_queue, scan_step,
  sweep_step, readiness_work, deliver_or_discard_ready, push_pending,
}

module _ {B : Type 0} (env : Env B) where
  abort_loop-work :
      (limit : ℕ) (ns : List PendingNotification) (p : Progress B)
      → p.work ≤ limit
      → (abort_loop env limit ns p).work ≤ limit
  unfolding abort_loop count_unit
  abort_loop-work limit [] p h = h
  abort_loop-work limit (n ∷ ns) p h =
      let ih =
        abort_loop-work limit ns
          (count_unit env (record p { stack = send_abort env n (within_budget env p.stack).1 })) in
      ground (arith, ih)

  pending_loop-work :
      (limit : ℕ) (ks : List ReadyKey) (p : Progress B)
      → p.work ≤ limit
      → (pending_loop env limit ks p).work ≤ limit
  unfolding pending_loop count_unit
  pending_loop-work limit [] p h = h
  pending_loop-work limit (k ∷ ks) p h =
      let ih = pending_loop-work limit ks (
        count_unit env
          (record p { stack = deliver_or_discard_ready env k (within_budget env p.stack).1 })) in
      ground (arith, ih)

  pub deliver_keys-work :
      (ks : List ReadyKey) (p : Progress B) → (deliver_keys env ks p).work ≤ p.work + length ks
  unfolding deliver_keys count_unit
  deliver_keys-work [] p = ground arith
  deliver_keys-work (k ∷ ks) p =
      let s = (within_budget env p.stack).1 in
      let a =
        deliver_keys-work ks
          (count_unit env (record p { stack = deliver_or_discard_ready env k s })) in
      let b = deliver_keys-work ks (record p { stack = push_pending k s }) in ground (arith, a, b)

  sweep_step-work :
      (limit : ℕ) (p : Progress B) → p.work ≤ limit → (sweep_step env limit p).work ≤ limit
  unfolding sweep_step scan_step
  sweep_step-work limit p h =
      let s = p.stack in
      let t = s.sockets.socket_table in
      let remaining = limit - p.work in
      let b =
        scan_ready-bounds env.checkpoint t.table t.flags s.ready_sweep.cursor remaining remaining
          s.call_budget in
      ground (arith, b)

  pub readiness_work-bounds :
      (lock : LockState) (aborts : List PendingNotification) (s : NativeStack B)
      → (readiness_work env lock aborts s).work ≤ s.sockets.limits.ready_events
  unfolding readiness_work drain_queue
  readiness_work-bounds lock aborts s =
      let limit = s.sockets.limits.ready_events in
      let ns = s.pending_notifications ++ aborts in
      let p1 = abort_loop env limit ns (record { work = 0; uncharged = 0; stack = s }) in
      let h1 =
        abort_loop-work limit ns (record { work = 0; uncharged = 0; stack = s }) (ground arith) in
      let s1 = start_sweep env p1.stack in
      let (queued, s2) = drain_queue env lock (limit - p1.work) s1 in
      let (split, short, kept) =
        drain_while-split env.checkpoint (limit - p1.work) lock s1.ready s1.call_budget in
      let p3 = deliver_keys env queued (record p1 { stack = s2 }) in
      let h3 = deliver_keys-work queued (record p1 { stack = s2 }) in
      sweep_step-work limit (pending_loop env limit p3.stack.ready_sweep.pending p3)
        (pending_loop-work limit p3.stack.ready_sweep.pending p3 (ground (arith, h1, h3, short)))
