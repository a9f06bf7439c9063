-- ===== src/Stack/Ends.antt =====
-- native/smolnet_core/src/stack.rs: `finish_call` on a stack that shuts down sends aborts, and no more.
use smolnet.Prelude.{ℕ, ◌-◌, ◌≡◌, ap, ◌∙◌, false, List, ◌++◌, map, arith}
use smolnet.Waiter.Queue.{LockState}
use smolnet.Stack.State.{is_running}
use smolnet.Stack.Native.{NativeStack, Env, Effects, PendingNotification, charge_pending}
use smolnet.Stack.Calls.{
  Progress, abort_loop, deliver_keys, pending_loop, start_sweep, drain_queue, sweep_step,
  readiness_work, finish_call,
}
use smolnet.Stack.Aborts.{Keeps, abort_message, abort_loop-Sends}
use smolnet.Stack.Drops.{Drops, deliver_keys-Drops, pending_loop-Drops}

module _ {B : Type 0} (env : Env B) where
  -- What a call of such a stack does: of the aborts `ns` it sends some, in order, and nothing else.
  pub record Ends (ns : List PendingNotification) (s t : NativeStack B) : Type 0 where
    pub sent : List PendingNotification
    pub split : sent ++ t.pending_notifications ≡ ns
    pub outbox : t.outbox ≡ s.outbox ++ map (abort_message env s) sent
    pub keeps : Keeps env s t
    pub sweeping : t.ready_sweep.sweeping ≡ false

  Keeps-trans : (s t u : NativeStack B) → Keeps env s t → Keeps env t u → Keeps env s u
  Keeps-trans s t u a b = record {
    sockets = b.sockets ∙ a.sockets;
    connections = b.connections ∙ a.connections;
    deadlines = b.deadlines ∙ a.deadlines;
    device = b.device ∙ a.device;
    reason = b.reason ∙ a.reason;
  }

  pub Ends-Drops :
      (ns : List PendingNotification) (s t u : NativeStack B)
      → Ends ns s t
      → Drops env t u
      → Ends ns s u
  Ends-Drops ns s t u a b = record {
    sent = a.sent;
    split = ap (λ (l : List PendingNotification). a.sent ++ l) b.aborts ∙ a.split;
    outbox = b.outbox ∙ a.outbox;
    keeps = Keeps-trans s t u a.keeps b.keeps;
    sweeping = b.sweeping ∙ a.sweeping;
  }

  pub Ends-off :
      (ns : List PendingNotification) (s t : NativeStack B)
      → Ends ns s t
      → is_running s.sockets.lifecycle ≡ false
      → is_running t.sockets.lifecycle ≡ false
  Ends-off ns s t h off = let e = h.keeps.sockets in rw e off

  -- The stack before its queue is drained, and after.
  pub abort_loop-Ends :
      (lock : LockState) (limit : ℕ) (ns : List PendingNotification) (s : NativeStack B)
      → s.ready_sweep.sweeping ≡ false
      → is_running s.sockets.lifecycle ≡ false
      → let p = abort_loop env limit ns (record { work = 0; uncharged = 0; stack = s }) in
        Ends ns s (drain_queue env lock (limit - p.work) (start_sweep env p.stack)).1
  unfolding drain_queue start_sweep
  abort_loop-Ends lock limit ns s still off =
      let p = abort_loop env limit ns (record { work = 0; uncharged = 0; stack = s }) in
      let h = abort_loop-Sends env limit ns (record { work = 0; uncharged = 0; stack = s }) in
      let k = h.keeps in
      let e = h.keeps.sockets in
      let off' : is_running p.stack.sockets.lifecycle ≡ false = rw e off in
      let w : p.stack.ready_sweep.sweeping ≡ false = let f = h.sweep in rw f still in
      record {
        sent = h.sent;
        split = ground (arith, h.split, off');
        outbox = ground (arith, h.outbox, off');
        keeps = record {
          sockets = ground (arith, k.sockets, off');
          connections = ground (arith, k.connections, off');
          deadlines = ground (arith, k.deadlines, off');
          device = ground (arith, k.device, off');
          reason = ground (arith, k.reason, off');
        };
        sweeping = ground (arith, w, off');
      }

  pub sweep_step-off :
      (limit : ℕ) (p : Progress B)
      → p.stack.ready_sweep.sweeping ≡ false
      → sweep_step env limit p ≡ p
  unfolding sweep_step
  sweep_step-off limit p h = ground arith

  readiness_work-Ends :
      (lock : LockState) (aborts : List PendingNotification) (s : NativeStack B)
      → s.ready_sweep.sweeping ≡ false
      → is_running s.sockets.lifecycle ≡ false
      → Ends (s.pending_notifications ++ aborts) s (readiness_work env lock aborts s).stack
  unfolding readiness_work
  readiness_work-Ends lock aborts s still off =
      let limit = s.sockets.limits.ready_events in
      let ns = s.pending_notifications ++ aborts in
      let p1 = abort_loop env limit ns (record { work = 0; uncharged = 0; stack = s }) in
      let (queued, s2) = drain_queue env lock (limit - p1.work) (start_sweep env p1.stack) in
      let e2 = abort_loop-Ends lock limit ns s still off in
      let p3 = deliver_keys env queued (record p1 { stack = s2 }) in
      let e3 =
        Ends-Drops ns s s2 p3.stack e2
          (deliver_keys-Drops env queued (record p1 { stack = s2 }) (Ends-off ns s s2 e2 off)) in
      let p4 = pending_loop env limit p3.stack.ready_sweep.pending p3 in
      let e4 = Ends-Drops ns s p3.stack p4.stack e3 (
        pending_loop-Drops env limit p3.stack.ready_sweep.pending p3
          (Ends-off ns s p3.stack e3 off)) in
      let o = sweep_step-off limit p4 e4.sweeping in rw o e4

  pub finish_call-Ends {ℓ} :
      {T : Type ℓ} (lock lock' : LockState) (result : T) (effects : Effects)
      (aborts : List PendingNotification) (s : NativeStack B)
      → s.ready_sweep.sweeping ≡ false
      → is_running s.sockets.lifecycle ≡ false
      → Ends
          (s.pending_notifications ++ aborts)
          s
          (finish_call env lock lock' result effects aborts s).1
  unfolding finish_call charge_pending
  finish_call-Ends lock lock' result effects aborts s still off =
      let h = readiness_work-Ends lock aborts s still off in
      let k = h.keeps in
      record {
        sent = h.sent;
        split = h.split;
        outbox = h.outbox;
        sweeping = h.sweeping;
        keeps = record {
          sockets = k.sockets;
          connections = k.connections;
          deadlines = k.deadlines;
          device = k.device;
          reason = k.reason;
        };
      }
