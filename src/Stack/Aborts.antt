-- ===== src/Stack/Aborts.antt =====
-- native/smolnet_core/src/stack.rs: the aborts that `finish_call` sends, and those that it keeps.
use smolnet.Prelude.{
  ℕ, ◌-◌, ◌<◌, length-append, ◌≡◌, refl, ◌∙◌, sym, ap, true, List, [], ◌∷◌, ◌++◌, map, append_assoc,
  append-nil, arith, Bool-cases, inl, inr, ltb, length,
}
use smolnet.Waiter.Queue.{LockState}
use smolnet.Stack.Native.{
  NativeStack, Env, Effects, PendingNotification, Message, abort, abort_reason, send_message,
  send_abort, within_budget, charge_pending,
}
use smolnet.Stack.Calls.{
  Progress, count_unit, abort_loop, deliver_keys, pending_loop, start_sweep, drain_queue,
  sweep_step, readiness_work, finish_call,
}
use smolnet.Stack.Selects.{
  selects_only, selects_only-append, Selects, deliver_keys-Selects, pending_loop-Selects,
  sweep_step-Selects, drain_queue-Selects,
}

module _ {B : Type 0} (env : Env B) where
  -- The message of an abort, as the stack `s` sends it.
  abbrev pub abort_message : NativeStack B → PendingNotification → Message
  abort_message s n =
      abort n.waiter n.identity (abort_reason env s.sockets.lifecycle s.shutdown_reason)

  -- Of the aborts `ns`, those of `sent` went out in order between `s` and `t`; the others are kept.
  record Aborts (ns : List PendingNotification) (s t : NativeStack B) : Type 0 where
    sent : List PendingNotification
    rest : List Message
    selects : selects_only rest ≡ true
    split : sent ++ t.pending_notifications ≡ ns
    peak : t.counters.max_ready_events ≡ s.counters.max_ready_events
    outbox : t.outbox ≡ s.outbox ++ (map (abort_message s) sent ++ rest)

  -- What the loops of a call leave alone.
  pub record Keeps (s t : NativeStack B) : Type 0 where
    pub sockets : t.sockets ≡ s.sockets
    pub connections : t.tcp_connections ≡ s.tcp_connections
    pub deadlines : t.closing_deadlines ≡ s.closing_deadlines
    pub device : t.device ≡ s.device
    pub reason : t.shutdown_reason ≡ s.shutdown_reason

  -- Of `ns` the loop sends `sent`, in order, and keeps the others; with budget and room it sends one.
  pub record Sends (limit : ℕ) (ns : List PendingNotification) (s t : NativeStack B) : Type 0 where
    pub sent : List PendingNotification
    pub split : sent ++ t.pending_notifications ≡ ns
    pub outbox : t.outbox ≡ s.outbox ++ map (abort_message s) sent
    pub keeps : Keeps s t
    pub ready : t.ready ≡ s.ready
    pub sweep : t.ready_sweep ≡ s.ready_sweep
    pub peak : t.counters.max_ready_events ≡ s.counters.max_ready_events
    pub progress :
        (env.checkpoint s.call_budget).0 ≡ true
        → 0 < limit
        → 0 < length ns
        → length t.pending_notifications < length ns

  Sends-none :
      (limit : ℕ) (ns : List PendingNotification) (b : B) (s : NativeStack B)
      → ((env.checkpoint s.call_budget).0 ≡ true
          → 0 < limit
          → 0 < length ns
          → length ns < length ns)
      → Sends limit ns s (record s { call_budget = b; pending_notifications = ns })
  Sends-none limit ns b s idle = record {
    sent = [];
    split = refl;
    outbox = sym (append-nil s.outbox);
    keeps = record {
      sockets = refl;
      connections = refl;
      deadlines = refl;
      device = refl;
      reason = refl;
    };
    ready = refl;
    sweep = refl;
    peak = refl;
    progress = idle;
  }

  pub abort_loop-Sends :
      (limit : ℕ) (ns : List PendingNotification) (p : Progress B)
      → Sends (limit - p.work) ns p.stack (abort_loop env limit ns p).stack
  unfolding abort_loop count_unit charge_pending within_budget send_abort send_message
  abort_loop-Sends limit [] p =
      Sends-none (limit - p.work) [] p.stack.call_budget p.stack (λ a b c. absurd (omega arith))
  abort_loop-Sends limit (n ∷ ns) p =
      let s = (within_budget env p.stack).1 in
      let h =
        abort_loop-Sends limit ns (count_unit env (record p { stack = send_abort env n s })) in
      let k = h.keeps in
      elim (Bool-cases (ltb p.work limit)) [
        | inr full ↦ rw full (
            Sends-none (limit - p.work) (n ∷ ns) p.stack.call_budget p.stack
              (λ a b c. absurd (ground arith)))
        | inl room ↦ elim (Bool-cases (env.checkpoint p.stack.call_budget).0) [
          | inr spent ↦
              rw (room, spent)
                (Sends-none (limit - p.work) (n ∷ ns) (env.checkpoint p.stack.call_budget).1 p.stack
                  (λ a b c. absurd (cc)))
          | inl go ↦
              rw (room, go)
                (record {
                  sent = n ∷ h.sent;
                  split = ap (λ (l : List PendingNotification). n ∷ l) h.split;
                  outbox =
                      h.outbox
                      ∙ append_assoc p.stack.outbox (abort_message p.stack n ∷ [])
                          (map (abort_message p.stack) h.sent);
                  keeps = record {
                    sockets = k.sockets;
                    connections = k.connections;
                    deadlines = k.deadlines;
                    device = k.device;
                    reason = k.reason;
                  };
                  ready = h.ready;
                  sweep = h.sweep;
                  peak = h.peak;
                  progress = λ a b c.
                      let l = ap length h.split in
                      let m =
                        length-append h.sent
                          (abort_loop env limit ns (
                            count_unit env (record p {
                              stack = send_abort env n s;
                            }))).stack.pending_notifications in
                      omega (arith, l, m);
                })
        ]
      ]

  abort_loop-Aborts :
      (limit : ℕ) (ns : List PendingNotification) (p : Progress B)
      → Aborts ns p.stack (abort_loop env limit ns p).stack
  unfolding selects_only
  abort_loop-Aborts limit ns p =
      let h = abort_loop-Sends limit ns p in
      record {
        sent = h.sent;
        rest = [];
        selects = refl;
        split = h.split;
        peak = h.peak;
        outbox =
            h.outbox
            ∙ ap (λ (m : List Message). p.stack.outbox ++ m)
                (sym (append-nil (map (abort_message p.stack) h.sent)));
      }

  Aborts-Selects :
      (ns : List PendingNotification) (s t u : NativeStack B)
      → Aborts ns s t
      → Selects env t u
      → Aborts ns s u
  Aborts-Selects ns s t u a b = record {
    sent = a.sent;
    rest = a.rest ++ b.rest;
    selects = selects_only-append a.rest b.rest a.selects b.selects;
    split = ap (λ (l : List PendingNotification). a.sent ++ l) b.aborts ∙ a.split;
    peak = b.peak ∙ a.peak;
    outbox =
        b.outbox
        ∙ (ap (λ (m : List Message). m ++ b.rest) a.outbox
            ∙ (append_assoc s.outbox (map (abort_message s) a.sent ++ a.rest) b.rest
                ∙ ap (λ (m : List Message). s.outbox ++ m)
                    (append_assoc (map (abort_message s) a.sent) a.rest b.rest)));
  }

  readiness_work-Aborts :
      (lock : LockState) (aborts : List PendingNotification) (s : NativeStack B)
      → Aborts (s.pending_notifications ++ aborts) s (readiness_work env lock aborts s).stack
  unfolding readiness_work
  readiness_work-Aborts lock aborts s =
      let limit = s.sockets.limits.ready_events in
      let ns = s.pending_notifications ++ aborts in
      let p1 = abort_loop env limit ns (record { work = 0; uncharged = 0; stack = s }) in
      let (queued, s2) = drain_queue env lock (limit - p1.work) (start_sweep env p1.stack) in
      let p3 = deliver_keys env queued (record p1 { stack = s2 }) in
      let p4 = pending_loop env limit p3.stack.ready_sweep.pending p3 in
      let p5 = sweep_step env limit p4 in
      Aborts-Selects ns s p4.stack p5.stack
        (Aborts-Selects ns s p3.stack p4.stack
          (Aborts-Selects ns s s2 p3.stack
            (Aborts-Selects ns s p1.stack s2
              (abort_loop-Aborts limit ns (record { work = 0; uncharged = 0; stack = s }))
              (drain_queue-Selects env lock (limit - p1.work) p1.stack))
            (deliver_keys-Selects env queued (record p1 { stack = s2 })))
          (pending_loop-Selects env limit p3.stack.ready_sweep.pending p3))
        (sweep_step-Selects env limit p4)

  -- What a call says: `Aborts`, without the counter that its end may raise.
  pub record SendsAborts (ns : List PendingNotification) (s t : NativeStack B) : Type 0 where
    pub sent : List PendingNotification
    pub rest : List Message
    pub selects : selects_only rest ≡ true
    pub split : sent ++ t.pending_notifications ≡ ns
    pub outbox : t.outbox ≡ s.outbox ++ (map (abort_message s) sent ++ rest)

  -- A call sends the waiting aborts first in, first out, each once and before any wake-up, and keeps
  -- the others in order for a later call.
  pub finish_call-SendsAborts {ℓ} :
      {T : Type ℓ} (lock lock' : LockState) (result : T) (effects : Effects)
      (aborts : List PendingNotification) (s : NativeStack B)
      → SendsAborts
          (s.pending_notifications ++ aborts)
          s
          (finish_call env lock lock' result effects aborts s).1
  unfolding finish_call charge_pending
  finish_call-SendsAborts lock lock' result effects aborts s =
      let h = readiness_work-Aborts lock aborts s in
      record {
        sent = h.sent;
        rest = h.rest;
        selects = h.selects;
        split = h.split;
        outbox = h.outbox;
      }

  pub readiness_work-peak :
      (lock : LockState) (aborts : List PendingNotification) (s : NativeStack B)
      → (readiness_work env lock aborts s).stack.counters.max_ready_events
        ≡ s.counters.max_ready_events
  readiness_work-peak lock aborts s = (readiness_work-Aborts lock aborts s).peak
