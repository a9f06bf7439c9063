-- ===== src/Stack/Clears.antt =====
-- native/smolnet_core/src/stack.rs: with budget, `finish_call` on a stack that shuts down gets on with the
-- aborts and the keys.
use smolnet.Prelude.{
  ℕ, suc, ◌-◌, ◌≤◌, ◌<◌, ◌≡◌, refl, ap, ◌∙◌, length, true, false, List, [], ◌∷◌, ◌++◌,
  length-append, arith,
}
use smolnet.Waiter.{ReadyKey}
use smolnet.Waiter.Queue.{
  ReadyState, LockState, free, take_overflow, drain_while, drain_locked, drain_loop, try_entries,
}
use smolnet.Stack.State.{is_running}
use smolnet.Stack.Native.{
  NativeStack, Env, ReadySweep, Effects, PendingNotification, charge_pending,
}
use smolnet.Stack.Calls.{
  Progress, abort_loop, deliver_keys, pending_loop, start_sweep, drain_queue, readiness_work,
  finish_call,
}
use smolnet.Stack.Aborts.{abort_loop-Sends}
use smolnet.Stack.Drops.{deliver_keys-Drops, deliver_keys-pending, pending_loop-Drops}
use smolnet.Stack.Ends.{Ends-Drops, Ends-off, abort_loop-Ends, sweep_step-off}

module _ {B : Type 0} (env : Env B) where
  drain_loop-left :
      (limit taken : ℕ) (es : List ReadyKey) (b : B)
      → length (drain_loop env.checkpoint limit taken es b).left ≤ length es - 1
  unfolding drain_loop
  drain_loop-left limit taken [] b = omega arith
  drain_loop-left limit taken (k ∷ es) b =
      ground (arith, drain_loop-left limit (suc taken) es (env.checkpoint b).1)

  -- A drain with budget takes at least one key of a queue that holds any.
  drain_while-less :
      (limit : ℕ) (s : ReadyState) (b : B)
      → ((b : B) → (env.checkpoint b).0 ≡ true)
      → (length (drain_while env.checkpoint limit free s b).1.entries ≤ length s.entries)
        × (0 < limit
            → 0 < length s.entries
            → length (drain_while env.checkpoint limit free s b).1.entries < length s.entries)
        × ((drain_while env.checkpoint limit free s b).1.overflow ≡ s.overflow)
  unfolding drain_while drain_locked try_entries
  drain_while-less limit s b unlimited =
      let d = drain_loop-left limit 0 s.entries (env.checkpoint b).1 in
      rw (unlimited b) (ground (arith, d), λ l e. ground (arith, d), ground arith)

  -- With budget, what a call on a stack that shuts down leaves of the keys and the aborts.
  pub record Clears (ns : List PendingNotification) (s t : NativeStack B) : Type 0 where
    pub pending : t.ready_sweep.pending ≡ []
    pub overflow : t.ready.overflow ≡ false
    pub keys : length t.ready.entries ≤ length s.ready.entries
    pub aborts : length t.pending_notifications ≤ length ns
    pub less_aborts : 0 < length ns → length t.pending_notifications < length ns
    pub less_keys :
        length ns ≡ 0 → 0 < length s.ready.entries → length t.ready.entries < length s.ready.entries

  start_sweep-ready :
      (s : NativeStack B)
      → is_running s.sockets.lifecycle ≡ false
      → ((start_sweep env s).ready ≡ record s.ready { overflow = false })
        × ((start_sweep env s).ready_sweep ≡ s.ready_sweep)
  unfolding start_sweep take_overflow
  start_sweep-ready s off = (ground (arith, off), ground (arith, off))

  abort_loop-idle :
      (limit : ℕ) (ns : List PendingNotification) (p : Progress B)
      → length ns ≡ 0
      → (abort_loop env limit ns p).work ≡ p.work
  unfolding abort_loop
  abort_loop-idle limit [] p h = refl
  abort_loop-idle limit (n ∷ ns) p h = absurd (omega arith)

  pending_loop-none :
      (limit : ℕ) (ks : List ReadyKey) (p : Progress B)
      → ks ≡ []
      → (pending_loop env limit ks p).stack.ready_sweep.pending ≡ []
  unfolding pending_loop
  pending_loop-none limit [] p h = refl
  pending_loop-none limit (k ∷ ks) p h = absurd (cc)

  readiness_work-Clears :
      (aborts : List PendingNotification) (s : NativeStack B)
      → ((b : B) → (env.checkpoint b).0 ≡ true)
      → 0 < s.sockets.limits.ready_events
      → s.ready_sweep.sweeping ≡ false
      → s.ready_sweep.pending ≡ []
      → is_running s.sockets.lifecycle ≡ false
      → Clears (s.pending_notifications ++ aborts) s (readiness_work env free aborts s).stack
  unfolding readiness_work
  readiness_work-Clears aborts s unlimited room still none_pending off =
      let limit = s.sockets.limits.ready_events in
      let ns = s.pending_notifications ++ aborts in
      let p1 = abort_loop env limit ns (record { work = 0; uncharged = 0; stack = s }) in
      let h1 = abort_loop-Sends env limit ns (record { work = 0; uncharged = 0; stack = s }) in
      let (queued, s2) = drain_queue env free (limit - p1.work) (start_sweep env p1.stack) in
      let e2 = abort_loop-Ends env free limit ns s still off in
      let off2 = Ends-off env ns s s2 e2 off in
      let p3 = deliver_keys env queued (record p1 { stack = s2 }) in
      let d3 = deliver_keys-Drops env queued (record p1 { stack = s2 }) off2 in
      let q3 = deliver_keys-pending env queued (record p1 { stack = s2 }) unlimited off2 in
      let e3 = Ends-Drops env ns s s2 p3.stack e2 d3 in
      let p4 = pending_loop env limit p3.stack.ready_sweep.pending p3 in
      let d4 =
        pending_loop-Drops env limit p3.stack.ready_sweep.pending p3
          (Ends-off env ns s p3.stack e3 off) in
      let e4 = Ends-Drops env ns s p3.stack p4.stack e3 d4 in
      let o = sweep_step-off env limit p4 e4.sweeping in
      let s1 = start_sweep env p1.stack in
      let p1_off : is_running p1.stack.sockets.lifecycle ≡ false =
        let e = h1.keeps.sockets in rw e off in
      let (r, w) = start_sweep-ready p1.stack p1_off in
      let entries : s1.ready.entries ≡ s.ready.entries =
        ap (λ (x : ReadyState). x.entries) r ∙ ap (λ (x : ReadyState). x.entries) h1.ready in
      let l = ap length entries in
      let overflow : s1.ready.overflow ≡ false = ap (λ (x : ReadyState). x.overflow) r in
      let kept : s2.ready_sweep.pending ≡ [] =
        unfold drain_queue in
        (ap (λ (x : ReadySweep). x.pending) w
          ∙ (ap (λ (x : ReadySweep). x.pending) h1.sweep ∙ none_pending)) in
      let d = drain_while-less (limit - p1.work) s1.ready s1.call_budget unlimited in
      let back : p4.stack.ready ≡ s2.ready = d4.ready ∙ d3.ready in
      let back' : s2.ready
          ≡ (drain_while env.checkpoint (limit - p1.work) free s1.ready s1.call_budget).1 =
        unfold drain_queue in refl in
      let k = ap (λ (x : ReadyState). length x.entries) (back ∙ back') in
      let v = ap (λ (x : ReadyState). x.overflow) (back ∙ back') in
      let a = ap length (d4.aborts ∙ d3.aborts) in
      let a' : length s2.pending_notifications ≡ length p1.stack.pending_notifications =
        unfold drain_queue start_sweep in ground (arith, p1_off) in
      let u = ap length h1.split in
      let u' = length-append h1.sent p1.stack.pending_notifications in
      rw o (record {
        pending = pending_loop-none limit p3.stack.ready_sweep.pending p3 (q3 ∙ kept);
        overflow = v ∙ (d.2 ∙ overflow);
        keys = omega (arith, k, d, l);
        aborts = omega (arith, a, a', u, u');
        less_aborts = λ some_left.
            let g = h1.progress (unlimited s.call_budget) (omega (arith, room)) some_left in
            omega (arith, g, a, a');
        less_keys = λ none_left some_key.
            let i =
              abort_loop-idle limit ns (record { work = 0; uncharged = 0; stack = s }) none_left in
            let g = d.1 (omega (arith, i, room)) (omega (arith, l, some_key)) in
            omega (arith, g, k, l);
      })

  pub finish_call-Clears {ℓ} :
      {T : Type ℓ} (lock' : LockState) (result : T) (effects : Effects)
      (aborts : List PendingNotification) (s : NativeStack B)
      → ((b : B) → (env.checkpoint b).0 ≡ true)
      → 0 < s.sockets.limits.ready_events
      → s.ready_sweep.sweeping ≡ false
      → s.ready_sweep.pending ≡ []
      → is_running s.sockets.lifecycle ≡ false
      → Clears
          (s.pending_notifications ++ aborts)
          s
          (finish_call env free lock' result effects aborts s).1
  unfolding finish_call charge_pending
  finish_call-Clears lock' result effects aborts s unlimited room still none_pending off =
      let h = readiness_work-Clears aborts s unlimited room still none_pending off in
      record {
        pending = h.pending;
        overflow = h.overflow;
        keys = h.keys;
        aborts = h.aborts;
        less_aborts = h.less_aborts;
        less_keys = h.less_keys;
      }
