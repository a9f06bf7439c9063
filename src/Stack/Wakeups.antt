-- ===== src/Stack/Wakeups.antt =====
-- native/smolnet_core/src/stack.rs: `finish_call` loses no wake-up, and does no more than its limit.
use smolnet.Prelude.{
  ℕ, ◌-◌, ◌≡◌, refl, ap, true, false, ◌&&◌, List, [], ◌∷◌, ◌++◌, arith, Bool-cases, inl, inr, ltb,
}
use smolnet.Waiter.{ReadyKey}
use smolnet.Waiter.Queue.{ReadyState, LockState, contains, has_pending, try_entries, is_nonempty}
use smolnet.SocketTable.Invariant.{IsValid}
use smolnet.SocketTable.Scan.{scan_ready}
use smolnet.Stack.State.{is_running}
use smolnet.Stack.Native.{
  NativeStack, Env, Effects, ReadySweep, PendingNotification, charge_pending,
}
use smolnet.Stack.Calls.{
  Progress, abort_loop, deliver_keys, pending_loop, set_pending, start_sweep, drain_queue,
  scan_step, sweep_step, readiness_work, finish_call,
}
use smolnet.Device.{is_empty}
use smolnet.Stack.Aborts.{abort_loop-Sends}
use smolnet.Stack.Delivery.{is_due}
use smolnet.Stack.Tracking.{covered, Owed, Handled, deliver_keys-Handled, pending_loop-Handled}
use smolnet.Stack.Completion.{
  IsTracked, start_sweep-covered, drain_queue-covered, covered-marks, scan_step-IsTracked,
}

covered-pending :
    (r : ReadyState) (w : ReadySweep) (ks : List ReadyKey) (k : ReadyKey)
    → covered r (record w { pending = ks }) k ≡ covered r w k
unfolding covered
covered-pending r w ks k = refl

-- What a loop over keys hands on is tracked, when its marks cover what it does not hold.
Handled-IsTracked :
    {B : Type 0} (env : Env B) (hand : List ReadyKey) (s t : NativeStack B)
    → Handled env hand s t
    → Owed (covered s.ready s.ready_sweep) hand s.ready_sweep.pending s.sockets.socket_table
    → IsTracked t
Handled-IsTracked env hand s t h o = λ k d.
    let x = h.owed (covered s.ready s.ready_sweep) o k d in
    let m =
      covered-marks t.ready s.ready t.ready_sweep
        (record s.ready_sweep { pending = t.ready_sweep.pending }) k h.ready h.sweep in
    let m' = covered-pending s.ready s.ready_sweep t.ready_sweep.pending k in
    ground (arith, x, m, m')

-- A running stack with a valid table that has track of its due keys.
pub record IsSound {B : Type 0} (s : NativeStack B) : Type 0 where
  pub live : is_running s.sockets.lifecycle ≡ true
  pub valid : IsValid s.sockets.socket_table
  pub tracked : IsTracked s

IsSound-Owed :
    {B : Type 0} (s : NativeStack B)
    → IsSound s
    → Owed (covered s.ready s.ready_sweep) s.ready_sweep.pending [] s.sockets.socket_table
unfolding contains
IsSound-Owed s h = λ k d. let x = h.tracked k d in ground (arith, x)

Handled-IsSound :
    {B : Type 0} (env : Env B) (hand : List ReadyKey) (s t : NativeStack B)
    → Handled env hand s t
    → is_running s.sockets.lifecycle ≡ true
    → IsValid s.sockets.socket_table
    → Owed (covered s.ready s.ready_sweep) hand s.ready_sweep.pending s.sockets.socket_table
    → IsSound t
Handled-IsSound env hand s t h live valid o = record {
  live = rw h.lifecycle live;
  valid = h.valid valid;
  tracked = Handled-IsTracked env hand s t h o;
}

is_empty-nil : {A : Type 0} (xs : List A) → is_empty xs ≡ true → xs ≡ []
is_empty-nil [] h = refl
is_empty-nil (x ∷ xs) h = absurd (cc)

module _ {B : Type 0} (env : Env B) where
  abort_loop-IsSound :
      (limit : ℕ) (ns : List PendingNotification) (p : Progress B)
      → IsSound p.stack
      → IsSound (abort_loop env limit ns p).stack
  abort_loop-IsSound limit ns p h =
      let f = abort_loop-Sends env limit ns p in
      let a = f.keeps.sockets in
      let b = f.ready in
      let c = f.sweep in
      let q = (abort_loop env limit ns p).stack in
      record {
        live = rw a h.live;
        valid = rw a h.valid;
        tracked = λ k d.
            let x = h.tracked k (rw a at d) in
            let e : q.ready_sweep.pending ≡ p.stack.ready_sweep.pending =
              ap (λ (w : ReadySweep). w.pending) c in
            let m = covered-marks q.ready p.stack.ready q.ready_sweep p.stack.ready_sweep k b c in
            rw (m, e) x;
      }

  start_sweep-frame :
      (s : NativeStack B)
      → ((start_sweep env s).sockets ≡ s.sockets)
        × ((start_sweep env s).ready_sweep.pending ≡ s.ready_sweep.pending)
  unfolding start_sweep
  start_sweep-frame s = ground arith

  start_sweep-IsSound : (s : NativeStack B) → IsSound s → IsSound (start_sweep env s)
  start_sweep-IsSound s h =
      let (a, b) = start_sweep-frame s in
      record {
        live = rw a h.live;
        valid = rw a h.valid;
        tracked = λ k d.
            let x = h.tracked k (rw a at d) in
            let c = start_sweep-covered env s k h.live in rw b (ground (arith, x, c));
      }

  drain_queue-IsSound :
      (lock : LockState) (limit : ℕ) (p : Progress B)
      → IsSound p.stack
      → let (queued, s) = drain_queue env lock limit p.stack in
        IsSound (deliver_keys env queued (record p { stack = s })).stack
  drain_queue-IsSound lock limit p h =
      let (queued, s) = drain_queue env lock limit p.stack in
      Handled-IsSound env queued s (deliver_keys env queued (record p { stack = s })).stack
        (deliver_keys-Handled env queued (record p { stack = s }) (unfold drain_queue in h.live))
        (unfold drain_queue in h.live) (unfold drain_queue in h.valid)
        (unfold drain_queue contains in
          (λ k d.
            let x = h.tracked k d in
            let c = drain_queue-covered env lock limit p.stack k in ground (arith, x, c)))

  pending_loop-IsSound :
      (limit : ℕ) (p : Progress B)
      → IsSound p.stack
      → IsSound (pending_loop env limit p.stack.ready_sweep.pending p).stack
  pending_loop-IsSound limit p h =
      let ks = p.stack.ready_sweep.pending in
      Handled-IsSound env ks (set_pending [] p.stack) (pending_loop env limit ks p).stack
        (pending_loop-Handled env limit ks p h.live) h.live h.valid
        (λ k d.
          let x = IsSound-Owed p.stack h k d in
          let m = covered-pending p.stack.ready p.stack.ready_sweep [] k in rw m x)

  scan_step-IsSound :
      (remaining : ℕ) (p : Progress B)
      → IsSound p.stack
      → p.stack.ready_sweep.sweeping ≡ true
      → p.stack.ready_sweep.pending ≡ []
      → IsSound (scan_step env remaining p).stack
  unfolding scan_step
  scan_step-IsSound remaining p h on none_pending =
      let s = p.stack in
      let t = s.sockets.socket_table in
      let (scan, b) =
        scan_ready env.checkpoint t.table t.flags s.ready_sweep.cursor remaining remaining
          s.call_budget in
      let d =
        deliver_keys-Handled env scan.keys (record p { stack = record s { call_budget = b } })
          h.live in
      record {
        live = rw d.lifecycle h.live;
        valid = d.valid h.valid;
        tracked = scan_step-IsTracked env remaining p h.live h.valid on none_pending h.tracked;
      }

  sweep_step-IsSound :
      (limit : ℕ) (p : Progress B) → IsSound p.stack → IsSound (sweep_step env limit p).stack
  unfolding sweep_step
  sweep_step-IsSound limit p h =
      elim (Bool-cases (
        p.stack.ready_sweep.sweeping
        && (is_empty p.stack.ready_sweep.pending && ltb p.work limit))) [
          | inr stop ↦ rw stop h
          | inl go ↦ rw go (
              scan_step-IsSound (limit - p.work) p h (ground arith)
                (is_empty-nil p.stack.ready_sweep.pending (ground arith)))
        ]

  readiness_work-IsSound :
      (lock : LockState) (aborts : List PendingNotification) (s : NativeStack B)
      → IsSound s
      → IsSound (readiness_work env lock aborts s).stack
  unfolding readiness_work
  readiness_work-IsSound lock aborts s h =
      let limit = s.sockets.limits.ready_events in
      let ns = s.pending_notifications ++ aborts in
      let p1 = abort_loop env limit ns (record { work = 0; uncharged = 0; stack = s }) in
      let h1 = abort_loop-IsSound limit ns (record { work = 0; uncharged = 0; stack = s }) h in
      let s1 = start_sweep env p1.stack in
      let h2 = start_sweep-IsSound p1.stack h1 in
      let (queued, s2) = drain_queue env lock (limit - p1.work) s1 in
      let p3 = deliver_keys env queued (record p1 { stack = s2 }) in
      let h3 = drain_queue-IsSound lock (limit - p1.work) (record p1 { stack = s1 }) h2 in
      sweep_step-IsSound limit (pending_loop env limit p3.stack.ready_sweep.pending p3)
        (pending_loop-IsSound limit p3 h3)

  empty-contains :
      (k : ReadyKey) (ks : List ReadyKey) → is_nonempty ks ≡ false → contains k ks ≡ false
  unfolding contains is_nonempty
  empty-contains k [] q = refl
  empty-contains k (x ∷ xs) q = absurd (cc)

  pending-none :
      (lock : LockState) (r : ReadyState) (k : ReadyKey)
      → has_pending lock r ≡ false
      → (r.overflow ≡ false) × (contains k r.entries ≡ false)
  unfolding has_pending try_entries
  pending-none LockState.free r k h = (ground arith, empty-contains k r.entries (ground arith))
  pending-none LockState.poisoned r k h = (ground arith, empty-contains k r.entries (ground arith))
  pending-none LockState.would_block r k h = absurd (ground arith)

  -- With no key queued or pending and no sweep, none is due.
  IsSound-idle :
      (s : NativeStack B) (k : ReadyKey)
      → IsSound s
      → contains k s.ready.entries ≡ false
      → s.ready.overflow ≡ false
      → s.ready_sweep.pending ≡ []
      → s.ready_sweep.sweeping ≡ false
      → is_due s.sockets.socket_table k ≡ false
  unfolding covered contains
  IsSound-idle s k h c o p w = elim (Bool-cases (is_due s.sockets.socket_table k)) [
    | inr clear ↦ clear
    | inl due ↦
        let x = h.tracked k due in
        let e : contains k s.ready_sweep.pending ≡ contains k [] = ap (contains k) p in
        absurd (ground (arith, e))
  ]

  -- The end of a call keeps a stack sound: running, with a valid table, and with each due key in the
  -- ready queue, behind the overflow mark, ahead of the sweep or among the pending keys.
  pub finish_call-IsSound {ℓ} :
      {T : Type ℓ} (lock lock' : LockState) (result : T) (effects : Effects)
      (aborts : List PendingNotification) (s : NativeStack B)
      → IsSound s
      → IsSound (finish_call env lock lock' result effects aborts s).1
  unfolding finish_call charge_pending
  finish_call-IsSound lock lock' result effects aborts s h =
      let g = readiness_work-IsSound lock aborts s h in
      record { live = g.live; valid = g.valid; tracked = g.tracked }

  -- When a call on a sound stack (running, with a valid table and track of each due key) ends and says
  -- that there is nothing more to do, no key of the table is due.
  pub finish_call-idle {ℓ} :
      {T : Type ℓ} (lock lock' : LockState) (result : T) (effects : Effects)
      (aborts : List PendingNotification) (s : NativeStack B) (k : ReadyKey)
      → IsSound s
      → (finish_call env lock lock' result effects aborts s).0.more ≡ false
      → is_due (finish_call env lock lock' result effects aborts s).1.sockets.socket_table k ≡ false
  unfolding finish_call charge_pending
  finish_call-idle lock lock' result effects aborts s k h quiet =
      let t = (readiness_work env lock aborts s).stack in
      let g = readiness_work-IsSound lock aborts s h in
      let (o, c) = pending-none lock' t.ready k (ground arith) in
      IsSound-idle t k g c o (is_empty-nil t.ready_sweep.pending (ground arith)) (ground arith)
