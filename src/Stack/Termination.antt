-- ===== src/Stack/Termination.antt =====
-- native/smolnet_core/src/stack.rs: a shutdown ends.
use smolnet.Prelude.{
  ℕ, zero, suc, ◌+◌, ◌≤◌, ◌<◌, ◌≡◌, refl, ap, ◌∙◌, length, true, false, [], append-nil, replicate,
  ltb, arith, Bool-cases, inl, inr, ◌⊎◌,
}
use smolnet.Waiter.Queue.{ReadyState, free, has_pending, try_entries, is_nonempty}
use smolnet.Limits.{Limits}
use smolnet.SocketTable.{len}
use smolnet.Device.{BeamDevice, queued_packets}
use smolnet.Stack.State.{StackSockets, shutting_down, shutdown, is_running}
use smolnet.Stack.Native.{NativeStack, Env, AbortReason, ReadySweep, observe}
use smolnet.Stack.Calls.{Progress}
use smolnet.Device.{is_empty}
use smolnet.Stack.Aborts.{Keeps}
use smolnet.Stack.Shutdown.{
  shutdown_work, shutdown_structures_pending, shutdown_pending, finish_shutdown, continue_shutdown,
  begin_shutdown, is_shutdown, shutdown_stack, shutdown_polls,
}
use smolnet.Stack.Removals.{remains}
use smolnet.Stack.Ends.{finish_call-Ends}
use smolnet.Stack.Clears.{finish_call-Clears}
use smolnet.Stack.Slices.{
  is_empty-length, is_nonempty-length, length-is_empty, length-nil, is_shutdown-eq,
  shutdown_loop-less, before_end, before_end-Slice, IsClosing, end_of, continue_shutdown-cases,
}

module _ {B : Type 0} (env : Env B) where
  -- What a shutdown has to do: its structures, its aborts and the keys that are ready.
  abbrev pub shutdown_size : NativeStack B → ℕ
  shutdown_size s = remains s + length s.ready.entries

  remains-Keeps :
      (t u : NativeStack B)
      → Keeps env t u
      → remains u + length t.pending_notifications ≡ remains t + length u.pending_notifications
  unfolding remains
  remains-Keeps t u k =
      let a = ap (λ (w : StackSockets). length w.socket_table.entries) k.sockets in
      let b = ap (λ (w : StackSockets). length w.tcp_records) k.sockets in
      let c = ap (λ (w : StackSockets). length w.tcp_listeners) k.sockets in
      let d = ap (λ (w : StackSockets). length w.udp_records) k.sockets in
      let e = ap (λ (w : StackSockets). length w.closing_tcp) k.sockets in
      let f = ap length k.connections in
      let g = ap length k.deadlines in
      let h = ap (λ (w : BeamDevice). length w.receive) k.device in
      let i = ap (λ (w : BeamDevice). length w.transmit) k.device in
      omega (arith, a, b, c, d, e, f, g, h, i)

  notifications-remains : (s : NativeStack B) → length s.pending_notifications ≤ remains s
  unfolding remains
  notifications-remains s = omega arith

  shutdown_pending-size :
      (s : NativeStack B)
      → shutdown_size s ≡ 0
      → s.ready.overflow ≡ false
      → s.ready_sweep.sweeping ≡ false
      → s.ready_sweep.pending ≡ []
      → shutdown_pending free s ≡ false
  unfolding shutdown_pending shutdown_structures_pending remains len queued_packets has_pending
      try_entries is_nonempty
  shutdown_pending-size s z o w p =
      let a = is_empty-length s.sockets.tcp_records (omega (arith, z)) in
      let b = is_empty-length s.sockets.tcp_listeners (omega (arith, z)) in
      let c = is_empty-length s.sockets.udp_records (omega (arith, z)) in
      let d = is_empty-length s.tcp_connections (omega (arith, z)) in
      let e = is_empty-length s.sockets.closing_tcp (omega (arith, z)) in
      let f = is_empty-length s.closing_deadlines (omega (arith, z)) in
      let g = is_empty-length s.pending_notifications (omega (arith, z)) in
      let h = is_nonempty-length s.ready.entries (omega (arith, z)) in
      let i = is_empty-length s.ready_sweep.pending (ap length p) in
      ground (arith, z, a, b, c, d, e, f, g, h, i, o, w)

  -- What every round of a shutdown finds, when the calls have budget.
  record IsReady (s : NativeStack B) : Type 0 where
    closing : IsClosing s
    pending : s.ready_sweep.pending ≡ []
    events : 0 < s.sockets.limits.ready_events
    work : 0 < s.sockets.limits.maintenance_work

  before_end-less :
      (s : NativeStack B)
      → ((b : B) → (env.checkpoint b).0 ≡ true)
      → 0 < s.sockets.limits.maintenance_work
      → is_empty s.pending_notifications ≡ true
      → 0 < remains s
      → remains (before_end env s).1 < remains s
  unfolding before_end shutdown_work observe
  before_end-less s unlimited room none_pending some_left =
      let n = length-nil s.pending_notifications none_pending in
      let p : Progress B = record { work = 0; uncharged = 0; stack = s } in
      let h =
        shutdown_loop-less env s.sockets.limits.maintenance_work p unlimited room
          (omega (arith, n, some_left)) in
      rw none_pending (unfold remains in h)

  end_of-size :
      (s : NativeStack B)
      → ((b : B) → (env.checkpoint b).0 ≡ true)
      → IsReady s
      → IsReady (end_of env free free s)
        × ((end_of env free free s).ready.overflow ≡ false)
        × ((shutdown_size (end_of env free free s) < shutdown_size s)
            ⊎ (shutdown_size (end_of env free free s) ≡ 0))
  unfolding end_of
  end_of-size s unlimited h =
      let t = (before_end env s).1 in
      let u = end_of env free free s in
      let a = before_end-Slice env s in
      let d = a.steady in
      let c = h.closing in
      let live : t.sockets.lifecycle ≡ shutting_down = d.lifecycle ∙ c.lifecycle in
      let off : is_running t.sockets.lifecycle ≡ false = rw live refl in
      let still : t.ready_sweep.sweeping ≡ false =
        ap (λ (w : ReadySweep). w.sweeping) d.sweep ∙ c.sweeping in
      let empty : t.ready_sweep.pending ≡ [] =
        ap (λ (w : ReadySweep). w.pending) d.sweep ∙ h.pending in
      let l = ap (λ (w : Limits). w.ready_events) d.limits in
      let events : 0 < t.sockets.limits.ready_events = omega (arith, l, h.events) in
      let unit : Unit {0} = tt in
      let e = finish_call-Ends env free free unit (before_end env s).0 [] t still off in
      let g =
        finish_call-Clears env free unit (before_end env s).0 [] t unlimited events still empty
          off in
      let k = e.keeps in
      let r = remains-Keeps t u k in
      let n = ap length (append-nil t.pending_notifications) in
      let same_limits : u.sockets.limits ≡ s.sockets.limits =
        ap (λ (w : StackSockets). w.limits) k.sockets ∙ d.limits in
      let l' = ap (λ (w : Limits). w.ready_events) same_limits in
      let m' = ap (λ (w : Limits). w.maintenance_work) same_limits in
      let keys = ap (λ (w : ReadyState). length w.entries) d.ready in
      (
        record {
          closing = record {
            lifecycle = ap (λ (w : StackSockets). w.lifecycle) k.sockets ∙ live;
            sweeping = e.sweeping;
          };
          pending = g.pending;
          events = omega (arith, l', h.events);
          work = omega (arith, m', h.work);
        },
        g.overflow,
        elim (Bool-cases (is_empty s.pending_notifications)) [
          | inr aborting ↦
              let same : (before_end env s).1 ≡ s = unfold before_end in rw aborting refl in
              let z = length-is_empty s.pending_notifications aborting in
              let x = ap (λ (w : NativeStack B). length w.pending_notifications) same in
              let y = g.less_aborts (omega (arith, n, x, z)) in
              inl (omega (arith, y, r, n, a.less, g.keys, keys))
          | inl taking ↦ elim (Bool-cases (ltb 0 (remains s))) [
            | inl some_left ↦
                let y = before_end-less s unlimited h.work taking (ground arith) in
                inl (omega (arith, y, r, n, g.aborts, g.keys, keys))
            | inr none_left ↦
                let z : remains s ≡ 0 = ground arith in
                let q = notifications-remains t in
                elim (Bool-cases (ltb 0 (length s.ready.entries))) [
                  | inl some_key ↦
                      let y =
                        g.less_keys (omega (arith, n, q, z, a.less))
                          (ground (arith, keys, some_key)) in
                      inl (omega (arith, y, r, n, g.aborts, keys, a.less))
                  | inr no_key ↦
                      let v : length s.ready.entries ≡ 0 = ground arith in
                      inr (omega (arith, r, n, q, z, v, g.aborts, g.keys, keys, a.less))
                ]
          ]
        ],
      )

  continue_shutdown-size :
      (s : NativeStack B)
      → ((b : B) → (env.checkpoint b).0 ≡ true)
      → IsReady s
      → ((continue_shutdown env free free free s).1.sockets.lifecycle ≡ shutdown)
        ⊎ (IsReady (continue_shutdown env free free free s).1
            × (shutdown_size (continue_shutdown env free free free s).1 < shutdown_size s))
  continue_shutdown-size s unlimited h =
      let u = end_of env free free s in
      let (ready, calm, less) = end_of-size s unlimited h in
      elim (continue_shutdown-cases env free free free s) [
        | inr (done, e, m) ↦ inl (rw e (unfold finish_shutdown in refl))
        | inl (more, e, m) ↦ elim less [
          | inl smaller ↦ inr (rw e (ready, smaller))
          | inr nothing ↦
              let c = ready.closing in
              let done = shutdown_pending-size u nothing calm c.sweeping ready.pending in
              absurd (cc)
        ]
      ]

  shutdown_polls-stays :
      (n : ℕ) (t : NativeStack B)
      → t.sockets.lifecycle ≡ shutdown
      → (shutdown_polls env (replicate n (free, free, free)) t).sockets.lifecycle ≡ shutdown
  unfolding shutdown_polls
  shutdown_polls-stays zero t ended = ended
  shutdown_polls-stays (suc n) t ended =
      let d : is_shutdown t.sockets.lifecycle ≡ true = rw ended refl in rw d ended

  shutdown_polls-ends :
      (n : ℕ) (s : NativeStack B)
      → ((b : B) → (env.checkpoint b).0 ≡ true)
      → IsReady s
      → shutdown_size s < n
      → (shutdown_polls env (replicate n (free, free, free)) s).sockets.lifecycle ≡ shutdown
  unfolding shutdown_polls
  shutdown_polls-ends zero s unlimited h enough = absurd (omega arith)
  shutdown_polls-ends (suc n) s unlimited h enough =
      let d : is_shutdown s.sockets.lifecycle ≡ false =
        let c = h.closing in let e = c.lifecycle in rw e refl in
      let t = (continue_shutdown env free free free s).1 in
      elim (continue_shutdown-size s unlimited h) [
        | inl ended ↦ rw d (shutdown_polls-stays n t ended)
        | inr (ready, smaller) ↦
            rw d (shutdown_polls-ends n t unlimited ready (omega (arith, smaller, enough)))
      ]

  -- A shutdown ends. While the calls have budget and find the queue free, and each may send an abort and
  -- take a structure away, a stack that is told to shut down has done so after at most one more call for
  -- each of its structures, waiters, pending aborts and ready keys.
  pub shutdown_stack-ends :
      (n : ℕ) (reason : AbortReason) (s : NativeStack B)
      → ((b : B) → (env.checkpoint b).0 ≡ true)
      → 0 < s.sockets.limits.ready_events
      → 0 < s.sockets.limits.maintenance_work
      → remains s + length s.ready.entries ≤ n
      → (shutdown_polls env
          (replicate n (free, free, free))
          (shutdown_stack env free free free reason s).1).sockets.lifecycle
        ≡ shutdown
  unfolding shutdown_stack
  shutdown_stack-ends n reason s unlimited events work enough =
      let t = begin_shutdown reason s in
      let ready : IsReady t = record {
        closing = record { lifecycle = refl; sweeping = refl };
        pending = refl;
        events = events;
        work = work;
      } in
      let h =
        shutdown_polls-ends (suc n) t unlimited ready (unfold remains in (omega (arith, enough))) in
      elim (Bool-cases (is_shutdown s.sockets.lifecycle)) [
        | inl down ↦ rw down (shutdown_polls-stays n s (is_shutdown-eq s.sockets.lifecycle down))
        | inr up ↦ rw up (unfold shutdown_polls in h)
      ]
