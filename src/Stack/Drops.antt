-- ===== src/Stack/Drops.antt =====
-- native/smolnet_core/src/stack.rs: a loop over keys of a stack that shuts down drops them.
use smolnet.Prelude.{ℕ, ◌≡◌, refl, true, false, List, [], ◌∷◌, ltb, Bool-cases, inl, inr}
use smolnet.Waiter.{ReadyKey}
use smolnet.Stack.State.{is_running}
use smolnet.Stack.Native.{NativeStack, Env, within_budget, charge_pending}
use smolnet.Stack.Calls.{
  Progress, drop_readiness, count_unit, deliver_keys, pending_loop, deliver_or_discard_ready,
  push_pending,
}
use smolnet.Stack.Aborts.{Keeps}

module _ {B : Type 0} (env : Env B) where
  -- A loop over keys of a stack that is not running changes its list of pending keys, and no more than
  -- counters and the budget.
  pub record Drops (s t : NativeStack B) : Type 0 where
    pub keeps : Keeps env s t
    pub ready : t.ready ≡ s.ready
    pub sweeping : t.ready_sweep.sweeping ≡ s.ready_sweep.sweeping
    pub aborts : t.pending_notifications ≡ s.pending_notifications
    pub outbox : t.outbox ≡ s.outbox

  pub deliver_keys-Drops :
      (ks : List ReadyKey) (p : Progress B)
      → is_running p.stack.sockets.lifecycle ≡ false
      → Drops p.stack (deliver_keys env ks p).stack
  unfolding deliver_keys count_unit charge_pending within_budget deliver_or_discard_ready
  deliver_keys-Drops [] p off = record {
    keeps = record {
      sockets = refl;
      connections = refl;
      deadlines = refl;
      device = refl;
      reason = refl;
    };
    ready = refl;
    sweeping = refl;
    aborts = refl;
    outbox = refl;
  }
  deliver_keys-Drops (k ∷ ks) p off =
      let s = (within_budget env p.stack).1 in
      elim (Bool-cases (env.checkpoint p.stack.call_budget).0) [
        | inl go ↦
            let h =
              deliver_keys-Drops ks (count_unit env (record p { stack = drop_readiness s })) off in
            let k' = h.keeps in
            rw (go, off)
              (record {
                keeps = record {
                  sockets = k'.sockets;
                  connections = k'.connections;
                  deadlines = k'.deadlines;
                  device = k'.device;
                  reason = k'.reason;
                };
                ready = h.ready;
                sweeping = h.sweeping;
                aborts = h.aborts;
                outbox = h.outbox;
              })
        | inr spent ↦
            let h = deliver_keys-Drops ks (record p { stack = push_pending k s }) off in
            let k' = h.keeps in
            rw spent (record {
              keeps = record {
                sockets = k'.sockets;
                connections = k'.connections;
                deadlines = k'.deadlines;
                device = k'.device;
                reason = k'.reason;
              };
              ready = h.ready;
              sweeping = h.sweeping;
              aborts = h.aborts;
              outbox = h.outbox;
            })
      ]

  pub deliver_keys-pending :
      (ks : List ReadyKey) (p : Progress B)
      → ((b : B) → (env.checkpoint b).0 ≡ true)
      → is_running p.stack.sockets.lifecycle ≡ false
      → (deliver_keys env ks p).stack.ready_sweep.pending ≡ p.stack.ready_sweep.pending
  unfolding deliver_keys count_unit charge_pending within_budget deliver_or_discard_ready
  deliver_keys-pending [] p unlimited off = refl
  deliver_keys-pending (k ∷ ks) p unlimited off =
      let s = (within_budget env p.stack).1 in
      let h =
        deliver_keys-pending ks (count_unit env (record p { stack = drop_readiness s })) unlimited
          off in
      rw (unlimited p.stack.call_budget, off) h

  pub pending_loop-Drops :
      (limit : ℕ) (ks : List ReadyKey) (p : Progress B)
      → is_running p.stack.sockets.lifecycle ≡ false
      → Drops p.stack (pending_loop env limit ks p).stack
  unfolding pending_loop count_unit charge_pending within_budget deliver_or_discard_ready
  pending_loop-Drops limit [] p off = record {
    keeps = record {
      sockets = refl;
      connections = refl;
      deadlines = refl;
      device = refl;
      reason = refl;
    };
    ready = refl;
    sweeping = refl;
    aborts = refl;
    outbox = refl;
  }
  pending_loop-Drops limit (k ∷ ks) p off =
      let s = (within_budget env p.stack).1 in
      let h =
        pending_loop-Drops limit ks (count_unit env (record p { stack = drop_readiness s })) off in
      let k' = h.keeps in
      elim (Bool-cases (ltb p.work limit)) [
        | inr full ↦ rw full (record {
          keeps = record {
            sockets = refl;
            connections = refl;
            deadlines = refl;
            device = refl;
            reason = refl;
          };
          ready = refl;
          sweeping = refl;
          aborts = refl;
          outbox = refl;
        })
        | inl room ↦ elim (Bool-cases (env.checkpoint p.stack.call_budget).0) [
          | inr spent ↦
              rw (room, spent)
                (record {
                  keeps = record {
                    sockets = refl;
                    connections = refl;
                    deadlines = refl;
                    device = refl;
                    reason = refl;
                  };
                  ready = refl;
                  sweeping = refl;
                  aborts = refl;
                  outbox = refl;
                })
          | inl go ↦
              rw (room, go, off)
                (record {
                  keeps = record {
                    sockets = k'.sockets;
                    connections = k'.connections;
                    deadlines = k'.deadlines;
                    device = k'.device;
                    reason = k'.reason;
                  };
                  ready = h.ready;
                  sweeping = h.sweeping;
                  aborts = h.aborts;
                  outbox = h.outbox;
                })
        ]
      ]
