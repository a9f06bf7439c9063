-- ===== src/Stack/Tracking.antt =====
-- native/smolnet_core/src/stack.rs: the loops of `finish_call` lose no key: what they take is delivered,
-- or kept for a later call.
use smolnet.Prelude.{
  ℕ, ◌≡◌, refl, ◌∙◌, ap, Bool, true, false, not, ◌&&◌, ◌||◌, List, [], ◌∷◌, ◌++◌, arith, Bool-cases,
  inl, inr, ltb,
}
use smolnet.Waiter.{ReadyKey, key_eq}
use smolnet.Waiter.Queue.{ReadyState, contains}
use smolnet.SocketTable.{State}
use smolnet.SocketTable.Ops.{ReadyResult, notify, no_waiter, coalesced, stale, take_ready_waiter}
use smolnet.SocketTable.Invariant.{IsValid}
use smolnet.SocketTable.Preserve.{take_ready_waiter-IsValid, remember_sent-IsValid}
use smolnet.SocketTable.Sweep.{passed}
use smolnet.Stack.State.{is_running}
use smolnet.Stack.Native.{NativeStack, Env, ReadySweep, send_message, within_budget, charge_pending}
use smolnet.Stack.Calls.{
  Progress, deliver_result, deliver_ready, deliver_or_discard_ready, count_unit, deliver_keys,
  pending_loop, push_pending, set_pending,
}
use smolnet.Stack.Delivery.{is_due, take_ready_waiter-due, remember_sent-due}

-- A key that the queue, its overflow mark or the sweep will bring up.
unfoldable pub covered : ReadyState → ReadySweep → ReadyKey → Bool
covered r sweep k =
    contains k r.entries
    || (r.overflow
        || (sweep.sweeping
            && (sweep.resweep || not (passed sweep.cursor k.identity.id k.direction))))

-- Every key that is due is in hand, pending, or safe otherwise.
abbrev pub Owed : (ReadyKey → Bool) → List ReadyKey → List ReadyKey → State → Type 0
Owed safe hand pending table =
    (k : ReadyKey)
    → is_due table k ≡ true
    → (contains k hand || (contains k pending || safe k)) ≡ true

pub contains-append :
    (k : ReadyKey) (xs ys : List ReadyKey)
    → contains k (xs ++ ys) ≡ (contains k xs || contains k ys)
unfolding contains
contains-append k [] ys = refl
contains-append k (x ∷ xs) ys = ground (arith, contains-append k xs ys)

-- What a delivery leaves alone.
pub record Settles {B : Type 0} (key : ReadyKey) (s t : NativeStack B) : Type 0 where
  pub ready : t.ready ≡ s.ready
  pub sweep : t.ready_sweep ≡ s.ready_sweep
  pub lifecycle : t.sockets.lifecycle ≡ s.sockets.lifecycle
  pub limits : t.sockets.limits ≡ s.sockets.limits
  pub aborts : t.pending_notifications ≡ s.pending_notifications
  pub valid : IsValid s.sockets.socket_table → IsValid t.sockets.socket_table
  pub due :
      (k : ReadyKey)
      → is_due t.sockets.socket_table k ≡ true
      → (is_due s.sockets.socket_table k ≡ true) × (key_eq key k ≡ false)

module _ {B : Type 0} (env : Env B) where
  deliver_result-Settles :
      (key : ReadyKey) (r : ReadyResult) (s : NativeStack B) (table : State)
      → (IsValid s.sockets.socket_table → IsValid table)
      → ((k : ReadyKey)
          → is_due table k ≡ true
          → (is_due s.sockets.socket_table k ≡ true) × (key_eq key k ≡ false))
      → Settles key s (
          deliver_result env key r
            (record s { sockets = record s.sockets { socket_table = table } }))
  unfolding deliver_result send_message
  deliver_result-Settles key (notify w) s table v d = record {
    ready = refl;
    sweep = refl;
    lifecycle = refl;
    limits = refl;
    aborts = refl;
    valid = λ u. remember_sent-IsValid key.identity key.direction w table (v u);
    due = λ k h. d k (remember_sent-due key.identity key.direction w k table h);
  }
  deliver_result-Settles key no_waiter s table v d = record {
    ready = refl;
    sweep = refl;
    lifecycle = refl;
    limits = refl;
    aborts = refl;
    valid = v;
    due = d;
  }
  deliver_result-Settles key coalesced s table v d = record {
    ready = refl;
    sweep = refl;
    lifecycle = refl;
    limits = refl;
    aborts = refl;
    valid = v;
    due = d;
  }
  deliver_result-Settles key stale s table v d = record {
    ready = refl;
    sweep = refl;
    lifecycle = refl;
    limits = refl;
    aborts = refl;
    valid = v;
    due = d;
  }

  pub deliver_or_discard_ready-Settles :
      (key : ReadyKey) (s : NativeStack B)
      → is_running s.sockets.lifecycle ≡ true
      → Settles key s (deliver_or_discard_ready env key s)
  unfolding deliver_or_discard_ready deliver_ready
  deliver_or_discard_ready-Settles key s live = rw live (
      deliver_result-Settles key (take_ready_waiter key s.sockets.socket_table).0 s
        (take_ready_waiter key s.sockets.socket_table).1
        (take_ready_waiter-IsValid key s.sockets.socket_table)
        (λ k h. take_ready_waiter-due key k s.sockets.socket_table h))

  -- What a loop over keys leaves alone, and that it has all of them delivered or pending.
  pub record Handled (hand : List ReadyKey) (s t : NativeStack B) : Type 0 where
    pub ready : t.ready ≡ s.ready
    pub sweep : t.ready_sweep ≡ record s.ready_sweep { pending = t.ready_sweep.pending }
    pub lifecycle : t.sockets.lifecycle ≡ s.sockets.lifecycle
    pub limits : t.sockets.limits ≡ s.sockets.limits
    pub aborts : t.pending_notifications ≡ s.pending_notifications
    pub valid : IsValid s.sockets.socket_table → IsValid t.sockets.socket_table
    pub owed :
        (safe : ReadyKey → Bool)
        → Owed safe hand s.ready_sweep.pending s.sockets.socket_table
        → Owed safe [] t.ready_sweep.pending t.sockets.socket_table

  -- One key delivered, and then the rest.
  Settles-Handled :
      (key : ReadyKey) (hand : List ReadyKey) (s t u : NativeStack B)
      → Settles key s t
      → Handled hand t u
      → Handled (key ∷ hand) s u
  unfolding contains
  Settles-Handled key hand s t u a h = record {
    ready = h.ready ∙ a.ready;
    sweep = h.sweep ∙ ap (λ (w : ReadySweep). record w { pending = u.ready_sweep.pending }) a.sweep;
    lifecycle = h.lifecycle ∙ a.lifecycle;
    limits = h.limits ∙ a.limits;
    aborts = h.aborts ∙ a.aborts;
    valid = λ v. h.valid (a.valid v);
    owed = λ safe o. h.owed safe (λ k d.
        let (was, other) = a.due k d in
        let p = o k was in
        let same : t.ready_sweep.pending ≡ s.ready_sweep.pending =
          ap (λ (w : ReadySweep). w.pending) a.sweep in
        rw same (ground arith));
  }

  pub deliver_keys-Handled :
      (ks : List ReadyKey) (p : Progress B)
      → is_running p.stack.sockets.lifecycle ≡ true
      → Handled ks p.stack (deliver_keys env ks p).stack
  unfolding deliver_keys count_unit charge_pending within_budget contains
  deliver_keys-Handled [] p live = record {
    ready = refl;
    sweep = refl;
    lifecycle = refl;
    limits = refl;
    aborts = refl;
    valid = λ v. v;
    owed = λ safe o. o;
  }
  deliver_keys-Handled (k ∷ ks) p live =
      let s = (within_budget env p.stack).1 in
      let t = deliver_or_discard_ready env k s in
      let a = deliver_or_discard_ready-Settles k s live in
      elim (Bool-cases (env.checkpoint p.stack.call_budget).0) [
        | inl go ↦
            let h =
              deliver_keys-Handled ks (count_unit env (record p { stack = t }))
                (rw a.lifecycle live) in
            rw go (
              Settles-Handled k ks p.stack t
                (deliver_keys env ks (count_unit env (record p { stack = t }))).stack
                (record {
                  ready = a.ready;
                  sweep = a.sweep;
                  lifecycle = a.lifecycle;
                  limits = a.limits;
                  aborts = a.aborts;
                  valid = a.valid;
                  due = a.due;
                })
                (record {
                  ready = h.ready;
                  sweep = h.sweep;
                  lifecycle = h.lifecycle;
                  limits = h.limits;
                  aborts = h.aborts;
                  valid = h.valid;
                  owed = h.owed;
                }))
        | inr spent ↦
            let h = deliver_keys-Handled ks (record p { stack = push_pending k s }) live in
            rw spent (record {
              ready = h.ready;
              sweep = h.sweep;
              lifecycle = h.lifecycle;
              limits = h.limits;
              aborts = h.aborts;
              valid = h.valid;
              owed = λ safe o. h.owed safe (λ j d.
                  let q = o j d in
                  let e = contains-append j s.ready_sweep.pending (k ∷ []) in ground (arith, e));
            })
      ]

  -- The loop over the pending keys, which start in hand.
  pub pending_loop-Handled :
      (limit : ℕ) (ks : List ReadyKey) (p : Progress B)
      → is_running p.stack.sockets.lifecycle ≡ true
      → Handled ks (set_pending [] p.stack) (pending_loop env limit ks p).stack
  unfolding pending_loop count_unit charge_pending within_budget contains
  pending_loop-Handled limit [] p live = record {
    ready = refl;
    sweep = refl;
    lifecycle = refl;
    limits = refl;
    aborts = refl;
    valid = λ v. v;
    owed = λ safe o. o;
  }
  pending_loop-Handled limit (k ∷ ks) p live =
      let s = (within_budget env p.stack).1 in
      let t = deliver_or_discard_ready env k s in
      let a = deliver_or_discard_ready-Settles k s live in
      elim (Bool-cases (ltb p.work limit)) [
        | inr full ↦ rw full (record {
          ready = refl;
          sweep = refl;
          lifecycle = refl;
          limits = refl;
          aborts = refl;
          valid = λ v. v;
          owed = λ safe o k' d. let q = o k' d in ground arith;
        })
        | inl room ↦ elim (Bool-cases (env.checkpoint p.stack.call_budget).0) [
          | inr spent ↦
              rw (room, spent)
                (record {
                  ready = refl;
                  sweep = refl;
                  lifecycle = refl;
                  limits = refl;
                  aborts = refl;
                  valid = λ v. v;
                  owed = λ safe o k' d. let q = o k' d in ground arith;
                })
          | inl go ↦
              let h =
                pending_loop-Handled limit ks (count_unit env (record p { stack = t }))
                  (rw a.lifecycle live) in
              rw (room, go)
                (Settles-Handled k ks (set_pending [] p.stack) (set_pending [] t)
                  (pending_loop env limit ks (count_unit env (record p { stack = t }))).stack
                  (record {
                    ready = a.ready;
                    sweep = ap (λ (w : ReadySweep). record w { pending = [] }) a.sweep;
                    lifecycle = a.lifecycle;
                    limits = a.limits;
                    aborts = a.aborts;
                    valid = a.valid;
                    due = a.due;
                  })
                  (record {
                    ready = h.ready;
                    sweep = h.sweep;
                    lifecycle = h.lifecycle;
                    limits = h.limits;
                    aborts = h.aborts;
                    valid = h.valid;
                    owed = h.owed;
                  }))
        ]
      ]
