-- ===== src/Stack/Selects.antt =====
-- native/smolnet_core/src/stack.rs: the loops over keys send no abort.
use smolnet.Prelude.{
  ℕ, ◌-◌, ◌≡◌, refl, ◌∙◌, sym, ap, Bool, true, false, ◌&&◌, List, [], ◌∷◌, ◌++◌, append_assoc,
  append-nil, arith, Bool-cases, inl, inr, ltb,
}
use smolnet.Waiter.{ReadyKey}
use smolnet.Waiter.Queue.{LockState}
use smolnet.SocketTable.{State}
use smolnet.SocketTable.Ops.{ReadyResult, notify, no_waiter, coalesced, stale, take_ready_waiter}
use smolnet.SocketTable.Scan.{scan_ready}
use smolnet.Stack.State.{is_running}
use smolnet.Stack.Native.{
  NativeStack, Env, Message, abort, select, send_message, within_budget, charge_pending,
}
use smolnet.Stack.Calls.{
  Progress, count_unit, deliver_keys, pending_loop, start_sweep, drain_queue, scan_step, sweep_step,
  deliver_or_discard_ready, deliver_ready, deliver_result, push_pending, set_pending,
  drop_readiness,
}
use smolnet.Device.{is_empty}

-- No message of an abort is among them.
unfoldable pub selects_only : List Message → Bool
selects_only [] = true
selects_only (select w i ∷ ms) = selects_only ms
selects_only (abort w i r ∷ ms) = false

pub selects_only-append :
    (xs ys : List Message)
    → selects_only xs ≡ true
    → selects_only ys ≡ true
    → selects_only (xs ++ ys) ≡ true
unfolding selects_only
selects_only-append [] ys h k = k
selects_only-append (select w i ∷ xs) ys h k = selects_only-append xs ys h k
selects_only-append (abort w i r ∷ xs) ys h k = absurd (cc)

module _ {B : Type 0} (env : Env B) where
  -- The call said no more than `rest` since `s`, none of it an abort.
  pub record Selects (s t : NativeStack B) : Type 0 where
    pub rest : List Message
    pub selects : selects_only rest ≡ true
    pub outbox : t.outbox ≡ s.outbox ++ rest
    pub aborts : t.pending_notifications ≡ s.pending_notifications
    pub peak : t.counters.max_ready_events ≡ s.counters.max_ready_events

  Selects-same :
      (s t : NativeStack B)
      → t.outbox ≡ s.outbox
      → t.pending_notifications ≡ s.pending_notifications
      → t.counters.max_ready_events ≡ s.counters.max_ready_events
      → Selects s t
  unfolding selects_only
  Selects-same s t o a q = record {
    rest = [];
    selects = refl;
    outbox = o ∙ sym (append-nil s.outbox);
    aborts = a;
    peak = q;
  }

  Selects-trans : (s t u : NativeStack B) → Selects s t → Selects t u → Selects s u
  Selects-trans s t u a b = record {
    rest = a.rest ++ b.rest;
    selects = selects_only-append a.rest b.rest a.selects b.selects;
    outbox =
        b.outbox
        ∙ (ap (λ (m : List Message). m ++ b.rest) a.outbox ∙ append_assoc s.outbox a.rest b.rest);
    aborts = b.aborts ∙ a.aborts;
    peak = b.peak ∙ a.peak;
  }

  deliver_result-Selects :
      (key : ReadyKey) (r : ReadyResult) (table : State) (s : NativeStack B)
      → Selects s (
          deliver_result env key r
            (record s { sockets = record s.sockets { socket_table = table } }))
  unfolding deliver_result send_message selects_only
  deliver_result-Selects key (notify w) table s = record {
    rest = select w key.identity ∷ [];
    selects = refl;
    outbox = refl;
    aborts = refl;
    peak = refl;
  }
  deliver_result-Selects key no_waiter table s = record {
    rest = [];
    selects = refl;
    outbox = sym (append-nil s.outbox);
    aborts = refl;
    peak = refl;
  }
  deliver_result-Selects key coalesced table s = record {
    rest = [];
    selects = refl;
    outbox = sym (append-nil s.outbox);
    aborts = refl;
    peak = refl;
  }
  deliver_result-Selects key stale table s = record {
    rest = [];
    selects = refl;
    outbox = sym (append-nil s.outbox);
    aborts = refl;
    peak = refl;
  }

  deliver_or_discard_ready-Selects :
      (key : ReadyKey) (s : NativeStack B) → Selects s (deliver_or_discard_ready env key s)
  unfolding deliver_or_discard_ready deliver_ready
  deliver_or_discard_ready-Selects key s = elim (Bool-cases (is_running s.sockets.lifecycle)) [
    | inr off ↦ rw off (Selects-same s (drop_readiness s) refl refl refl)
    | inl live ↦ rw live (
        deliver_result-Selects key (take_ready_waiter key s.sockets.socket_table).0
          (take_ready_waiter key s.sockets.socket_table).1 s)
  ]

  pub deliver_keys-Selects :
      (ks : List ReadyKey) (p : Progress B) → Selects p.stack (deliver_keys env ks p).stack
  unfolding deliver_keys count_unit within_budget charge_pending
  deliver_keys-Selects [] p = Selects-same p.stack p.stack refl refl refl
  deliver_keys-Selects (k ∷ ks) p =
      let s = (within_budget env p.stack).1 in
      let t = deliver_or_discard_ready env k s in
      let a = deliver_or_discard_ready-Selects k s in
      elim (Bool-cases (env.checkpoint p.stack.call_budget).0) [
        | inl go ↦
            let h = deliver_keys-Selects ks (count_unit env (record p { stack = t })) in
            rw go (
              Selects-trans p.stack t
                (deliver_keys env ks (count_unit env (record p { stack = t }))).stack
                (record {
                  rest = a.rest;
                  selects = a.selects;
                  outbox = a.outbox;
                  aborts = a.aborts;
                  peak = a.peak;
                })
                (record {
                  rest = h.rest;
                  selects = h.selects;
                  outbox = h.outbox;
                  aborts = h.aborts;
                  peak = h.peak;
                }))
        | inr spent ↦
            let h = deliver_keys-Selects ks (record p { stack = push_pending k s }) in
            rw spent (record {
              rest = h.rest;
              selects = h.selects;
              outbox = h.outbox;
              aborts = h.aborts;
              peak = h.peak;
            })
      ]

  pub pending_loop-Selects :
      (limit : ℕ) (ks : List ReadyKey) (p : Progress B)
      → Selects p.stack (pending_loop env limit ks p).stack
  unfolding pending_loop count_unit within_budget charge_pending
  pending_loop-Selects limit [] p = Selects-same p.stack (set_pending [] p.stack) refl refl refl
  pending_loop-Selects limit (k ∷ ks) p =
      let s = (within_budget env p.stack).1 in
      let t = deliver_or_discard_ready env k s in
      let a = deliver_or_discard_ready-Selects k s in
      elim (Bool-cases (ltb p.work limit)) [
        | inr full ↦ rw full (Selects-same p.stack (set_pending (k ∷ ks) p.stack) refl refl refl)
        | inl room ↦ elim (Bool-cases (env.checkpoint p.stack.call_budget).0) [
          | inr spent ↦
              rw (room, spent) (Selects-same p.stack (set_pending (k ∷ ks) s) refl refl refl)
          | inl go ↦
              let h = pending_loop-Selects limit ks (count_unit env (record p { stack = t })) in
              rw (room, go)
                (Selects-trans p.stack t
                  (pending_loop env limit ks (count_unit env (record p { stack = t }))).stack
                  (record {
                    rest = a.rest;
                    selects = a.selects;
                    outbox = a.outbox;
                    aborts = a.aborts;
                    peak = a.peak;
                  })
                  (record {
                    rest = h.rest;
                    selects = h.selects;
                    outbox = h.outbox;
                    aborts = h.aborts;
                    peak = h.peak;
                  }))
        ]
      ]

  pub sweep_step-Selects :
      (limit : ℕ) (p : Progress B) → Selects p.stack (sweep_step env limit p).stack
  unfolding sweep_step scan_step
  sweep_step-Selects limit p =
      let s = p.stack in
      let t = s.sockets.socket_table in
      let remaining = limit - p.work in
      let (scan, b) =
        scan_ready env.checkpoint t.table t.flags s.ready_sweep.cursor remaining remaining
          s.call_budget in
      let h = deliver_keys-Selects scan.keys (record p { stack = record s { call_budget = b } }) in
      elim (Bool-cases
        (s.ready_sweep.sweeping && (is_empty s.ready_sweep.pending && ltb p.work limit))) [
          | inr stop ↦ rw stop (Selects-same s s refl refl refl)
          | inl go ↦ rw go (record {
            rest = h.rest;
            selects = h.selects;
            outbox = h.outbox;
            aborts = h.aborts;
            peak = h.peak;
          })
        ]

  pub drain_queue-Selects :
      (lock : LockState) (limit : ℕ) (s : NativeStack B)
      → Selects s (drain_queue env lock limit (start_sweep env s)).1
  unfolding drain_queue start_sweep
  drain_queue-Selects lock limit s =
      Selects-same s (drain_queue env lock limit (start_sweep env s)).1 (ground arith)
        (ground arith) (ground arith)
