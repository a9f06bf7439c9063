-- ===== src/Stack/Slices.antt =====
-- native/smolnet_core/src/stack.rs: a slice of a shutdown, up to the end of its call.
use smolnet.Prelude.{
  ℕ, zero, suc, ◌≤◌, ◌<◌, ◌≡◌, refl, ◌∙◌, length, true, false, List, [], ◌∷◌, if◌then◌else◌, arith,
  Bool-cases, inl, inr, ◌⊎◌,
}
use smolnet.Waiter.{ReadyKey}
use smolnet.Waiter.Queue.{LockState, is_nonempty}
use smolnet.Stack.State.{Lifecycle, running, shutting_down, shutdown}
use smolnet.Stack.Native.{
  NativeStack, Env, Effects, Envelope, empty_effects, within_budget, charge_pending, observe,
}
use smolnet.Stack.Calls.{Progress, count_unit, finish_call}
use smolnet.Device.{is_empty}
use smolnet.Stack.Shutdown.{
  shutdown_unit, shutdown_loop, shutdown_work, shutdown_pending, finish_shutdown, continue_shutdown,
  is_shutdown,
}
use smolnet.Stack.Removals.{remains, aborts_owed}
use smolnet.Stack.Dismantle.{Steady, shutdown_unit-Shrinks}

-- What the rounds of a slice do.
pub record Slice {B : Type 0} (s t : NativeStack B) : Type 0 where
  pub steady : Steady s t
  pub owed : aborts_owed t ≡ aborts_owed s
  pub less : remains t ≤ remains s

pub is_empty-length : {A : Type 0} (xs : List A) → length xs ≡ 0 → is_empty xs ≡ true
is_empty-length [] h = refl
is_empty-length (x ∷ xs) h = absurd (omega arith)

pub is_nonempty-length : (ks : List ReadyKey) → length ks ≡ 0 → is_nonempty ks ≡ false
unfolding is_nonempty
is_nonempty-length [] h = refl
is_nonempty-length (k ∷ ks) h = absurd (omega arith)

pub length-is_empty : {A : Type 0} (xs : List A) → is_empty xs ≡ false → 0 < length xs
length-is_empty [] h = absurd (cc)
length-is_empty (x ∷ xs) h = omega arith

pub length-nil : {A : Type 0} (xs : List A) → is_empty xs ≡ true → length xs ≡ 0
length-nil [] h = refl
length-nil (x ∷ xs) h = absurd (cc)

pub is_shutdown-eq : (l : Lifecycle) → is_shutdown l ≡ true → l ≡ shutdown
is_shutdown-eq running h = absurd (cc)
is_shutdown-eq shutting_down h = absurd (cc)
is_shutdown-eq shutdown h = refl

-- A stack in the middle of its shutdown, with no sweep.
pub record IsClosing {B : Type 0} (s : NativeStack B) : Type 0 where
  pub lifecycle : s.sockets.lifecycle ≡ shutting_down
  pub sweeping : s.ready_sweep.sweeping ≡ false

module _ {B : Type 0} (env : Env B) where
  Slice-budget : (b : B) (s : NativeStack B) → Slice s (record s { call_budget = b })
  unfolding aborts_owed remains
  Slice-budget b s = record {
    steady = record {
      ready = refl;
      sweep = refl;
      lifecycle = refl;
      limits = refl;
      reason = refl;
      outbox = refl;
    };
    owed = refl;
    less = omega arith;
  }

  Steady-trans : (s t u : NativeStack B) → Steady s t → Steady t u → Steady s u
  Steady-trans s t u a b = record {
    ready = b.ready ∙ a.ready;
    sweep = b.sweep ∙ a.sweep;
    lifecycle = b.lifecycle ∙ a.lifecycle;
    limits = b.limits ∙ a.limits;
    reason = b.reason ∙ a.reason;
    outbox = b.outbox ∙ a.outbox;
  }

  Slice-trans : (s t u : NativeStack B) → Slice s t → Slice t u → Slice s u
  Slice-trans s t u a b = record {
    steady = Steady-trans s t u a.steady b.steady;
    owed = b.owed ∙ a.owed;
    less = omega (arith, a.less, b.less);
  }

  shutdown_unit-Slice : (s : NativeStack B) → Slice s (shutdown_unit s).1
  shutdown_unit-Slice s =
      let h = shutdown_unit-Shrinks s in
      record {
        steady = h.steady;
        owed = h.owed;
        less = elim (Bool-cases (shutdown_unit s).0) [
          | inl found ↦ let l = h.less found in omega (arith, l)
          | inr nothing ↦ let l = h.rest nothing in omega (arith, l)
        ];
      }

  count_unit-Slice : (p : Progress B) → Slice p.stack (count_unit env p).stack
  unfolding count_unit charge_pending
  count_unit-Slice p = Slice-budget (count_unit env p).stack.call_budget p.stack

  shutdown_loop-Slice :
      (rounds : ℕ) (p : Progress B) → Slice p.stack (shutdown_loop env rounds p).stack
  unfolding shutdown_loop within_budget
  shutdown_loop-Slice zero p = Slice-budget p.stack.call_budget p.stack
  shutdown_loop-Slice (suc rounds) p =
      let s = (within_budget env p.stack).1 in
      let (found, t) = shutdown_unit s in
      let a =
        Slice-trans p.stack s t (Slice-budget s.call_budget p.stack) (shutdown_unit-Slice s) in
      let q = count_unit env (record p { stack = t }) in
      let h = shutdown_loop-Slice rounds q in
      let r = (shutdown_loop env rounds q).stack in
      elim (Bool-cases (env.checkpoint p.stack.call_budget).0) [
        | inr spent ↦ rw spent (Slice-budget s.call_budget p.stack)
        | inl go ↦ elim (Bool-cases found) [
          | inr nothing ↦ rw (go, nothing) a
          | inl some_left ↦
              rw (go, some_left)
                (Slice-trans p.stack t r a
                  (Slice-trans t q.stack r (count_unit-Slice (record p { stack = t })) h))
        ]
      ]

  -- With budget and a round, a stack that holds a structure has less left.
  pub shutdown_loop-less :
      (rounds : ℕ) (p : Progress B)
      → ((b : B) → (env.checkpoint b).0 ≡ true)
      → 0 < rounds
      → length p.stack.pending_notifications < remains p.stack
      → remains (shutdown_loop env rounds p).stack < remains p.stack
  unfolding shutdown_loop within_budget
  shutdown_loop-less zero p unlimited room some_left = absurd (omega arith)
  shutdown_loop-less (suc rounds) p unlimited room some_left =
      let s = (within_budget env p.stack).1 in
      let (found, t) = shutdown_unit s in
      let a = shutdown_unit-Shrinks s in
      let q = count_unit env (record p { stack = t }) in
      let c = count_unit-Slice (record p { stack = t }) in
      let h = shutdown_loop-Slice rounds q in
      let e : remains s ≡ remains p.stack = unfold remains in refl in
      elim (Bool-cases found) [
        | inr nothing ↦ let r = a.rest nothing in absurd (omega (arith, r, e, some_left))
        | inl some_found ↦
            let l = a.less some_found in
            rw (unlimited p.stack.call_budget, some_found) (omega (arith, l, e, h.less, c.less))
      ]

  -- What a slice of a shutdown hands to `finish_call`.
  unfoldable pub before_end : NativeStack B → Effects × NativeStack B
  before_end s =
      if is_empty s.pending_notifications then shutdown_work env s else (empty_effects, s)

  shutdown_work-Slice : (s : NativeStack B) → Slice s (shutdown_work env s).1
  unfolding shutdown_work observe aborts_owed remains
  shutdown_work-Slice s =
      let h =
        shutdown_loop-Slice s.sockets.limits.maintenance_work
          (record { work = 0; uncharged = 0; stack = s }) in
      let d = h.steady in
      record {
        steady = record {
          ready = d.ready;
          sweep = d.sweep;
          lifecycle = d.lifecycle;
          limits = d.limits;
          reason = d.reason;
          outbox = d.outbox;
        };
        owed = h.owed;
        less = h.less;
      }

  pub before_end-Slice : (s : NativeStack B) → Slice s (before_end s).1
  unfolding before_end
  before_end-Slice s = elim (Bool-cases (is_empty s.pending_notifications)) [
    | inl nothing ↦ rw nothing (shutdown_work-Slice s)
    | inr something ↦ rw something (Slice-budget s.call_budget s)
  ]

  unfoldable pub end_of : LockState → LockState → NativeStack B → NativeStack B
  end_of lock lock' s =
      let r : Envelope (Unit {0}) × NativeStack B =
        finish_call env lock lock' tt (before_end s).0 [] (before_end s).1 in
      r.1

  pub continue_shutdown-cases :
      (lock lock' lock'' : LockState) (s : NativeStack B)
      → ((shutdown_pending lock'' (end_of lock lock' s) ≡ true)
          × ((continue_shutdown env lock lock' lock'' s).1 ≡ end_of lock lock' s)
          × ((continue_shutdown env lock lock' lock'' s).0.more ≡ true))
        ⊎ ((shutdown_pending lock'' (end_of lock lock' s) ≡ false)
            × ((continue_shutdown env lock lock' lock'' s).1
                ≡ finish_shutdown (end_of lock lock' s))
            × ((continue_shutdown env lock lock' lock'' s).0.more ≡ false))
  unfolding continue_shutdown before_end end_of
  continue_shutdown-cases lock lock' lock'' s =
      elim (Bool-cases (shutdown_pending lock'' (end_of lock lock' s))) [
        | inl more ↦ inl (more, rw more refl, rw more refl)
        | inr done ↦ inr (done, rw done refl, rw done refl)
      ]
