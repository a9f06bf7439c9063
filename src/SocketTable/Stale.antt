-- ===== src/SocketTable/Stale.antt =====
-- native/smolnet_core/src/socket_table.rs: an identity is never valid again after its close.
use smolnet.Prelude.{ℕ, ◌<◌, ◌≡◌, inl, inr, none, List, [], ◌∷◌, arith, Option-cases}
use smolnet.Prelude.Map.{get, get-write-none, get-insert, get-remove, insert-remove}
use smolnet.Prelude.Result.{ok, err}
use smolnet.Waiter.{Direction, Operation, Waiter, SocketIdentity, ReadyKey}
use smolnet.SocketTable.{SocketKind, State, SocketEntry, invalid_socket, validate}
use smolnet.SocketTable.Ops.{
  WaiterRegistration, insert, take_waiter, install_waiter, cancel, take_ready_waiter, remember_sent,
  close, first_identity, close_next, stale,
}
use smolnet.SocketTable.Invariant.{IsValid}
use smolnet.SocketTable.Preserve
use smolnet.SocketTable.Preserve.{next_identity-cases}
use smolnet.SocketTable.Run.{
  Call, inserts, takes, installs, cancels, readies, remembers, closes, closes_next, wakes, step,
  run, step-IsValid,
}

-- An id that has been given out and has no entry.
abbrev pub IsGone : ℕ → State → Type 0
IsGone j s = (get j s.entries ≡ none) × (j < s.next_socket_id)

take_waiter-IsGone :
    (j : ℕ) (i : SocketIdentity) (k : SocketKind) (d : Direction) (s : State)
    → IsGone j s
    → IsGone j (take_waiter i k d s).1
unfolding take_waiter
take_waiter-IsGone j i k d s g = grind (arith, get-write-none)

install_waiter-IsGone :
    (j : ℕ) (r : WaiterRegistration) (s : State) → IsGone j s → IsGone j (install_waiter r s).1
unfolding install_waiter
install_waiter-IsGone j r s g = grind (arith, get-write-none)

cancel-IsGone :
    (j : ℕ) (i : SocketIdentity) (op : Operation) (ref : ℕ) (s : State)
    → IsGone j s
    → IsGone j (cancel i op ref s).1
unfolding cancel
cancel-IsGone j i op ref s g = grind (arith, get-write-none)

take_ready_waiter-IsGone :
    (j : ℕ) (key : ReadyKey) (s : State) → IsGone j s → IsGone j (take_ready_waiter key s).1
unfolding take_ready_waiter
take_ready_waiter-IsGone j key s g = grind (arith, get-write-none)

remember_sent-IsGone :
    (j : ℕ) (i : SocketIdentity) (d : Direction) (w : Waiter) (s : State)
    → IsGone j s
    → IsGone j (remember_sent i d w s)
unfolding remember_sent
remember_sent-IsGone j i d w s g = grind (arith, get-write-none)

close-IsGone :
    (j : ℕ) (i : SocketIdentity) (s : State) → IsValid s → IsGone j s → IsGone j (close i s).1
unfolding close
close-IsGone j i s v g = grind (
  arith,
  get-remove i.id j 0 s.entries v.sorted,
  insert-remove {V = ℕ × SocketEntry} i.id 0,
  v.sorted,
)

close_next-IsGone : (j : ℕ) (s : State) → IsValid s → IsGone j s → IsGone j (close_next s).1
unfolding close_next
close_next-IsGone j s v g = elim (Option-cases (first_identity s.entries)) [
  | inl n ↦ rw (n, close_next) g
  | inr (i, h) ↦ rw (h, close_next) (close-IsGone j i s v g)
]

insert-IsGone :
    (j : ℕ) (kind : SocketKind) (handle : ℕ) (s : State)
    → IsGone j s
    → IsGone j (insert kind handle s).1
unfolding insert
insert-IsGone j kind handle s g =
    grind (
      arith,
      get-insert,
      next_identity-cases s.next_socket_id,
      next_identity-cases s.next_generation,
    )

pub step-IsGone : (j : ℕ) (c : Call) (s : State) → IsValid s → IsGone j s → IsGone j (step c s)
unfolding step
step-IsGone j (inserts kind handle) s v g = insert-IsGone j kind handle s g
step-IsGone j (takes i k d) s v g = take_waiter-IsGone j i k d s g
step-IsGone j (installs r) s v g = install_waiter-IsGone j r s g
step-IsGone j (cancels i op ref) s v g = cancel-IsGone j i op ref s g
step-IsGone j (readies key) s v g = take_ready_waiter-IsGone j key s g
step-IsGone j (remembers i d w) s v g = remember_sent-IsGone j i d w s g
step-IsGone j (closes i) s v g = close-IsGone j i s v g
step-IsGone j closes_next s v g = close_next-IsGone j s v g
step-IsGone j (wakes flag) s v g = g

pub run-IsGone : (j : ℕ) (cs : List Call) (s : State) → IsValid s → IsGone j s → IsGone j (run cs s)
unfolding run
run-IsGone j [] s v g = g
run-IsGone j (c ∷ cs) s v g =
    run-IsGone j cs (step c s) (step-IsValid c s v) (step-IsGone j c s v g)

pub close_self-IsGone :
    (i : SocketIdentity) (s : State) {ws : List (Direction × Waiter)}
    → IsValid s
    → (close i s).0 ≡ ok ws
    → IsGone i.id (close i s).1
unfolding close
close_self-IsGone i s v h = grind (arith, get-remove i.id i.id 0 s.entries v.sorted, v.known i.id)

IsGone-refused :
    (i : SocketIdentity) (s : State)
    → get i.id s.entries ≡ none
    → ((k : SocketKind) → validate s.table i k ≡ err invalid_socket)
      × ((op : Operation) (ref : ℕ) → (cancel i op ref s).0 ≡ err invalid_socket)
      × ((close i s).0 ≡ err invalid_socket)
      × ((d : Direction) → (take_ready_waiter (record { identity = i; direction = d }) s).0 ≡ stale)
unfolding validate cancel take_ready_waiter close
IsGone-refused i s h = (λ k. ground arith, λ op ref. ground arith, ground arith, λ d. ground arith)

-- Once a close of an identity succeeds, no history of later calls makes that identity valid again: to
-- validate it, to cancel one of its operations and to close it are refused as an invalid socket, and
-- its ready keys are stale.
pub close-run-stale :
    (i : SocketIdentity) (s : State) (ws : List (Direction × Waiter)) (cs : List Call)
    → IsValid s
    → (close i s).0 ≡ ok ws
    → ((k : SocketKind) → validate (run cs (close i s).1).table i k ≡ err invalid_socket)
      × ((op : Operation) (ref : ℕ)
          → (cancel i op ref (run cs (close i s).1)).0 ≡ err invalid_socket)
      × ((close i (run cs (close i s).1)).0 ≡ err invalid_socket)
      × ((d : Direction)
          → (take_ready_waiter (record { identity = i; direction = d }) (run cs (close i s).1)).0
            ≡ stale)
close-run-stale i s ws cs v h =
    IsGone-refused i (run cs (close i s).1)
      (run-IsGone i.id cs (close i s).1 (Preserve.close-IsValid i s v)
        (close_self-IsGone i s v h)).0
