-- ===== src/SocketTable/Run.antt =====
-- native/smolnet_core/src/socket_table.rs: histories of calls on one table, wakes of its flags among
-- them.
use smolnet.Prelude.{ℕ, ◌≡◌, ◌≤◌, ◌+◌, ◌∙◌, refl, true, List, [], ◌∷◌, arith}
use smolnet.Prelude.Map.{get, total, total-add}
use smolnet.Waiter.{Direction, Operation, Waiter, SocketIdentity, ReadyKey, Flags, store}
use smolnet.SocketTable.{SocketKind, State, SocketEntry, new, waiter_counts, count_some}
use smolnet.SocketTable.Ops.{
  WaiterRegistration, insert, take_waiter, install_waiter, cancel, take_ready_waiter, remember_sent,
  close, close_next,
}
use smolnet.SocketTable.Invariant.{IsValid, take_waiter-IsValid}
use smolnet.SocketTable.Preserve

pub data Call : Type 0 where
  inserts : SocketKind → ℕ → Call
  takes : SocketIdentity → SocketKind → Direction → Call
  installs : WaiterRegistration → Call
  cancels : SocketIdentity → Operation → ℕ → Call
  readies : ReadyKey → Call
  remembers : SocketIdentity → Direction → Waiter → Call
  closes : SocketIdentity → Call
  closes_next : Call
  wakes : ℕ → Call

unfoldable pub step : Call → State → State
unfolding insert take_waiter install_waiter cancel take_ready_waiter remember_sent close close_next
    store
step (inserts kind handle) s = (insert kind handle s).1
step (takes i k d) s = (take_waiter i k d s).1
step (installs r) s = (install_waiter r s).1
step (cancels i op ref) s = (cancel i op ref s).1
step (readies key) s = (take_ready_waiter key s).1
step (remembers i d w) s = remember_sent i d w s
step (closes i) s = (close i s).1
step closes_next s = (close_next s).1
step (wakes flag) s = record s { flags = store flag true s.flags }

unfoldable pub run : List Call → State → State
unfolding step
run [] s = s
run (c ∷ cs) s = run cs (step c s)

-- Every operation keeps a table valid: its ids rise, it holds at most `max_entries` sockets, its count
-- of waiters is the number of waiters its entries hold and at most `max_waiters`, and no entry has an
-- id that has not been given out.
pub step-IsValid : (c : Call) (s : State) → IsValid s → IsValid (step c s)
unfolding step
step-IsValid (inserts kind handle) s v = Preserve.insert-IsValid kind handle s v
step-IsValid (takes i k d) s v = take_waiter-IsValid i k d s v
step-IsValid (installs r) s v = Preserve.install_waiter-IsValid r s v
step-IsValid (cancels i op ref) s v = Preserve.cancel-IsValid i op ref s v
step-IsValid (readies key) s v = Preserve.take_ready_waiter-IsValid key s v
step-IsValid (remembers i d w) s v = Preserve.remember_sent-IsValid i d w s v
step-IsValid (closes i) s v = Preserve.close-IsValid i s v
step-IsValid closes_next s v = Preserve.close_next-IsValid s v
step-IsValid (wakes flag) s v = record {
  sorted = v.sorted;
  bounded = v.bounded;
  counted = v.counted;
  limited = v.limited;
  known = v.known;
}

pub run-IsValid : (cs : List Call) (s : State) → IsValid s → IsValid (run cs s)
unfolding run
run-IsValid [] s v = v
run-IsValid (c ∷ cs) s v = run-IsValid cs (step c s) (step-IsValid c s v)

-- A table starts valid, whatever the statics hold.
pub new-IsValid :
    (max_entries max_waiters id generation : ℕ) (flags : Flags)
    → IsValid (record {
      table = new max_entries max_waiters;
      next_socket_id = id;
      next_generation = generation;
      flags = flags;
    })
unfolding new get total
new-IsValid max_entries max_waiters id generation flags = record {
  sorted = tt;
  bounded = omega arith;
  counted = refl;
  limited = omega arith;
  known = λ j h. refl;
}

-- Whatever calls a valid table gets, the counts that it reports for the two directions add up to the
-- count that its limit is checked against, and they never pass that limit.
pub waiter_counts-run :
    (cs : List Call) (s : State)
    → IsValid s
    → ((waiter_counts (run cs s).table).0 + (waiter_counts (run cs s).table).1
        ≡ (run cs s).waiter_count)
      × ((waiter_counts (run cs s).table).0 + (waiter_counts (run cs s).table).1
          ≤ (run cs s).max_waiters)
unfolding waiter_counts
waiter_counts-run cs s v =
    let k = run-IsValid cs s v in
    (
      total-add _ _ (run cs s).entries ∙ k.counted,
      omega (
        arith,
        total-add (λ (v : ℕ × SocketEntry). count_some (v.1).read_waiter)
            (λ v. count_some (v.1).write_waiter) (run cs s).entries,
        k.counted,
        k.limited,
      ),
    )
