-- ===== src/Waiter/Pending.antt =====
-- native/smolnet_core/src/waiter.rs: a wake-up is never lost, whatever the lock does. For each waker
-- whose flag is set, its key is queued or the overflow mark asks for a sweep over the flags.
use smolnet.Prelude.{
  suc, ◌≤◌, ◌≡◌, refl, ◌⊎◌, inl, inr, true, List, [], ◌∷◌, arith, length, Bool-cases,
}
use smolnet.Waiter.{ReadyKey, Flags, store, key_eq_refl}
use smolnet.Waiter.Queue.{
  ReadyState, ReadyWaker, LockState, free, poisoned, would_block, contains, insert, mark_ready,
  queue_or_overflow, publish,
}

pub contains-insert_self : (k : ReadyKey) (es : List ReadyKey) → contains k (insert k es) ≡ true
unfolding contains insert
contains-insert_self k [] = ground (arith, key_eq_refl k)
contains-insert_self k (j ∷ es) = ground (arith, key_eq_refl k, contains-insert_self k es)

pub contains-insert_mono :
    (k j : ReadyKey) (es : List ReadyKey) → contains j es ≡ true → contains j (insert k es) ≡ true
unfolding contains insert
contains-insert_mono k j [] h = cc
contains-insert_mono k j (i ∷ es) h = ground (arith, contains-insert_mono k j es)

pub length-insert-le : (k : ReadyKey) (es : List ReadyKey) → length (insert k es) ≤ suc (length es)
unfolding insert
length-insert-le k [] = omega arith
length-insert-le k (j ∷ es) = ground (arith, length-insert-le k es)

-- What keeps a set flag from being forgotten.
abbrev pub IsTracked : ReadyWaker → ReadyState → Flags → Type 0
IsTracked v s f = f.cell v.flag ≡ true → (contains v.key s.entries ≡ true) ⊎ (s.overflow ≡ true)

queue_or_overflow-pending :
    (w : ReadyWaker) (s : ReadyState)
    → (contains w.key (queue_or_overflow w s).entries ≡ true)
      ⊎ ((queue_or_overflow w s).overflow ≡ true)
unfolding queue_or_overflow
queue_or_overflow-pending w s = ground (arith, contains-insert_self w.key s.entries)

queue_or_overflow-keeps :
    (w : ReadyWaker) (k : ReadyKey) (s : ReadyState)
    → (contains k s.entries ≡ true) ⊎ (s.overflow ≡ true)
    → (contains k (queue_or_overflow w s).entries ≡ true)
      ⊎ ((queue_or_overflow w s).overflow ≡ true)
unfolding queue_or_overflow
queue_or_overflow-keeps w k s h = ground (arith, contains-insert_mono w.key k s.entries)

publish-pending :
    (lock : LockState) (w : ReadyWaker) (s : ReadyState)
    → (contains w.key (publish lock w s).entries ≡ true) ⊎ ((publish lock w s).overflow ≡ true)
unfolding publish
publish-pending free w s = queue_or_overflow-pending w s
publish-pending poisoned w s = queue_or_overflow-pending w s
publish-pending would_block w s = inr refl

publish-keeps :
    (lock : LockState) (w : ReadyWaker) (k : ReadyKey) (s : ReadyState)
    → (contains k s.entries ≡ true) ⊎ (s.overflow ≡ true)
    → (contains k (publish lock w s).entries ≡ true) ⊎ ((publish lock w s).overflow ≡ true)
unfolding publish
publish-keeps free w k s h = queue_or_overflow-keeps w k s h
publish-keeps poisoned w k s h = queue_or_overflow-keeps w k s h
publish-keeps would_block w k s h = inr refl

-- A wake sets its waker's flag. Then every waker `v` of the queue whose flag is set has its key queued
-- or the overflow mark set, if that held before the wake and a flag belongs to one key. This holds
-- whether the mutex was free, poisoned or held by another thread, and for a full queue.
pub mark_ready-IsTracked :
    (lock : LockState) (w v : ReadyWaker) (s : ReadyState) (f : Flags)
    → (v.flag ≡ w.flag → v.key ≡ w.key)
    → IsTracked v s f
    → ((mark_ready lock w s f).1.cell w.flag ≡ true)
      × IsTracked v (mark_ready lock w s f).0 (mark_ready lock w s f).1
unfolding mark_ready store
mark_ready-IsTracked lock w v s f same h = elim (Bool-cases (f.cell w.flag)) [
  | inl set ↦ (ground arith, λ on. ground (arith, h, same))
  | inr clear ↦ (
    ground arith,
    λ on. ground (arith, h, same, publish-pending lock w s, publish-keeps lock w v.key s),
  )
]

-- A queue within its capacity stays within it at a wake, and keeps that capacity.
pub length-mark_ready :
    (lock : LockState) (w : ReadyWaker) (s : ReadyState) (f : Flags)
    → length s.entries ≤ s.capacity
    → (length (mark_ready lock w s f).0.entries ≤ s.capacity)
      × ((mark_ready lock w s f).0.capacity ≡ s.capacity)
unfolding mark_ready publish queue_or_overflow
length-mark_ready free w s f h = ground (arith, length-insert-le w.key s.entries)
length-mark_ready poisoned w s f h = ground (arith, length-insert-le w.key s.entries)
length-mark_ready would_block w s f h = ground arith
