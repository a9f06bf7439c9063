-- ===== src/Waiter/Drain.antt =====
-- native/smolnet_core/src/waiter.rs: what a bounded drain takes, and what it leaves.
use smolnet.Prelude.{
  ℕ, suc, ◌+◌, ◌≤◌, ◌<◌, ◌≡◌, refl, Bool, true, List, [], ◌∷◌, ◌++◌, arith, length, ◌⊎◌, inl, inr,
  ◌≢◌,
}
use smolnet.Waiter.{ReadyKey}
use smolnet.Waiter.Queue.{
  ReadyState, LockState, free, poisoned, would_block, drain_loop, drain_locked, drain_while,
  try_entries,
}

module _ {ℓ} {B : Type ℓ} (within_budget : B → Bool × B) where
  drain_loop-split :
      (limit taken : ℕ) (es : List ReadyKey) (b : B)
      → (drain_loop within_budget limit taken es b).keys
          ++ (drain_loop within_budget limit taken es b).left
        ≡ es
  unfolding drain_loop
  drain_loop-split limit taken [] b = refl
  drain_loop-split limit taken (k ∷ es) b =
      ground (arith, drain_loop-split limit (suc taken) es (within_budget b).1)

  length-drain_loop :
      (limit taken : ℕ) (es : List ReadyKey) (b : B)
      → taken < limit
      → taken + length (drain_loop within_budget limit taken es b).keys ≤ limit
  unfolding drain_loop
  length-drain_loop limit taken [] b h = omega arith
  length-drain_loop limit taken (k ∷ es) b h =
      ground (arith, length-drain_loop limit (suc taken) es (within_budget b).1)

  drain_loop-ne-nil :
      (limit taken : ℕ) (es : List ReadyKey) (b : B)
      → es ≢ []
      → (drain_loop within_budget limit taken es b).keys ≢ []
  unfolding drain_loop
  drain_loop-ne-nil limit taken [] b h = absurd (h refl)
  drain_loop-ne-nil limit taken (k ∷ es) b h = ground arith

  -- A drain takes the first keys of the queue, in their order, at most `limit` of them, and leaves the
  -- rest; no overflow mark is lost.
  pub drain_while-split :
      (limit : ℕ) (lock : LockState) (s : ReadyState) (b : B)
      → ((drain_while within_budget limit lock s b).0
            ++ (drain_while within_budget limit lock s b).1.entries
          ≡ s.entries)
        × (length (drain_while within_budget limit lock s b).0 ≤ limit)
        × (s.overflow ≡ true → (drain_while within_budget limit lock s b).1.overflow ≡ true)
  unfolding drain_while drain_locked try_entries
  drain_while-split limit free s b = ground (
    arith,
    drain_loop-split limit 0 s.entries (within_budget b).1,
    length-drain_loop limit 0 s.entries (within_budget b).1,
  )
  drain_while-split limit poisoned s b = ground (
    arith,
    drain_loop-split limit 0 s.entries (within_budget b).1,
    length-drain_loop limit 0 s.entries (within_budget b).1,
  )
  drain_while-split limit would_block s b = ground arith

  -- With budget and a positive limit, a drain of a queue that is not empty takes a key, or, where the
  -- mutex is held, leaves the overflow mark: the caller learns that something is pending.
  pub drain_while-progress :
      (limit : ℕ) (lock : LockState) (s : ReadyState) (b : B)
      → 0 < limit
      → (within_budget b).0 ≡ true
      → s.entries ≢ []
      → ((drain_while within_budget limit lock s b).0 ≢ [])
        ⊎ ((drain_while within_budget limit lock s b).1.overflow ≡ true)
  unfolding drain_while drain_locked try_entries
  drain_while-progress limit free s b h go ne =
      inl (ground (arith, drain_loop-ne-nil limit 0 s.entries (within_budget b).1 ne))
  drain_while-progress limit poisoned s b h go ne =
      inl (ground (arith, drain_loop-ne-nil limit 0 s.entries (within_budget b).1 ne))
  drain_while-progress limit would_block s b h go ne = inr (ground arith)
