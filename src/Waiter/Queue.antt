-- ===== src/Waiter/Queue.antt =====
-- native/smolnet_core/src/waiter.rs: the bounded set of ready keys that wakers fill and calls drain.
-- A `try_lock` finds the mutex free, poisoned or held by another thread, which is its argument here;
-- the counters are `AtomicU64`s, which wrap.
use smolnet.Prelude.{
  ℕ, suc, ◌+◌, ◌%◌, ◌^◌, Bool, true, false, ◌||◌, Option, none, some, List, [], ◌∷◌, ltb, ◌==◌,
  if◌then◌else◌, length,
}
use smolnet.Waiter.{ReadyKey, Flags, store, key_lt, key_eq}

abbrev pub u64_add : ℕ → ℕ → ℕ
u64_add a b = (a + b) % 2 ^ 64

pub record ReadinessCounters : Type 0 where
  pub queued : ℕ
  pub coalesced : ℕ
  pub overflows : ℕ

-- `ReadyState`, whose `entries` are a `BTreeSet`: a list in the order of its keys.
pub record ReadyState : Type 0 where
  pub entries : List ReadyKey
  pub capacity : ℕ
  pub overflow : Bool
  pub counters : ReadinessCounters
  pub open counters use *

pub data LockState : Type 0 where
  free poisoned would_block : LockState

unfoldable pub new : ℕ → ReadyState
new capacity = record {
  entries = [];
  capacity = capacity;
  overflow = false;
  counters = record { queued = 0; coalesced = 0; overflows = 0 };
}

unfoldable pub contains : ReadyKey → List ReadyKey → Bool
contains k [] = false
contains k (j ∷ js) = key_eq j k || contains k js

unfoldable pub insert : ReadyKey → List ReadyKey → List ReadyKey
insert k [] = k ∷ []
insert k (j ∷ js) =
    if key_lt k j then k ∷ j ∷ js else if key_eq j k then j ∷ js else j ∷ insert k js

-- `ReadyQueue::waker`: the key, the shared flag, and the queue (which is the state passed below).
pub record ReadyWaker : Type 0 where
  pub key : ReadyKey
  pub flag : ℕ

unfoldable pub queue_or_overflow : ReadyWaker → ReadyState → ReadyState
queue_or_overflow w s =
    if ltb (length s.entries) s.capacity
    then record s {
      entries = insert w.key s.entries;
      counters = record counters { queued = u64_add s.queued 1 };
    }
    else overflowed
  where
    open s use {counters}

    overflowed : ReadyState
    overflowed = record s {
      overflow = true;
      counters = record counters { overflows = u64_add s.overflows 1 };
    }

unfoldable pub publish : LockState → ReadyWaker → ReadyState → ReadyState
publish free w s = queue_or_overflow w s
publish poisoned w s = queue_or_overflow w s
publish would_block w s = record s {
  overflow = true;
  counters = record counters { overflows = u64_add s.overflows 1 };
}
  where
    open s use {counters}

-- `ReadyWaker::mark_ready`, which `wake` and `wake_by_ref` call.
unfoldable pub mark_ready : LockState → ReadyWaker → ReadyState → Flags → ReadyState × Flags
unfolding publish queue_or_overflow
mark_ready lock w s flags =
    if flags.cell w.flag
    then (
      record s { counters = record counters { coalesced = u64_add s.coalesced 1 } },
      store w.flag true flags,
    )
    else (publish lock w s, store w.flag true flags)
  where
    open s use {counters}

unfoldable pub try_entries : LockState → ReadyState → Option (List ReadyKey)
try_entries free s = some s.entries
try_entries poisoned s = some s.entries
try_entries would_block s = none

unfoldable pub take_overflow : ReadyState → Bool × ReadyState
take_overflow s = (s.overflow, record s { overflow = false })

unfoldable pub len : LockState → ReadyState → ℕ
unfolding try_entries
len lock s = elim (try_entries lock s) [ none ↦ 0 | some entries ↦ length entries ]

unfoldable pub is_nonempty : List ReadyKey → Bool
is_nonempty [] = false
is_nonempty (k ∷ ks) = true

unfoldable pub has_pending : LockState → ReadyState → Bool
unfolding try_entries is_nonempty
has_pending lock s =
    s.overflow || elim (try_entries lock s) [ none ↦ true | some entries ↦ is_nonempty entries ]

-- What a drain takes out, what it leaves, and the budget after it.
pub record Drained {ℓ} (B : Type ℓ) : Type ℓ where
  pub keys : List ReadyKey
  pub left : List ReadyKey
  pub budget : B

module _ {ℓ} {B : Type ℓ} (within_budget : B → Bool × B) where
  -- The loop of `drain_while`; `taken` is `keys.len()` before the round.
  unfoldable pub drain_loop : ℕ → ℕ → List ReadyKey → B → Drained B
  drain_loop limit taken [] b = record { keys = []; left = []; budget = b }
  drain_loop limit taken (k ∷ ks) b =
      let (go, b') = within_budget b in
      let rest = drain_loop limit (suc taken) ks b' in
      let more : Drained B =
        if go
        then record rest { keys = k ∷ rest.keys }
        else record { keys = k ∷ []; left = ks; budget = b' } in
      if suc taken == limit then record { keys = k ∷ []; left = ks; budget = b } else more

  unfoldable pub drain_locked : ℕ → LockState → ReadyState → B → List ReadyKey × ReadyState × B
  unfolding try_entries drain_loop
  drain_locked limit lock s b = elim (try_entries lock s) [
    | none ↦ ([], record s { overflow = true }, b)
    | some entries ↦
        let d = drain_loop limit 0 entries b in (d.keys, record s { entries = d.left }, d.budget)
  ]

  unfoldable pub drain_while : ℕ → LockState → ReadyState → B → List ReadyKey × ReadyState × B
  unfolding drain_locked
  drain_while limit lock s b =
      let (go, b') = within_budget b in
      if limit == 0 then ([], s, b) else if go then drain_locked limit lock s b' else ([], s, b')
