-- ===== src/Stack/Delivery.antt =====
-- native/smolnet_core/src/stack.rs: which keys are due, and that a delivery settles its own key and leaves
-- the others.
use smolnet.Prelude.{
  ℕ, ◌≡◌, refl, ◌∙◌, Bool, true, false, not, ◌&&◌, ◌||◌, Option, none, some, ◌==◌, arith,
  Bool-cases, Option-cases, inl, inr,
}
use smolnet.Prelude.Map.{get, get-write, write}
use smolnet.Waiter.{
  ReadyKey, SocketIdentity, Direction, direction_code, Waiter, Flags, key_eq, key_eq→eq, store,
}
use smolnet.SocketTable.{State, SocketEntry, is_open, ready_flag, waiter, set_waiter, set_sent}
use smolnet.SocketTable.Ops.{take_ready_waiter, take_ready_entry, remember_sent}

-- The key is that of an open socket whose flag is set.
unfoldable pub entry_due : ReadyKey → Flags → Option (ℕ × SocketEntry) → Bool
entry_due key flags none = false
entry_due key flags (some (generation, entry)) =
    generation == key.identity.generation
    && (is_open entry.lifecycle && flags.cell (ready_flag key.direction entry))

unfoldable pub is_due : State → ReadyKey → Bool
unfolding entry_due
is_due s key = entry_due key s.flags (get key.identity.id s.entries)

-- A due key of a table whose entry `id` was written back, with a flag of it cleared, was due before, and
-- is not the key of that flag.
entry_due-put :
    (k : ReadyKey) (id g a : ℕ) (old e : SocketEntry) (s : State)
    → get id s.entries ≡ some (g, old)
    → ((d : Direction) → ready_flag d e ≡ ready_flag d old)
    → e.lifecycle ≡ old.lifecycle
    → entry_due k (store a false s.flags) (get k.identity.id (write id (g, e) s.entries)) ≡ true
    → (is_due s k ≡ true) × ((k.identity.id == id && ready_flag k.direction old == a) ≡ false)
unfolding is_due entry_due store
entry_due-put k id g a old e s h r w d =
    let at = get-write id k.identity.id (g, e) (g, old) s.entries h in
    let same = r k.direction in
    elim (Bool-cases (id == k.identity.id)) [
      | inl here ↦
          let i : id ≡ k.identity.id = ground arith in
          let h' : get k.identity.id s.entries ≡ some (g, old) = rw (← i) h in
          let d' = rw (at, here) at d in (rw h' (ground arith), ground arith)
      | inr other ↦ let d' = rw (at, other) at d in (ground arith, ground arith)
    ]

entry_due-store :
    (k : ReadyKey) (id g a : ℕ) (old : SocketEntry) (s : State)
    → get id s.entries ≡ some (g, old)
    → is_due (record s { flags = store a false s.flags }) k ≡ true
    → (is_due s k ≡ true) × ((k.identity.id == id && ready_flag k.direction old == a) ≡ false)
unfolding is_due entry_due store
entry_due-store k id g a old s h d = elim (Bool-cases (id == k.identity.id)) [
  | inl here ↦
      let i : id ≡ k.identity.id = ground arith in
      let h' : get k.identity.id s.entries ≡ some (g, old) = rw (← i) h in
      let d' = rw h' at d in (rw h' (ground arith), ground arith)
  | inr other ↦ elim (Option-cases (get k.identity.id s.entries)) [
    | inl n ↦ let d' = rw n at d in absurd (cc)
    | inr (v, n) ↦ let d' = rw n at d in (rw n (ground arith), ground arith)
  ]
]

key_eq-flag :
    (key k : ReadyKey) (e : SocketEntry)
    → (k.identity.id == key.identity.id && ready_flag k.direction e == ready_flag key.direction e)
      ≡ false
    → key_eq key k ≡ false
unfolding key_eq
key_eq-flag key k e h = same key.direction k.direction h
  where
    same :
        (d d' : Direction)
        → (k.identity.id == key.identity.id && ready_flag d' e == ready_flag d e) ≡ false
        → (key.identity.id == k.identity.id
            && (key.identity.generation == k.identity.generation
                && direction_code d == direction_code d'))
          ≡ false
    same Direction.read Direction.read q = ground arith
    same Direction.read Direction.write q = ground arith
    same Direction.write Direction.read q = ground arith
    same Direction.write Direction.write q = ground arith

set_sent-flag :
    (d c : Direction) (w : Option Waiter) (e : SocketEntry)
    → ready_flag c (set_sent d w e) ≡ ready_flag c e
set_sent-flag Direction.read Direction.read w e = refl
set_sent-flag Direction.read Direction.write w e = refl
set_sent-flag Direction.write Direction.read w e = refl
set_sent-flag Direction.write Direction.write w e = refl

set_waiter-flag :
    (d c : Direction) (w : Option Waiter) (e : SocketEntry)
    → ready_flag c (set_waiter d w e) ≡ ready_flag c e
set_waiter-flag Direction.read Direction.read w e = refl
set_waiter-flag Direction.read Direction.write w e = refl
set_waiter-flag Direction.write Direction.read w e = refl
set_waiter-flag Direction.write Direction.write w e = refl

set_sent-lifecycle :
    (d : Direction) (w : Option Waiter) (e : SocketEntry) → (set_sent d w e).lifecycle ≡ e.lifecycle
set_sent-lifecycle Direction.read w e = refl
set_sent-lifecycle Direction.write w e = refl

set_waiter-lifecycle :
    (d : Direction) (w : Option Waiter) (e : SocketEntry)
    → (set_waiter d w e).lifecycle ≡ e.lifecycle
set_waiter-lifecycle Direction.read w e = refl
set_waiter-lifecycle Direction.write w e = refl

-- Where nothing was taken, the key was not due.
not_due :
    (key k : ReadyKey) (s : State) → is_due s key ≡ false → is_due s k ≡ true → key_eq key k ≡ false
unfolding key_eq is_due entry_due
not_due key k s h d = elim (Bool-cases (key_eq key k)) [
  | inr other ↦ other
  | inl same ↦ let e : key ≡ k = key_eq→eq key k same in absurd (cc)
]

take_ready_entry-due :
    (key k : ReadyKey) (g : ℕ) (e : SocketEntry) (s : State)
    → get key.identity.id s.entries ≡ some (g, e)
    → g ≡ key.identity.generation
    → is_due (take_ready_entry key e s).1 k ≡ true
    → (is_due s k ≡ true) × (key_eq key k ≡ false)
unfolding take_ready_entry
take_ready_entry-due key k g e s h q d =
    elim (Bool-cases (s.flags.cell (ready_flag key.direction e))) [
      | inr clear ↦
          let d' = rw clear at d in
          let (was, other) =
            entry_due-store k key.identity.id g (ready_flag key.direction e) e s h d' in
          (was, key_eq-flag key k e other)
      | inl set ↦ elim (Option-cases (waiter key.direction e)) [
        | inl n ↦
            let d' = rw (set, n) at d in
            let (was, other) =
              entry_due-store k key.identity.id g (ready_flag key.direction e) e s h d' in
            (was, key_eq-flag key k e other)
        | inr (w, n) ↦
            let d' = rw (set, n) at d in
            let h' : get key.identity.id s.entries ≡ some (key.identity.generation, e) =
              rw (← q) h in
            let taken = set_sent key.direction none (set_waiter key.direction none e) in
            let (was, other) =
              entry_due-put k key.identity.id key.identity.generation (ready_flag key.direction e) e
                taken s h'
                (λ c.
                  set_sent-flag key.direction c none (set_waiter key.direction none e)
                  ∙ set_waiter-flag key.direction c none e)
                (set_sent-lifecycle key.direction none (set_waiter key.direction none e)
                  ∙ set_waiter-lifecycle key.direction none e)
                (unfold is_due in d') in
            (was, key_eq-flag key k e other)
      ]
    ]

-- After a key is taken it is not due, and each other key that is due was so before.
pub take_ready_waiter-due :
    (key k : ReadyKey) (s : State)
    → is_due (take_ready_waiter key s).1 k ≡ true
    → (is_due s k ≡ true) × (key_eq key k ≡ false)
unfolding take_ready_waiter
take_ready_waiter-due key k s d = elim (Option-cases (get key.identity.id s.entries)) [
  | inl n ↦
      let d' = rw (n, take_ready_waiter) at d in
      (d', not_due key k s (unfold is_due entry_due in rw n refl) d')
  | inr ((g, e), n) ↦
      elim (Bool-cases (not (g == key.identity.generation) || not (is_open e.lifecycle))) [
        | inl bad ↦
            let d' = rw (n, take_ready_waiter, bad) at d in
            (d', not_due key k s (unfold is_due entry_due in rw n (ground arith)) d')
        | inr good ↦
            let d' = rw (n, take_ready_waiter, good) at d in
            take_ready_entry-due key k g e s n (ground arith) d'
      ]
]

pub remember_sent-due :
    (i : SocketIdentity) (dir : Direction) (w : Waiter) (k : ReadyKey) (s : State)
    → is_due (remember_sent i dir w s) k ≡ true
    → is_due s k ≡ true
unfolding remember_sent is_due entry_due
remember_sent-due i dir w k s d = elim (Option-cases (get i.id s.entries)) [
  | inl n ↦ rw (n, remember_sent) at d
  | inr ((g, e), n) ↦ elim (Bool-cases (g == i.generation)) [
    | inr stale ↦ rw (n, remember_sent, stale) at d
    | inl same ↦
        let d' = rw (n, remember_sent, same) at d in
        let at = get-write i.id k.identity.id (g, set_sent dir (some w) e) (g, e) s.entries n in
        let f = set_sent-flag dir k.direction (some w) e in
        let l = set_sent-lifecycle dir (some w) e in
        elim (Bool-cases (i.id == k.identity.id)) [
          | inl here ↦
              let j : i.id ≡ k.identity.id = ground arith in
              let n' : get k.identity.id s.entries ≡ some (g, e) = rw (← j) n in
              let d'' = rw (at, here) at d' in rw n' (ground arith)
          | inr other ↦ rw (at, other) at d'
        ]
  ]
]
