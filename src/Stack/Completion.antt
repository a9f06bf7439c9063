-- ===== src/Stack/Completion.antt =====
-- native/smolnet_core/src/stack.rs: the parts of `finish_call` keep every due key in the queue, in its
-- overflow mark, in the sweep or among the pending keys.
use smolnet.Prelude.{
  ℕ, ◌≡◌, refl, ap, Bool, true, false, not, ◌&&◌, ◌||◌, Option, some, List, [], ◌∷◌, ◌++◌, ◌==◌,
  arith, Bool-cases, Option-cases, inl, inr,
}
use smolnet.Prelude.Map.{Map, get}
use smolnet.Waiter.{ReadyKey, Direction, key_eq, key_eq_refl, key_eq→eq, Flags}
use smolnet.Waiter.Queue.{ReadyState, LockState, contains, take_overflow, drain_while}
use smolnet.Waiter.Drain.{drain_while-split}
use smolnet.SocketTable.{State, SocketEntry, ready_flag}
use smolnet.SocketTable.Invariant.{IsValid}
use smolnet.SocketTable.Scan.{ReadyScan, scan_ready, key_of}
use smolnet.SocketTable.Sweep.{emit, passed, ready_after, scan_ready-split}
use smolnet.Stack.State.{is_running}
use smolnet.Stack.Native.{NativeStack, Env, ReadySweep}
use smolnet.Stack.Calls.{Progress, deliver_keys, start_sweep, drain_queue, after_scan, scan_step}
use smolnet.Stack.Delivery.{is_due, entry_due}
use smolnet.Stack.Tracking.{covered, Owed, contains-append, deliver_keys-Handled}

contains-emit :
    (k j : ReadyKey) (b : Bool) (ks : List ReadyKey)
    → contains k (emit b j ks) ≡ (b && key_eq j k || contains k ks)
unfolding contains
contains-emit k j true ks = refl
contains-emit k j false ks = refl

contains-ready_after :
    (k : ReadyKey) (flags : Flags) (c : Option ReadyKey) (j g : ℕ) (e : SocketEntry)
    (m : Map (ℕ × SocketEntry))
    → contains k (ready_after flags c ((j, (g, e)) ∷ m)) ≡ (
        not (passed c j Direction.read)
          && flags.cell e.read_ready
          && key_eq (key_of j g Direction.read) k
        || (not (passed c j Direction.write)
              && flags.cell e.write_ready
              && key_eq (key_of j g Direction.write) k
            || contains k (ready_after flags c m)))
unfolding ready_after
contains-ready_after k flags c j g e m =
    let first =
      contains-emit k (key_of j g Direction.read)
        (not (passed c j Direction.read) && flags.cell e.read_ready)
        (emit (not (passed c j Direction.write) && flags.cell e.write_ready)
          (key_of j g Direction.write) (ready_after flags c m)) in
    let second =
      contains-emit k (key_of j g Direction.write)
        (not (passed c j Direction.write) && flags.cell e.write_ready) (ready_after flags c m) in
    rw first (rw second (ground arith))

-- The specification of a scan has each due key behind its cursor.
ready_after-contains :
    (flags : Flags) (c : Option ReadyKey) (id g : ℕ) (d : Direction) (e : SocketEntry)
    (m : Map (ℕ × SocketEntry))
    → get id m ≡ some (g, e)
    → flags.cell (ready_flag d e) ≡ true
    → passed c id d ≡ false
    → contains (key_of id g d) (ready_after flags c m) ≡ true
unfolding get
ready_after-contains flags c id g d e [] h f p = absurd (cc)
ready_after-contains flags c id g d e ((j, (g', e')) ∷ m) h f p =
    rw (contains-ready_after (key_of id g d) flags c j g' e' m) (elim (Bool-cases (j == id)) [
      | inr other ↦
          let ih = ready_after-contains flags c id g d e m (ground arith) f p in ground arith
      | inl here ↦ found d (ground arith) (ground arith) (ground arith) f p
    ])
  where
    found :
        (d : Direction)
        → j ≡ id
        → g' ≡ g
        → e' ≡ e
        → flags.cell (ready_flag d e) ≡ true
        → passed c id d ≡ false
        → (not (passed c j Direction.read)
              && flags.cell e'.read_ready
              && key_eq (key_of j g' Direction.read) (key_of id g d)
            || (not (passed c j Direction.write)
                  && flags.cell e'.write_ready
                  && key_eq (key_of j g' Direction.write) (key_of id g d)
                || contains (key_of id g d) (ready_after flags c m)))
          ≡ true
    found Direction.read a b x f p =
        rw (a, b, x) (ground (arith, key_eq_refl (key_of id g Direction.read)))
    found Direction.write a b x f p =
        rw (a, b, x) (ground (arith, key_eq_refl (key_of id g Direction.write)))

ready_after-passed :
    (flags : Flags) (c : Option ReadyKey) (k : ReadyKey) (m : Map (ℕ × SocketEntry))
    → contains k (ready_after flags c m) ≡ true
    → passed c k.identity.id k.direction ≡ false
unfolding ready_after contains
ready_after-passed flags c k [] h = absurd (cc)
ready_after-passed flags c k ((j, (g, e)) ∷ m) h =
    let h' = rw (contains-ready_after k flags c j g e m) at h in
    let ih = ready_after-passed flags c k m in
    let r = key_eq→eq (key_of j g Direction.read) k in
    let w = key_eq→eq (key_of j g Direction.write) k in
    elim (Bool-cases (
      not (passed c j Direction.read)
      && flags.cell e.read_ready
      && key_eq (key_of j g Direction.read) k)) [
        | inl here ↦
            let same : key_of j g Direction.read ≡ k = r (ground arith) in
            rw (← same) (ground arith)
        | inr other ↦
            elim (Bool-cases (
              not (passed c j Direction.write)
              && flags.cell e.write_ready
              && key_eq (key_of j g Direction.write) k)) [
                | inl here' ↦
                    let same : key_of j g Direction.write ≡ k = w (ground arith) in
                    rw (← same) (ground arith)
                | inr other' ↦ ih (ground arith)
              ]
      ]

-- The overflow mark is taken only by a sweep over all keys.
pub start_sweep-covered :
    {B : Type 0} (env : Env B) (s : NativeStack B) (k : ReadyKey)
    → is_running s.sockets.lifecycle ≡ true
    → covered s.ready s.ready_sweep k ≡ true
    → covered (start_sweep env s).ready (start_sweep env s).ready_sweep k ≡ true
unfolding start_sweep covered take_overflow
start_sweep-covered env s k live c = ground arith

pub drain_queue-covered :
    {B : Type 0} (env : Env B) (lock : LockState) (limit : ℕ) (s : NativeStack B) (k : ReadyKey)
    → covered s.ready s.ready_sweep k ≡ true
    → let (queued, t) = drain_queue env lock limit s in
      (contains k queued || covered t.ready t.ready_sweep k) ≡ true
unfolding drain_queue covered
drain_queue-covered env lock limit s k c =
    let (split, short, kept) = drain_while-split env.checkpoint limit lock s.ready s.call_budget in
    let e =
      contains-append k (drain_while env.checkpoint limit lock s.ready s.call_budget).0
        (drain_while env.checkpoint limit lock s.ready s.call_budget).1.entries in
    let e' = rw split at e in ground (arith, kept, e')

is_due-entry :
    (s : State) (k : ReadyKey)
    → is_due s k ≡ true
    → (e : SocketEntry) × (get k.identity.id s.entries ≡ some (k.identity.generation, e))
      × (s.flags.cell (ready_flag k.direction e) ≡ true)
unfolding is_due entry_due
is_due-entry s k d = elim (Option-cases (get k.identity.id s.entries)) [
  | inl n ↦ let d' = rw n at d in absurd (cc)
  | inr ((g, e), n) ↦
      let d' = rw n at d in
      let same : g ≡ k.identity.generation = ground arith in (e, rw (← same) n, ground arith)
]

-- Every due key is among the pending ones, or will be brought up.
abbrev pub IsTracked : {B : Type 0} → NativeStack B → Type 0
IsTracked s = Owed (covered s.ready s.ready_sweep) [] s.ready_sweep.pending s.sockets.socket_table

-- The keys of a scan, and the marks after it, cover what the marks before it did.
after_scan-covered :
    (scan : ReadyScan) (sweep : ReadySweep) (r : ReadyState) (t : State) (k : ReadyKey)
    → scan.keys ++ ready_after t.flags scan.cursor t.entries
      ≡ ready_after t.flags sweep.cursor t.entries
    → (scan.complete ≡ true → ready_after t.flags scan.cursor t.entries ≡ [])
    → sweep.sweeping ≡ true
    → is_due t k ≡ true
    → covered r sweep k ≡ true
    → (contains k scan.keys || covered r (after_scan scan sweep) k) ≡ true
unfolding covered after_scan
after_scan-covered scan sweep r t k split done on d c =
    let (e, h, f) = is_due-entry t k d in
    elim (Bool-cases (passed sweep.cursor k.identity.id k.direction)) [
      | inl behind ↦ ground arith
      | inr ahead ↦
          let owed =
            ready_after-contains t.flags sweep.cursor k.identity.id k.identity.generation
              k.direction e t.entries h f ahead in
          let owed' = rw (← split) at owed in
          let parts = contains-append k scan.keys (ready_after t.flags scan.cursor t.entries) in
          let later = ready_after-passed t.flags scan.cursor k t.entries in
          elim (Bool-cases scan.complete) [
            | inl whole ↦
                let rest = done whole in
                let parts' = rw rest at parts in
                let none_left : contains k [] ≡ false = unfold contains in refl in
                ground (arith, parts', none_left)
            | inr partial ↦ ground (arith, later, parts)
          ]
    ]

pub covered-marks :
    (r r' : ReadyState) (w w' : ReadySweep) (k : ReadyKey)
    → r ≡ r'
    → w ≡ w'
    → covered r w k ≡ covered r' w' k
covered-marks r r' w w' k e f = cc

-- A covered key is still so when the list of pending keys is another.
after_scan-pending :
    (scan : ReadyScan) (w : ReadySweep) (ks : List ReadyKey) (r : ReadyState) (k : ReadyKey)
    → covered r (after_scan scan (record w { pending = ks })) k ≡ covered r (after_scan scan w) k
unfolding after_scan covered
after_scan-pending scan w ks r k = refl

module _ {B : Type 0} (env : Env B) where
  pub scan_step-IsTracked :
      (remaining : ℕ) (p : Progress B)
      → is_running p.stack.sockets.lifecycle ≡ true
      → IsValid p.stack.sockets.socket_table
      → p.stack.ready_sweep.sweeping ≡ true
      → p.stack.ready_sweep.pending ≡ []
      → IsTracked p.stack
      → IsTracked (scan_step env remaining p).stack
  unfolding scan_step
  scan_step-IsTracked remaining p live valid on none_pending tracked =
      let s = p.stack in
      let t = s.sockets.socket_table in
      let (scan, b) =
        scan_ready env.checkpoint t.table t.flags s.ready_sweep.cursor remaining remaining
          s.call_budget in
      let (split, done) =
        scan_ready-split env.checkpoint t.table t.flags s.ready_sweep.cursor remaining remaining
          s.call_budget valid.sorted in
      let h =
        deliver_keys-Handled env scan.keys (record p { stack = record s { call_budget = b } })
          live in
      let q =
        (deliver_keys env scan.keys (record p { stack = record s { call_budget = b } })).stack in
      let start : Owed (covered s.ready (after_scan scan s.ready_sweep)) scan.keys
          s.ready_sweep.pending t =
        λ k d.
          let c = tracked k d in
          let e1 : contains k s.ready_sweep.pending ≡ contains k [] =
            ap (contains k) none_pending in
          let e0 : contains k [] ≡ false = unfold contains in refl in
          let e =
            after_scan-covered scan s.ready_sweep s.ready t k split done on d
              (ground (arith, c, e1, e0)) in
          ground (arith, e) in
      let end = h.owed (covered s.ready (after_scan scan s.ready_sweep)) start in
      λ k d.
        let x = end k d in
        let m =
          covered-marks q.ready s.ready (after_scan scan q.ready_sweep)
            (after_scan scan (record s.ready_sweep { pending = q.ready_sweep.pending })) k h.ready
            (ap (after_scan scan) h.sweep) in
        let m' = after_scan-pending scan s.ready_sweep q.ready_sweep.pending s.ready k in
        rw (m, m') x
