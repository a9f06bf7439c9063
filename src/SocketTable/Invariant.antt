-- ===== src/SocketTable/Invariant.antt =====
-- native/smolnet_core/src/socket_table.rs: what every operation on the table keeps.
use smolnet.Prelude.{
  ℕ, ◌+◌, ◌-◌, ◌≤◌, ◌≡◌, refl, inl, inr, true, Option, none, some, arith, length, Option-cases,
}
use smolnet.Prelude.Map.{
  get, IsSorted, get-write, write-IsSorted, total, total-remove, total-write, length-write,
}
use smolnet.Prelude.Result.{ok, Result-cases}
use smolnet.Waiter.{Direction, Waiter, SocketIdentity, Flags}
use smolnet.SocketTable.{
  SocketKind, SocketEntry, SocketTable, State, waiter, set_waiter, set_sent, validate, count_some,
  is_open, kind_code,
}
use smolnet.SocketTable.Ops.{put, take_waiter}

abbrev pub entry_waiters : SocketEntry → ℕ
entry_waiters e = count_some e.read_waiter + count_some e.write_waiter

abbrev pub slot_waiters : ℕ × SocketEntry → ℕ
slot_waiters (g, e) = entry_waiters e

pub record IsValid (s : State) : Type 0 where
  pub sorted : IsSorted 0 s.entries
  pub bounded : length s.entries ≤ s.max_entries
  pub counted : total slot_waiters s.entries ≡ s.waiter_count
  pub limited : s.waiter_count ≤ s.max_waiters
  pub known : (id : ℕ) → s.next_socket_id ≤ id → get id s.entries ≡ none

-- A validated identity is that of the entry stored, of the kind expected, and open.
pub validate-ok :
    (t : SocketTable) (i : SocketIdentity) (k : SocketKind) (e : SocketEntry)
    → validate t i k ≡ ok e
    → (get i.id t.entries ≡ some (i.generation, e))
      × (kind_code e.kind ≡ kind_code k)
      × (is_open e.lifecycle ≡ true)
unfolding validate
validate-ok t i k e h = ground (arith)

-- Writing one slot back, with a count that changes as its waiters do, keeps all of it.
pub put-IsValid :
    (id generation count : ℕ) (old e : SocketEntry) (flags : Flags) (s : State)
    → get id s.entries ≡ some (generation, old)
    → entry_waiters old + count ≡ entry_waiters e + s.waiter_count
    → count ≤ s.max_waiters
    → IsValid s
    → IsValid (record s {
      table = record (put id generation e s.table) { waiter_count = count };
      flags = flags;
    })
put-IsValid id generation count old e flags s h c l v = record {
  sorted = write-IsSorted id 0 (generation, e) s.entries v.sorted;
  bounded = omega (arith, v.bounded, length-write id (generation, e) s.entries);
  counted =
      omega (
        arith,
        v.counted,
        total-write slot_waiters id (generation, e) (generation, old) s.entries h,
      );
  limited = l;
  known = λ j b.
      ground (arith, v.known j b, get-write id j (generation, e) (generation, old) s.entries h);
}

-- A waiter that is stored is counted.
pub waiter_count-pos :
    (id generation : ℕ) (e : SocketEntry) (s : State)
    → get id s.entries ≡ some (generation, e)
    → IsValid s
    → entry_waiters e ≤ s.waiter_count
waiter_count-pos id generation e s h v =
    omega (arith, v.counted, total-remove slot_waiters id (generation, e) s.entries h)

pub set_waiter-waiters :
    (dir : Direction) (w : Option Waiter) (e : SocketEntry)
    → entry_waiters (set_waiter dir w e) + count_some (waiter dir e)
      ≡ entry_waiters e + count_some w
set_waiter-waiters Direction.read w e = omega arith
set_waiter-waiters Direction.write w e = omega arith

pub set_sent-waiters :
    (dir : Direction) (w : Option Waiter) (e : SocketEntry)
    → (entry_waiters (set_sent dir w e) ≡ entry_waiters e)
      × ((d : Direction) → waiter d (set_sent dir w e) ≡ waiter d e)
set_sent-waiters Direction.read w e =
    (refl, elim [ Direction.read ↦ refl | Direction.write ↦ refl ])
set_sent-waiters Direction.write w e =
    (refl, elim [ Direction.read ↦ refl | Direction.write ↦ refl ])

-- Taking the waiter of one direction out of an entry.
pub disarm-IsValid :
    (dir : Direction) (id generation : ℕ) (e e' : SocketEntry) (w : Waiter) (flags : Flags)
    (s : State)
    → get id s.entries ≡ some (generation, e)
    → waiter dir e ≡ some w
    → entry_waiters e' ≡ entry_waiters (set_waiter dir none e)
    → IsValid s
    → IsValid (record s {
      table = record (put id generation e' s.table) { waiter_count = s.waiter_count - 1 };
      flags = flags;
    })
disarm-IsValid dir id generation e e' w flags s h m k v =
    let c : count_some (waiter dir e) ≡ 1 = rw m in
    put-IsValid id generation (s.waiter_count - 1) e e' flags s h
      (omega (arith, set_waiter-waiters dir none e, waiter_count-pos id generation e s h v))
      (omega (arith, v.limited)) v

pub take_waiter-IsValid :
    (i : SocketIdentity) (k : SocketKind) (dir : Direction) (s : State)
    → IsValid s
    → IsValid (take_waiter i k dir s).1
unfolding take_waiter
take_waiter-IsValid i k dir s v = elim (Result-cases (validate s.table i k)) [
  | inl (e, h) ↦ elim (Option-cases (waiter dir e)) [
    | inl n ↦ rw (h, take_waiter) (rw n v)
    | inr (w, m) ↦
        rw (h, take_waiter)
          (rw m (
            disarm-IsValid dir i.id i.generation e (set_waiter dir none e) w _ s
              (validate-ok s.table i k e h).0 m refl v))
  ]
  | inr (x, h) ↦ rw (h, take_waiter) v
]
