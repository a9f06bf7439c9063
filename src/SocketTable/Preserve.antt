-- ===== src/SocketTable/Preserve.antt =====
-- native/smolnet_core/src/socket_table.rs: each operation keeps a valid table valid.
use smolnet.Prelude.{
  ℕ, ◌+◌, ◌≤◌, ◌<◌, ◌≡◌, refl, ◌⊎◌, inl, inr, Bool, true, false, none, some, arith, length,
  Option-cases, Bool-cases, if◌then◌else◌, ◌==◌, leb,
}
use smolnet.Prelude.Map.{
  get, insert as map_insert, get-insert, get-remove, insert-IsSorted, remove-IsSorted, total-insert,
  total-remove, length-insert, length-remove, insert-remove,
}
use smolnet.Prelude.Result.{ok, err, Result-cases}
use smolnet.Waiter.{
  Direction, Operation, Waiter, SocketIdentity, ReadyKey, Flags, direction, direction_code, matches,
  store,
}
use smolnet.SocketTable.{
  SocketKind, SocketEntry, State, waiter, set_waiter, set_sent, next_identity, validate, is_open,
  ready_flag, sent, system_limit, max_socket_id,
}
use smolnet.SocketTable.Ops.{
  insert_with, insert, WaiterRegistration, arm, install_waiter, cancel_entry, is_match, cancel,
  take_ready_entry, take_ready_waiter, remember_sent, waiters_of, close, first_identity, close_next,
  new_entry, already_sent, not_found, CancelResult,
}
use smolnet.SocketTable.Invariant.{
  IsValid, slot_waiters, entry_waiters, put-IsValid, disarm-IsValid, set_sent-waiters, validate-ok,
}

arm-IsValid :
    (r : WaiterRegistration) (e : SocketEntry) (s : State)
    → get r.identity.id s.entries ≡ some (r.identity.generation, e)
    → waiter r.direction e ≡ none
    → IsValid s
    → IsValid (arm r e s).1
unfolding arm
arm-IsValid r e s h n v = elim (Bool-cases (leb s.max_waiters s.waiter_count)) [
  | inl full ↦ rw full v
  | inr room ↦ rw room (
      put-IsValid r.identity.id r.identity.generation (s.waiter_count + 1) e _ s.flags s h
        (weight r.direction _ n) (ground arith) v)
]
  where
    weight :
        (dir : Direction) (w : Waiter)
        → waiter dir e ≡ none
        → entry_waiters e + (s.waiter_count + 1)
          ≡ entry_waiters (set_waiter dir (some w) (set_sent dir none e)) + s.waiter_count
    weight Direction.read w m = rw m (omega arith)
    weight Direction.write w m = rw m (omega arith)

pub install_waiter-IsValid :
    (r : WaiterRegistration) (s : State) → IsValid s → IsValid (install_waiter r s).1
unfolding install_waiter
install_waiter-IsValid r s v =
    elim (Bool-cases (direction_code (direction r.operation) == direction_code r.direction)) [
      | inr other ↦ rw other v
      | inl same ↦ elim (Result-cases (validate s.table r.identity r.expected_kind)) [
        | inr (x, h) ↦ rw same (rw (h, install_waiter) v)
        | inl (e, h) ↦ elim (Option-cases (waiter r.direction e)) [
          | inl n ↦ rw same (
              rw (h, install_waiter) (rw n (arm-IsValid r e s (validate-ok s.table _ _ e h).0 n v)))
          | inr (w, m) ↦ rw same (rw (h, install_waiter) (rw m v))
        ]
      ]
    ]

cancel_entry-IsValid :
    (i : SocketIdentity) (op : Operation) (ref : ℕ) (e : SocketEntry) (s : State)
    → get i.id s.entries ≡ some (i.generation, e)
    → IsValid s
    → IsValid (cancel_entry i op ref e s).1
unfolding cancel_entry
cancel_entry-IsValid i op ref e s h v =
    elim (Bool-cases (is_match (sent (direction op) e) op ref)) [
      | inl old ↦ first old
      | inr none_sent ↦ first none_sent
    ]
  where
    rest :
        (b : Bool)
        → is_match (sent (direction op) e) op ref ≡ b
        → IsValid
            (if◌then◌else◌ {A = CancelResult × State}
              (is_match (sent (direction op) e) op ref)
              (already_sent, s)
              (not_found, s)).1
    rest true q = rw q v
    rest false q = rw q v

    first :
        {b : Bool}
        → is_match (sent (direction op) e) op ref ≡ b
        → IsValid (cancel_entry i op ref e s).1
    first {b} q = elim (Option-cases (waiter (direction op) e)) [
      | inl n ↦ rw (n, cancel_entry) (rest b q)
      | inr (w, m) ↦ elim (Bool-cases (matches w op ref)) [
        | inl hit ↦
            rw (m, cancel_entry)
              (rw hit (
                disarm-IsValid (direction op) i.id i.generation e (set_waiter (direction op) none e)
                  w _ s h m refl v))
        | inr miss ↦ rw (m, cancel_entry) (rw miss (rest b q))
      ]
    ]

pub cancel-IsValid :
    (i : SocketIdentity) (op : Operation) (ref : ℕ) (s : State)
    → IsValid s
    → IsValid (cancel i op ref s).1
unfolding cancel
cancel-IsValid i op ref s v = elim (Option-cases (get i.id s.entries)) [
  | inl n ↦ rw (n, cancel) v
  | inr ((g, e), h) ↦ elim (Bool-cases (g == i.generation)) [
    | inr other ↦ rw (h, cancel) (rw other v)
    | inl same ↦
        let e' : g ≡ i.generation = ground arith in
        rw (h, cancel)
          (rw same (elim (Bool-cases (is_open e.lifecycle)) [
            | inl o ↦ rw o (cancel_entry-IsValid i op ref e s (rw e' at h) v)
            | inr c ↦ rw c v
          ]))
  ]
]

take_ready_entry-IsValid :
    (key : ReadyKey) (e : SocketEntry) (s : State)
    → get key.identity.id s.entries ≡ some (key.identity.generation, e)
    → IsValid s
    → IsValid (take_ready_entry key e s).1
unfolding take_ready_entry
take_ready_entry-IsValid key e s h v =
    elim (Bool-cases (s.flags.cell (ready_flag key.direction e))) [
      | inr clear ↦ rw clear swapped
      | inl on ↦ elim (Option-cases (waiter key.direction e)) [
        | inl n ↦ rw on (rw n swapped)
        | inr (w, m) ↦ rw on (
            rw m (
              disarm-IsValid key.direction key.identity.id key.identity.generation e
                (set_sent key.direction none (set_waiter key.direction none e)) w _ s h m
                (set_sent-waiters key.direction none (set_waiter key.direction none e)).0 v))
      ]
    ]
  where
    swapped : IsValid (record s { flags = store (ready_flag key.direction e) false s.flags })
    swapped = record {
      sorted = v.sorted;
      bounded = v.bounded;
      counted = v.counted;
      limited = v.limited;
      known = v.known;
    }

pub take_ready_waiter-IsValid :
    (key : ReadyKey) (s : State) → IsValid s → IsValid (take_ready_waiter key s).1
unfolding take_ready_waiter
take_ready_waiter-IsValid key s v = elim (Option-cases (get key.identity.id s.entries)) [
  | inl n ↦ rw (n, take_ready_waiter) v
  | inr ((g, e), h) ↦ elim (Bool-cases (g == key.identity.generation)) [
    | inr other ↦ rw (h, take_ready_waiter) (rw other v)
    | inl same ↦
        let e' : g ≡ key.identity.generation = ground arith in
        rw (h, take_ready_waiter)
          (rw same (elim (Bool-cases (is_open e.lifecycle)) [
            | inl o ↦ rw o (take_ready_entry-IsValid key e s (rw e' at h) v)
            | inr c ↦ rw c v
          ]))
  ]
]

pub remember_sent-IsValid :
    (i : SocketIdentity) (dir : Direction) (w : Waiter) (s : State)
    → IsValid s
    → IsValid (remember_sent i dir w s)
unfolding remember_sent
remember_sent-IsValid i dir w s v = elim (Option-cases (get i.id s.entries)) [
  | inl n ↦ rw (n, remember_sent) v
  | inr ((g, e), h) ↦ elim (Bool-cases (g == i.generation)) [
    | inr other ↦ rw (h, remember_sent) (rw other v)
    | inl same ↦
        rw (h, remember_sent)
          (rw same (
            put-IsValid i.id g s.waiter_count e (set_sent dir (some w) e) s.flags s h
              (omega (arith, (set_sent-waiters dir (some w) e).0)) v.limited v))
  ]
]

length-waiters_of : (e : SocketEntry) → length (waiters_of e) ≡ entry_waiters e
length-waiters_of e = ground arith

pub close-IsValid : (i : SocketIdentity) (s : State) → IsValid s → IsValid (close i s).1
unfolding close
close-IsValid i s v = elim (Option-cases (get i.id s.entries)) [
  | inl n ↦ rw (n, close) v
  | inr ((g, e), h) ↦ elim (Bool-cases (g == i.generation)) [
    | inl same ↦
        rw (h, close)
          (rw same (record {
            sorted = remove-IsSorted i.id 0 s.entries v.sorted;
            bounded = omega (arith, v.bounded, length-remove i.id (g, e) s.entries h);
            counted = omega (
              arith,
              v.counted,
              total-remove slot_waiters i.id (g, e) s.entries h,
              length-waiters_of e,
            );
            limited = omega (arith, v.limited);
            known = λ j b. ground (arith, v.known j b, get-remove i.id j 0 s.entries v.sorted);
          }))
    | inr other ↦ rw (h, close) (rw other (rw (insert-remove i.id 0 (g, e) s.entries v.sorted h) v))
  ]
]

pub close_next-IsValid : (s : State) → IsValid s → IsValid (close_next s).1
unfolding close_next
close_next-IsValid s v = elim (Option-cases (first_identity s.entries)) [
  | inl n ↦ rw (n, close_next) v
  | inr (i, h) ↦ rw (h, close_next) (close-IsValid i s v)
]

pub next_identity-cases :
    (n : ℕ)
    → ((next_identity n ≡ (ok n, n + 1)) × (n ≤ max_socket_id))
      ⊎ (next_identity n ≡ (err system_limit, n))
unfolding next_identity
next_identity-cases n = elim (Bool-cases (leb n max_socket_id)) [
  | inl le ↦ inl (rw le, ground arith)
  | inr gt ↦ inr (rw gt)
]

-- A new entry, under an identity that no entry has.
insert_fresh-IsValid :
    (id generation next : ℕ) (e : SocketEntry) (flags : Flags) (s : State)
    → length s.entries < s.max_entries
    → s.next_socket_id ≡ id
    → entry_waiters e ≡ 0
    → IsValid s
    → IsValid (record s {
      table = record s.table { entries = map_insert id (generation, e) s.entries };
      next_socket_id = id + 1;
      next_generation = next;
      flags = flags;
    })
insert_fresh-IsValid id generation next e flags s room n z v =
    let absent : get id s.entries ≡ none = v.known id (omega arith) in
    record {
      sorted = insert-IsSorted id 0 (generation, e) s.entries (omega arith) v.sorted;
      bounded = omega (arith, length-insert id (generation, e) s.entries absent);
      counted =
          omega (arith, v.counted, total-insert slot_waiters id (generation, e) s.entries absent);
      limited = v.limited;
      known = λ j b. ground (arith, v.known j, get-insert id j (generation, e) s.entries);
    }

pub insert-IsValid :
    (kind : SocketKind) (handle : ℕ) (s : State) → IsValid s → IsValid (insert kind handle s).1
unfolding insert insert_with new_entry
insert-IsValid kind handle s v = elim (Bool-cases (leb s.max_entries (length s.entries))) [
  | inl full ↦ rw full v
  | inr room ↦ elim (next_identity-cases s.next_socket_id) [
    | inr h ↦ rw room (rw (h, insert) v)
    | inl (h, le) ↦ elim (next_identity-cases s.next_generation) [
      | inr g ↦ rw room (
          rw (h, insert)
            (rw (g, insert_with) (rw h (advanced (s.next_socket_id + 1) (omega arith)))))
      | inl (g, le') ↦ rw room (
          rw (h, insert)
            (rw (g, insert_with)
              (rw h (
                insert_fresh-IsValid s.next_socket_id s.next_generation _ _ _ s (ground arith) refl
                  refl v))))
    ]
  ]
]
  where
    advanced : (n : ℕ) → s.next_socket_id ≤ n → IsValid (record s { next_socket_id = n })
    advanced n le = record {
      sorted = v.sorted;
      bounded = v.bounded;
      counted = v.counted;
      limited = v.limited;
      known = λ j b. v.known j (omega arith);
    }
