-- ===== src/SocketTable/Insert.antt =====
-- native/smolnet_core/src/socket_table.rs: what `insert` gives its caller, on both of its outcomes.
use smolnet.Prelude.{
  ◌<◌, ◌≤◌, suc, ℕ, ◌≡◌, ◌==◌, false, none, refl, ◌⊎◌, inl, inr, arith, leb, length, Bool-cases,
}
use smolnet.Prelude.Map.{insert as map_insert, get, get-insert, length-insert}
use smolnet.Prelude.Result.{ok, err}
use smolnet.Waiter.{SocketIdentity, Direction}
use smolnet.SocketTable.{
  SocketKind, SocketEntry, State, validate, system_limit, max_socket_id, ready_flag, next_identity,
}
use smolnet.SocketTable.Ops.{insert, insert_with, new_entry}
use smolnet.SocketTable.Preserve.{next_identity-cases}
use smolnet.SocketTable.Invariant.{IsValid, entry_waiters}

abbrev pub Inserted : SocketKind → ℕ → State → Type 0
Inserted kind handle s =
    (i : SocketIdentity) × (e : SocketEntry) × ((insert kind handle s).0 ≡ ok i)
    × ((insert kind handle s).1.table
        ≡ record s.table { entries = map_insert i.id (i.generation, e) s.entries })
    × (validate (insert kind handle s).1.table i kind ≡ ok e)
    × (length s.entries < s.max_entries)

validate-new :
    (kind : SocketKind) (handle id generation : ℕ) (s : State)
    → validate
        (record s.table {
          entries = map_insert id (generation, (new_entry kind handle s.flags).0) s.entries;
        })
        (record { id = id; generation = generation })
        kind
      ≡ ok (new_entry kind handle s.flags).0
unfolding validate new_entry
validate-new kind handle id generation s =
    let e = get-insert id id (generation, (new_entry kind handle s.flags).0) s.entries in
    rw (e, validate) (ground arith)

-- Both outcomes on any table: the limit, or the map with the entry.
pub insert-cases :
    (kind : SocketKind) (handle : ℕ) (s : State)
    → (((insert kind handle s).0 ≡ err system_limit) × ((insert kind handle s).1.table ≡ s.table))
      ⊎ Inserted kind handle s
unfolding insert insert_with new_entry
insert-cases kind handle s = elim (Bool-cases (leb s.max_entries (length s.entries))) [
  | inl full ↦ rw full (inl (refl, refl))
  | inr room ↦ elim (next_identity-cases s.next_socket_id) [
    | inr h ↦ rw room (rw (h, insert) (inl (refl, refl)))
    | inl (h, le) ↦ elim (next_identity-cases s.next_generation) [
      | inr g ↦ rw room (rw (h, insert) (rw (g, insert_with) (inl (refl, refl))))
      | inl (g, le') ↦ rw room (
          rw (h, insert)
            (rw (g, insert_with)
              (inr (
                record { id = s.next_socket_id; generation = s.next_generation },
                (new_entry kind handle s.flags).0,
                refl,
                refl,
                validate-new kind handle s.next_socket_id s.next_generation s,
                ground arith,
              ))))
    ]
  ]
]

-- `t` is `s` with one more socket, under an identity that no socket of `s` has and none will have again:
-- it validates, with no waiter and both flags clear, and every other id is as it was.
pub record Adds (kind : SocketKind) (handle : ℕ) (s t : State) (i : SocketIdentity) : Type 0 where
  pub entry : SocketEntry
  pub fresh : get i.id s.entries ≡ none
  pub validates : validate t.table i kind ≡ ok entry
  pub same_handle : entry.internal_handle ≡ handle
  pub waiters : entry_waiters entry ≡ 0
  pub unset : (dir : Direction) → t.flags.cell (ready_flag dir entry) ≡ false
  pub others : (id : ℕ) → (id == i.id) ≡ false → get id t.entries ≡ get id s.entries
  pub size : length t.entries ≡ suc (length s.entries)
  pub room : length t.entries ≤ t.max_entries
  pub id_passed : i.id < t.next_socket_id
  pub generation_passed : i.generation < t.next_generation

abbrev added : SocketKind → ℕ → State → State
added kind handle s = record s {
  table = record s.table {
    entries =
        map_insert s.next_socket_id (s.next_generation, (new_entry kind handle s.flags).0)
          s.entries;
  };
  next_socket_id = (next_identity s.next_socket_id).1;
  next_generation = (next_identity s.next_generation).1;
  flags = (new_entry kind handle s.flags).1;
}

added-Adds :
    (kind : SocketKind) (handle : ℕ) (s : State)
    → length s.entries < s.max_entries
    → s.next_socket_id < (next_identity s.next_socket_id).1
    → s.next_generation < (next_identity s.next_generation).1
    → IsValid s
    → Adds kind handle s
        (added kind handle s)
        (record { id = s.next_socket_id; generation = s.next_generation })
unfolding new_entry
added-Adds kind handle s room id_next generation_next v =
    let e = (new_entry kind handle s.flags).0 in
    let slot : ℕ × SocketEntry = (s.next_generation, e) in
    let unused = v.known s.next_socket_id (omega arith) in
    let size = length-insert s.next_socket_id slot s.entries unused in
    record {
      entry = e;
      fresh = unused;
      validates = validate-new kind handle s.next_socket_id s.next_generation s;
      same_handle = refl;
      waiters = refl;
      unset = clear;
      others =
          λ id other. let g = get-insert s.next_socket_id id slot s.entries in ground (arith, g);
      size = size;
      room = omega (arith, size, room);
      id_passed = id_next;
      generation_passed = generation_next;
    }
  where
    clear :
        (dir : Direction)
        → (added kind handle s).flags.cell (ready_flag dir (new_entry kind handle s.flags).0)
          ≡ false
    clear Direction.read = ground arith
    clear Direction.write = ground arith

next_identity-exhausted : (n : ℕ) → next_identity n ≡ (err system_limit, n) → max_socket_id < n
unfolding next_identity
next_identity-exhausted n h = elim (Bool-cases (leb n max_socket_id)) [
  | inl le ↦ absurd (ground arith)
  | inr gt ↦ ground arith
]

-- On a valid table an insert refuses exactly when the table is full or the ids or the generations are
-- used up, with `system_limit` and the table as it was. Else it adds one socket, of that kind and handle,
-- under an identity that was free and is passed by both counters, with room kept; every other entry stays.
pub insert-Adds :
    (kind : SocketKind) (handle : ℕ) (s : State)
    → IsValid s
    → (((insert kind handle s).0 ≡ err system_limit)
        × ((insert kind handle s).1.table ≡ s.table)
        × ((s.max_entries ≤ length s.entries)
            ⊎ ((max_socket_id < s.next_socket_id) ⊎ (max_socket_id < s.next_generation))))
      ⊎ ((i : SocketIdentity) × ((insert kind handle s).0 ≡ ok i)
          × (length s.entries < s.max_entries)
          × (s.next_socket_id ≤ max_socket_id)
          × (s.next_generation ≤ max_socket_id)
          × Adds kind handle s (insert kind handle s).1 i)
unfolding insert insert_with
insert-Adds kind handle s v = elim (Bool-cases (leb s.max_entries (length s.entries))) [
  | inl full ↦ rw full (inl (refl, refl, inl (ground arith)))
  | inr room ↦ elim (next_identity-cases s.next_socket_id) [
    | inr h ↦
        rw room (
          rw (h, insert) (inl (refl, refl, inr (inl (next_identity-exhausted s.next_socket_id h)))))
    | inl (h, le) ↦ elim (next_identity-cases s.next_generation) [
      | inr g ↦ rw room (
          rw (h, insert)
            (rw (g, insert_with)
              (inl (refl, refl, inr (inr (next_identity-exhausted s.next_generation g))))))
      | inl (g, le') ↦ rw room (
          rw (h, insert)
            (rw (g, insert_with)
              (inr (
                record { id = s.next_socket_id; generation = s.next_generation },
                refl,
                ground arith,
                le,
                le',
                added-Adds kind handle s (ground arith) (rw h (omega arith)) (rw g (omega arith)) v,
              ))))
    ]
  ]
]
