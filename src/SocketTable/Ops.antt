-- ===== src/SocketTable/Ops.antt =====
-- native/smolnet_core/src/socket_table.rs: the operations that change the table. The count of waiters
-- is written with the `-` that stops at 0; Invariant shows that it never has to.
use smolnet.Prelude.{
  ℕ, ◌+◌, ◌-◌, Bool, false, not, ◌&&◌, ◌||◌, Option, none, some, List, [], ◌∷◌, leb, ◌==◌,
  if◌then◌else◌, length,
}
use smolnet.Prelude.Map.{Map, get, insert as map_insert, remove, write as map_write}
use smolnet.Prelude.Result.{Result, ok, err}
use smolnet.Waiter.{
  Direction, Operation, direction, direction_code, Waiter, SocketIdentity, ReadyKey, matches, Flags,
  store, new_flag,
}
use smolnet.SocketTable.{
  SocketKind, open_, is_open, SocketEntry, SocketTable, State, SocketError, invalid_socket,
  invalid_state, invalid_operation, busy, system_limit, waiter, set_waiter, sent, set_sent,
  ready_flag, next_identity, validate,
}

-- The entry of a live socket, and the slot written back.
abbrev pub put : ℕ → ℕ → SocketEntry → SocketTable → SocketTable
put id generation e t = record t { entries = map_write id (generation, e) t.entries }

-- `SocketEntry::new`, with its two flags from memory.
unfoldable pub new_entry : SocketKind → ℕ → Flags → SocketEntry × Flags
unfolding new_flag
new_entry kind handle flags =
    let (r, flags1) = new_flag flags in
    let (w, flags2) = new_flag flags1 in
    (
      record {
        kind = kind;
        lifecycle = open_;
        internal_handle = handle;
        read_waiter = none;
        write_waiter = none;
        read_ready = r;
        write_ready = w;
        read_sent = none;
        write_sent = none;
      },
      flags2,
    )

-- The second `next_identity` of an insert, and the new entry. The first counter stays advanced
-- where the second is exhausted.
unfoldable pub insert_with : SocketKind → ℕ → ℕ → State → Result SocketError SocketIdentity × State
unfolding new_entry
insert_with kind handle id s = elim (next_identity s.next_generation).0 [
  | err e ↦ (err e, s)
  | ok generation ↦
      let (entry, flags) = new_entry kind handle s.flags in
      (
        ok (record { id = id; generation = generation }),
        record s {
          table = record s.table { entries = map_insert id (generation, entry) s.entries };
          next_generation = (next_identity s.next_generation).1;
          flags = flags;
        },
      )
]

unfoldable pub insert : SocketKind → ℕ → State → Result SocketError SocketIdentity × State
unfolding insert_with
insert kind handle s =
    if leb s.max_entries (length s.entries)
    then (err system_limit, s)
    else elim (next_identity s.next_socket_id).0 [
      | err e ↦ (err e, s)
      | ok id ↦
          insert_with kind handle id
            (record s { next_socket_id = (next_identity s.next_socket_id).1 })
    ]

unfoldable pub take_waiter :
    SocketIdentity → SocketKind → Direction → State → Result SocketError (Option Waiter) × State
unfolding validate store
take_waiter identity kind dir s = elim (validate s.table identity kind) [
  | err e ↦ (err e, s)
  | ok entry ↦ elim (waiter dir entry) [
    | none ↦ (ok none, s)
    | some w ↦ (
      ok (some w),
      record s {
        table = record (put identity.id identity.generation (set_waiter dir none entry) s.table) {
          waiter_count = s.waiter_count - 1;
        };
        flags = store (ready_flag dir entry) false s.flags;
      },
    )
  ]
]

pub data InstallResult : Type 0 where
  armed already_armed : InstallResult

pub record WaiterRegistration : Type 0 where
  pub identity : SocketIdentity
  pub expected_kind : SocketKind
  pub direction : Direction
  pub pid : ℕ
  pub operation : Operation
  pub reference : ℕ

-- The end of `install_waiter`, for an entry with no waiter in that direction.
unfoldable pub arm :
    WaiterRegistration → SocketEntry → State → Result SocketError InstallResult × State
arm r entry s = if leb s.max_waiters s.waiter_count then (err system_limit, s) else (
  ok armed,
  record s {
    table = record (put r.identity.id r.identity.generation armed_entry s.table) {
      waiter_count = s.waiter_count + 1;
    };
  },
)
  where
    new_waiter : Waiter
    new_waiter = record { pid = r.pid; operation = r.operation; reference = r.reference }

    armed_entry : SocketEntry
    armed_entry = set_waiter r.direction (some new_waiter) (set_sent r.direction none entry)

unfoldable pub install_waiter :
    WaiterRegistration → State → Result SocketError InstallResult × State
unfolding validate arm direction matches
install_waiter r s =
    if not (direction_code (direction r.operation) == direction_code r.direction)
    then (err invalid_operation, s)
    else elim (validate s.table r.identity r.expected_kind) [
      | err e ↦ (err e, s)
      | ok entry ↦ elim (waiter r.direction entry) [
        | some w ↦ (
          if w.pid == r.pid && matches w r.operation r.reference
              then ok already_armed
              else err busy,
          s,
        )
        | none ↦ arm r entry s
      ]
    ]

pub data CancelResult : Type 0 where
  cancelled already_sent not_found : CancelResult

abbrev pub is_match : Option Waiter → Operation → ℕ → Bool
is_match none operation reference = false
is_match (some w) operation reference = matches w operation reference

unfoldable pub cancel_entry :
    SocketIdentity → Operation → ℕ → SocketEntry → State → CancelResult × State
unfolding direction matches store
cancel_entry identity operation reference entry s =
    let dir = direction operation in
    if is_match (waiter dir entry) operation reference
    then (
      cancelled,
      record s {
        table = record (put identity.id identity.generation (set_waiter dir none entry) s.table) {
          waiter_count = s.waiter_count - 1;
        };
        flags = store (ready_flag dir entry) false s.flags;
      },
    )
    else if is_match (sent dir entry) operation reference
    then (already_sent, s)
    else (not_found, s)

unfoldable pub cancel :
    SocketIdentity → Operation → ℕ → State → Result SocketError CancelResult × State
unfolding cancel_entry
cancel identity operation reference s = elim (get identity.id s.entries) [
  | none ↦ (err invalid_socket, s)
  | some (generation, entry) ↦
      if not (generation == identity.generation)
      then (err invalid_socket, s)
      else if not (is_open entry.lifecycle)
      then (err invalid_state, s)
      else (
        ok (cancel_entry identity operation reference entry s).0,
        (cancel_entry identity operation reference entry s).1,
      )
]

pub data ReadyResult : Type 0 where
  notify : Waiter → ReadyResult
  no_waiter coalesced stale : ReadyResult

-- The flag is swapped to false whether or not there is a waiter. The waiter taken is stored as sent
-- and taken from there at once.
unfoldable pub take_ready_entry : ReadyKey → SocketEntry → State → ReadyResult × State
unfolding store
take_ready_entry key entry s =
    if s.flags.cell (ready_flag key.direction entry)
    then elim (waiter key.direction entry) [
      | none ↦ (no_waiter, swapped)
      | some w ↦ (
        notify w,
        record swapped {
          table = record (put key.identity.id key.identity.generation taken s.table) {
            waiter_count = s.waiter_count - 1;
          };
        },
      )
    ]
    else (coalesced, swapped)
  where
    swapped : State
    swapped = record s { flags = store (ready_flag key.direction entry) false s.flags }

    taken : SocketEntry
    taken = set_sent key.direction none (set_waiter key.direction none entry)

unfoldable pub take_ready_waiter : ReadyKey → State → ReadyResult × State
unfolding take_ready_entry
take_ready_waiter key s = elim (get key.identity.id s.entries) [
  | none ↦ (stale, s)
  | some (generation, entry) ↦
      if not (generation == key.identity.generation) || not (is_open entry.lifecycle)
      then (stale, s)
      else take_ready_entry key entry s
]

unfoldable pub remember_sent : SocketIdentity → Direction → Waiter → State → State
remember_sent identity dir w s = elim (get identity.id s.entries) [
  | none ↦ s
  | some (generation, entry) ↦
      if generation == identity.generation
      then record s { table = put identity.id generation (set_sent dir (some w) entry) s.table }
      else s
]

abbrev pub waiters_of : SocketEntry → List (Direction × Waiter)
waiters_of e = elim e.read_waiter [
  | some r ↦
      (Direction.read, r) ∷ elim e.write_waiter [ some w ↦ (Direction.write, w) ∷ [] | none ↦ [] ]
  | none ↦ elim e.write_waiter [ some w ↦ (Direction.write, w) ∷ [] | none ↦ [] ]
]

-- The entry is taken out before its generation is looked at, and put back if it is another's.
unfoldable pub close :
    SocketIdentity → State → Result SocketError (List (Direction × Waiter)) × State
close identity s = elim (get identity.id s.entries) [
  | none ↦ (err invalid_socket, s)
  | some (generation, entry) ↦
      let left = remove identity.id s.entries in
      if not (generation == identity.generation)
      then (
        err invalid_socket,
        record s {
          table = record s.table { entries = map_insert identity.id (generation, entry) left };
        },
      )
      else (
        ok (waiters_of entry),
        record s {
          table = record s.table {
            entries = left;
            waiter_count = s.waiter_count - length (waiters_of entry);
          };
        },
      )
]

-- `first_key_value`, then `close`, whose result is `expect`ed: an error there is a panic.
unfoldable pub first_identity : Map (ℕ × SocketEntry) → Option SocketIdentity
first_identity [] = none
first_identity ((id, (generation, entry)) ∷ m) = some (record { id = id; generation = generation })

unfoldable pub close_next :
    State → Option (SocketIdentity × Result SocketError (List (Direction × Waiter))) × State
unfolding first_identity close
close_next s = elim (first_identity s.entries) [
  | none ↦ (none, s)
  | some identity ↦ (some (identity, (close identity s).0), (close identity s).1)
]
