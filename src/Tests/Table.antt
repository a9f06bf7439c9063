-- ===== src/Tests/Table.antt =====
-- native/smolnet_core/src/socket_table.rs: a table of four sockets, and its theorems there.
use smolnet.Prelude.{
  ℕ, zero, suc, ◌+◌, ◌≤◌, ◌<◌, ◌≡◌, refl, ◌⊎◌, Bool, true, false, Option, some, List, [], ◌∷◌, ◌++◌,
  length,
}
use smolnet.Prelude.Map.{get, insert as map_insert, write as map_write, remove}
use smolnet.Prelude.Result.{ok, err}
use smolnet.Waiter.{
  Direction, Operation, Waiter, SocketIdentity, ReadyKey, Flags, store, new_flag, direction,
}
use smolnet.SocketTable.{
  SocketKind, State, new, validate, waiter_counts, next_identity, ensure_waiter_capacity,
  invalid_socket, system_limit, max_socket_id,
}
use smolnet.SocketTable.Ops.{
  WaiterRegistration, insert, insert_with, new_entry, close, cancel, take_ready_waiter, stale,
  install_waiter, arm,
}
use smolnet.SocketTable.Invariant.{IsValid}
use smolnet.SocketTable.Insert.{Adds, insert-Adds}
use smolnet.SocketTable.Run.{
  Call, inserts, installs, wakes, closes_next, step, run, step-IsValid, run-IsValid, new-IsValid,
  waiter_counts-run,
}
use smolnet.SocketTable.Stale.{close-run-stale}
use smolnet.SocketTable.Scan.{scan_ready}
use smolnet.SocketTable.Sweep.{ready_after, scan_ready-split}
use smolnet.SocketTable.ScanBounds.{scan_ready-bounds}

abbrev unset : Flags
unset = record { fresh = 0; cell = λ a. false }

abbrev empty : State
empty = record { table = new 4 2; next_socket_id = 1; next_generation = 1; flags = unset }

abbrev first : SocketIdentity
first = record { id = 1; generation = 1 }

abbrev receives : WaiterRegistration
receives = record {
  identity = first;
  expected_kind = SocketKind.tcp;
  direction = Direction.read;
  pid = 5;
  operation = Operation.recv;
  reference = 6;
}

-- Two sockets; the first waits to receive, and both of its flags are then set.
abbrev history : List Call
history =
    inserts SocketKind.tcp 7 ∷ inserts SocketKind.udp 8 ∷ installs receives ∷ wakes 0 ∷ wakes 1 ∷ []

abbrev pub two : State
two = run history empty

pub two-IsValid : IsValid two
two-IsValid = run-IsValid history empty (new-IsValid 4 2 1 1 unset)

abbrev waits : List (Direction × Waiter)
waits = (Direction.read, record { pid = 5; operation = Operation.recv; reference = 6 }) ∷ []

two_lem : (close first two).0 ≡ ok waits
unfolding run step insert insert_with next_identity new_entry new_flag store install_waiter arm
    validate ensure_waiter_capacity direction get map_insert map_write remove close new
two_lem = refl

abbrev later : State
later = run (inserts SocketKind.tcp 9 ∷ wakes 0 ∷ closes_next ∷ []) (close first two).1

close-run-stale_example :
    ((k : SocketKind) → validate later.table first k ≡ err invalid_socket)
    × ((op : Operation) (ref : ℕ) → (cancel first op ref later).0 ≡ err invalid_socket)
    × ((close first later).0 ≡ err invalid_socket)
    × ((d : Direction)
        → (take_ready_waiter (record { identity = first; direction = d }) later).0 ≡ stale)
close-run-stale_example =
    close-run-stale first two waits (inserts SocketKind.tcp 9 ∷ wakes 0 ∷ closes_next ∷ [])
      two-IsValid two_lem

step-IsValid_example : IsValid (step (inserts SocketKind.udp 3) two)
step-IsValid_example = step-IsValid (inserts SocketKind.udp 3) two two-IsValid

waiter_counts-run_example :
    ((waiter_counts (run history empty).table).0 + (waiter_counts (run history empty).table).1
      ≡ (run history empty).waiter_count)
    × ((waiter_counts (run history empty).table).0 + (waiter_counts (run history empty).table).1
        ≤ (run history empty).max_waiters)
waiter_counts-run_example = waiter_counts-run history empty (new-IsValid 4 2 1 1 unset)

insert-Adds_example :
    (((insert SocketKind.tcp 9 two).0 ≡ err system_limit)
      × ((insert SocketKind.tcp 9 two).1.table ≡ two.table)
      × ((two.max_entries ≤ length two.entries)
          ⊎ ((max_socket_id < two.next_socket_id) ⊎ (max_socket_id < two.next_generation))))
    ⊎ ((i : SocketIdentity) × ((insert SocketKind.tcp 9 two).0 ≡ ok i)
        × (length two.entries < two.max_entries)
        × (two.next_socket_id ≤ max_socket_id)
        × (two.next_generation ≤ max_socket_id)
        × Adds SocketKind.tcp 9 two (insert SocketKind.tcp 9 two).1 i)
insert-Adds_example = insert-Adds SocketKind.tcp 9 two two-IsValid

-- A budget of so many answers.
abbrev answers : ℕ → Bool × ℕ
answers zero = (false, zero)
answers (suc n) = (true, n)

abbrev from_first : Option ReadyKey
from_first = some (record { identity = first; direction = Direction.read })

scan_ready-split_example :
    ((scan_ready answers two.table two.flags from_first 2 1 5).0.keys
        ++ ready_after two.flags
            (scan_ready answers two.table two.flags from_first 2 1 5).0.cursor
            two.table.entries
      ≡ ready_after two.flags from_first two.table.entries)
    × ((scan_ready answers two.table two.flags from_first 2 1 5).0.complete ≡ true
        → ready_after two.flags
            (scan_ready answers two.table two.flags from_first 2 1 5).0.cursor
            two.table.entries
          ≡ [])
scan_ready-split_example =
    scan_ready-split answers two.table two.flags from_first 2 1 5 two-IsValid.sorted

scan_ready-bounds_example :
    (length (scan_ready answers two.table two.flags from_first 2 1 5).0.keys ≤ 1)
    × ((scan_ready answers two.table two.flags from_first 2 1 5).0.entries_scanned ≤ 2)
    × (0 < 2
        → 0 < 1
        → (answers 5).0 ≡ true
        → ((scan_ready answers two.table two.flags from_first 2 1 5).0.complete ≡ true)
          ⊎ (0 < (scan_ready answers two.table two.flags from_first 2 1 5).0.entries_scanned))
scan_ready-bounds_example = scan_ready-bounds answers two.table two.flags from_first 2 1 5
