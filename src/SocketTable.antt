-- ===== src/SocketTable.antt =====
-- native/smolnet_core/src/socket_table.rs: the table of logical sockets, and what reads it.
-- `State` holds a table together with the process-wide statics that its operations use: the two
-- identity counters and the memory of the ready flags.
pub mod Ops
pub mod Invariant
pub mod Preserve
pub mod Insert
pub mod Run
pub mod Scan
pub mod Sweep
pub mod ScanBounds
pub mod Stale
use smolnet.Prelude.{
  ℕ, suc, ◌+◌, ◌-◌, ◌^◌, ◌≤◌, ◌<◌, Bool, true, false, not, Option, none, some, List, [], ◌∷◌, ltb,
  leb, ◌==◌, if◌then◌else◌, length,
}
use smolnet.Prelude.Map.{Map, get, total}
use smolnet.Prelude.Result.{Result, ok, err, ◌>>=◌, ◌>>◌, reject, ok_or}
use smolnet.Waiter.{Direction, Waiter, SocketIdentity, Flags}

-- The largest identity that is a BEAM small integer.
abbrev pub max_socket_id : ℕ
max_socket_id = 2 ^ 59 - 1

pub data SocketKind : Type 0 where
  tcp udp synthetic : SocketKind

pub data SocketLifecycle : Type 0 where
  open_ closing : SocketLifecycle

abbrev pub kind_code : SocketKind → ℕ
kind_code tcp = 0
kind_code udp = 1
kind_code synthetic = 2

abbrev pub is_open : SocketLifecycle → Bool
is_open open_ = true
is_open closing = false

pub data SocketError : Type 0 where
  closed end_of_stream invalid_socket wrong_kind invalid_state invalid_operation : SocketError
  invalid_options busy system_limit invalid_address invalid_port invalid_backlog : SocketError
  scope_required invalid_scope address_in_use address_not_available : SocketError
  ephemeral_ports_exhausted network_unreachable already_connected not_bound : SocketError
  not_connected connection_refused connection_reset connection_timeout : SocketError
  message_too_large : SocketError

pub record SocketEntry : Type 0 where
  pub kind : SocketKind
  pub lifecycle : SocketLifecycle
  pub internal_handle : ℕ
  pub read_waiter : Option Waiter
  pub write_waiter : Option Waiter
  pub read_ready : ℕ
  pub write_ready : ℕ
  pub read_sent : Option Waiter
  pub write_sent : Option Waiter

-- `SocketEntry::waiter` and a write through `waiter_mut`; likewise `sent` and `sent_mut`.
abbrev pub waiter : Direction → SocketEntry → Option Waiter
waiter Direction.read e = e.read_waiter
waiter Direction.write e = e.write_waiter

abbrev pub set_waiter : Direction → Option Waiter → SocketEntry → SocketEntry
set_waiter Direction.read w e = record e { read_waiter = w }
set_waiter Direction.write w e = record e { write_waiter = w }

abbrev pub sent : Direction → SocketEntry → Option Waiter
sent Direction.read e = e.read_sent
sent Direction.write e = e.write_sent

abbrev pub set_sent : Direction → Option Waiter → SocketEntry → SocketEntry
set_sent Direction.read w e = record e { read_sent = w }
set_sent Direction.write w e = record e { write_sent = w }

abbrev pub ready_flag : Direction → SocketEntry → ℕ
ready_flag Direction.read e = e.read_ready
ready_flag Direction.write e = e.write_ready

abbrev pub is_some {ℓ} : {A : Type ℓ} → Option A → Bool
is_some none = false
is_some (some a) = true

-- `usize::from(option.is_some())`.
abbrev pub count_some {ℓ} : {A : Type ℓ} → Option A → ℕ
count_some none = 0
count_some (some a) = 1

pub record SocketTable : Type 0 where
  pub entries : Map (ℕ × SocketEntry)
  pub max_entries : ℕ
  pub waiter_count : ℕ
  pub max_waiters : ℕ

pub record State : Type 0 where
  pub table : SocketTable
  pub open table use *
  pub next_socket_id : ℕ
  pub next_generation : ℕ
  pub flags : Flags

unfoldable pub new : ℕ → ℕ → SocketTable
new max_entries max_waiters = record {
  entries = [];
  max_entries = max_entries;
  waiter_count = 0;
  max_waiters = max_waiters;
}

-- `fetch_update` gives the old value if the closure gives a new one: the result, and the counter.
unfoldable pub next_identity : ℕ → Result SocketError ℕ × ℕ
next_identity current =
    if leb current max_socket_id then (ok current, current + 1) else (err system_limit, current)

unfoldable pub validate : SocketTable → SocketIdentity → SocketKind → Result SocketError SocketEntry
validate t identity expected_kind = do
  (generation, entry) ← ok_or (get identity.id t.entries) invalid_socket
  reject (not (generation == identity.generation)) invalid_socket
  reject (not (kind_code entry.kind == kind_code expected_kind)) wrong_kind
  reject (not (is_open entry.lifecycle)) invalid_state
  ok entry

unfoldable pub validate_any : SocketTable → SocketIdentity → Result SocketError SocketEntry
validate_any t identity = do
  (generation, entry) ← ok_or (get identity.id t.entries) invalid_socket
  reject (not (generation == identity.generation)) invalid_socket
  reject (not (is_open entry.lifecycle)) invalid_state
  ok entry

-- `SocketTable::ready_flag`: the shared flag of a validated entry.
unfoldable pub table_ready_flag :
    SocketTable → SocketIdentity → SocketKind → Direction → Result SocketError ℕ
unfolding validate
table_ready_flag t identity kind dir = do
  entry ← validate t identity kind
  ok (ready_flag dir entry)

unfoldable pub has_waiter :
    SocketTable → SocketIdentity → SocketKind → Direction → Result SocketError Bool
unfolding validate
has_waiter t identity kind dir = do
  entry ← validate t identity kind
  ok (is_some (waiter dir entry))

unfoldable pub ensure_waiter_capacity : SocketTable → Result SocketError (Unit {0})
ensure_waiter_capacity t = if leb t.max_waiters t.waiter_count then err system_limit else ok tt

unfoldable pub len : SocketTable → ℕ
len t = length t.entries

-- The folds of `waiter_counts` and `sent_waiter_counts`.
unfoldable pub waiter_counts : SocketTable → ℕ × ℕ
waiter_counts t = (
  total (λ v. count_some (v.1).read_waiter) t.entries,
  total (λ v. count_some (v.1).write_waiter) t.entries,
)

unfoldable pub sent_waiter_counts : SocketTable → ℕ × ℕ
sent_waiter_counts t = (
  total (λ v. count_some (v.1).read_sent) t.entries,
  total (λ v. count_some (v.1).write_sent) t.entries,
)
