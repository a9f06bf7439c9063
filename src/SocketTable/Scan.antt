-- ===== src/SocketTable/Scan.antt =====
-- native/smolnet_core/src/socket_table.rs: `scan_ready`, the sweep over the ready flags that replaces
-- the wake-ups a full queue lost. It resumes behind a cursor and stops at a limit or for want of budget.
use smolnet.Prelude.{
  ℕ, suc, Bool, true, false, not, ◌&&◌, ◌||◌, Option, none, some, List, [], ◌∷◌, ◌==◌,
  if◌then◌else◌,
}
use smolnet.Prelude.Map.{Map, range_from}
use smolnet.Waiter.{Direction, direction_code, ReadyKey, Flags}
use smolnet.SocketTable.{SocketEntry, SocketTable}

pub record ReadyScan : Type 0 where
  pub keys : List ReadyKey
  pub cursor : Option ReadyKey
  pub complete : Bool
  pub entries_scanned : ℕ

-- `cursor.is_some_and(|key| key.identity.id == id && key.direction == dir)`.
abbrev pub cursor_at : Option ReadyKey → ℕ → Direction → Bool
cursor_at none id dir = false
cursor_at (some key) id dir =
    key.identity.id == id && direction_code key.direction == direction_code dir

abbrev pub key_of : ℕ → ℕ → Direction → ReadyKey
key_of id generation dir = record {
  identity = record { id = id; generation = generation };
  direction = dir;
}

abbrev pub is_empty {ℓ} : {A : Type ℓ} → List A → Bool
is_empty [] = true
is_empty (x ∷ xs) = false

-- A scan that stops here, with no key of its own.
abbrev pub stop : Option ReadyKey → Bool → ℕ → ReadyScan
stop next complete scanned = record {
  keys = [];
  cursor = next;
  complete = complete;
  entries_scanned = scanned;
}

-- A key pushed in front of what the rest of the scan finds.
abbrev pub push {ℓ} : {B : Type ℓ} → ReadyKey → ReadyScan × B → ReadyScan × B
push key (r, b) = (record r { keys = key ∷ r.keys }, b)

module _ {ℓ} {B : Type ℓ} (within_budget : B → Bool × B) (flags : Flags) (cursor : Option ReadyKey)
    (entry_limit key_limit : ℕ) (entries : Map (ℕ × SocketEntry)) where
  -- The second half of a round: the write side, and the limits. `found` is `keys.len()` and `scanned`
  -- counts the entry at hand; `rest` is the loop from the next entry on.
  unfoldable pub scan_write : ℕ → ℕ → SocketEntry → ℕ → ℕ → B → (ℕ → ReadyScan × B) → ReadyScan × B
  scan_write id generation entry found scanned b rest =
      let key = key_of id generation Direction.write in
      let ended : ReadyScan × B =
        (stop (some key) (is_empty (range_from (suc id) entries)) scanned, b) in
      if flags.cell entry.write_ready
      then push key
          (if suc found == key_limit || scanned == entry_limit then ended else rest (suc found))
      else if found == key_limit || scanned == entry_limit
      then ended
      else rest found

  -- The first half: the read side, unless the cursor stands on it. `rest` is the loop from the next
  -- entry on, at a number of keys and a budget.
  unfoldable pub scan_entry :
      ℕ → ℕ → SocketEntry → ℕ → ℕ → B → (ℕ → B → ReadyScan × B) → ReadyScan × B
  scan_entry id generation entry found scanned b rest =
      let key = key_of id generation Direction.read in
      let (go, b') = within_budget b in
      if not (cursor_at cursor id Direction.read) && flags.cell entry.read_ready
      then push key (
          if suc found == key_limit
          then (stop (some key) false scanned, b)
          else if not go
          then (stop (some key) false scanned, b')
          else scan_write id generation entry (suc found) scanned b' (λ n. rest n b'))
      else scan_write id generation entry found scanned b (λ n. rest n b)

  -- The loop; `next` is `next_cursor` before the round.
  unfoldable pub scan_loop : Map (ℕ × SocketEntry) → Option ReadyKey → ℕ → ℕ → B → ReadyScan × B
  scan_loop [] next found scanned b = (stop next true scanned, b)
  scan_loop ((id, (generation, entry)) ∷ it) next found scanned b =
      let (go, b') = within_budget b in
      if cursor_at cursor id Direction.write
      then scan_loop it next found scanned b
      else if not go
      then (stop next false scanned, b')
      else scan_entry id generation entry found (suc scanned) b'
          (λ n b''. scan_loop it (some (key_of id generation Direction.write)) n (suc scanned) b'')

-- `start_bound`.
abbrev pub scan_start : Option ReadyKey → Map (ℕ × SocketEntry) → Map (ℕ × SocketEntry)
scan_start none entries = entries
scan_start (some key) entries = range_from key.identity.id entries

unfoldable pub scan_ready {ℓ} :
    {B : Type ℓ}
    → (B → Bool × B)
    → SocketTable
    → Flags
    → Option ReadyKey
    → ℕ
    → ℕ
    → B
    → ReadyScan × B
scan_ready within_budget t flags cursor entry_limit key_limit b =
    if entry_limit == 0 || key_limit == 0
    then (stop cursor false 0, b)
    else scan_loop within_budget flags cursor entry_limit key_limit t.entries
        (scan_start cursor t.entries) cursor 0 0 b
