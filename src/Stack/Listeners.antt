-- ===== src/Stack/Listeners.antt =====
-- native/smolnet_core/src/stack.rs: `request_listener_scan`, and `refresh_listeners`, a sweep over the
-- members of all listeners that resumes behind a cursor. What it does to one member is its argument.
use smolnet.Prelude.{
  ℕ, suc, ◌+◌, Bool, true, false, not, ◌||◌, Option, none, some, List, [], ◌∷◌, ◌++◌, ltb, leb,
  ◌==◌, if◌then◌else◌, length, take,
}
use smolnet.Prelude.Map.{Map, range_from}
use smolnet.Tcp.{ListenerRecord}

pub record ListenerMemberKey : Type 0 where
  pub listener_id : ℕ
  pub handle : ℕ

pub record ListenerScan : Type 0 where
  pub cursor : Option ListenerMemberKey
  pub pending : Bool
  pub resweep : Bool

abbrev pub no_listeners : Map ListenerRecord → Bool
no_listeners [] = true
no_listeners (l ∷ ls) = false

unfoldable pub request_listener_scan : Map ListenerRecord → ListenerScan → ListenerScan
request_listener_scan listeners scan =
    if no_listeners listeners
    then scan
    else if scan.pending
    then record scan { resweep = true }
    else record scan { pending = true; cursor = none }

-- `pool.range((Excluded(handle), Unbounded))`.
unfoldable pub above : ℕ → List ℕ → List ℕ
above h [] = []
above h (x ∷ xs) = if leb x h then above h xs else x ∷ xs

-- The members of a listener from `member_start` on.
unfoldable pub members_of : Option ListenerMemberKey → ℕ → List ℕ → List ℕ
members_of none id pool = pool
members_of (some key) id pool = if key.listener_id == id then above key.handle pool else pool

abbrev pub member_key : ℕ → ℕ → ListenerMemberKey
member_key id handle = record { listener_id = id; handle = handle }

-- The inner loop, with `count` keys collected before: its keys, and whether it left both loops.
unfoldable pub push_members : ℕ → ℕ → List ℕ → ℕ → List ListenerMemberKey × Bool
push_members limit id [] count = ([], false)
push_members limit id (h ∷ hs) count =
    let (keys, left) = push_members limit id hs (suc count) in
    if ltb limit (suc count) then (member_key id h ∷ [], true) else (member_key id h ∷ keys, left)

unfoldable pub collect_keys :
    ℕ → Option ListenerMemberKey → Map ListenerRecord → ℕ → List ListenerMemberKey
unfolding push_members
collect_keys limit cursor [] count = []
collect_keys limit cursor ((id, l) ∷ ls) count =
    let (keys, left) = push_members limit id (members_of cursor id l.pool) count in
    let rest = collect_keys limit cursor ls (count + length keys) in
    if left then keys else keys ++ rest

abbrev pub listeners_from : Option ListenerMemberKey → Map ListenerRecord → Map ListenerRecord
listeners_from none ls = ls
listeners_from (some key) ls = range_from key.listener_id ls

-- What the loop over the keys has done when it ends.
pub record Refreshed {ℓ κ} (B : Type ℓ) (S : Type κ) : Type (ℓ ⊔ κ) where
  pub work : ℕ
  pub last_processed : Option ListenerMemberKey
  pub stopped : Bool
  pub budget : B
  pub state : S

abbrev pub or_else {ℓ} : {A : Type ℓ} → Option A → Option A → Option A
or_else none b = b
or_else (some a) b = some a

module _ {ℓ κ} {B : Type ℓ} {S : Type κ} (within_budget : B → Bool × B)
    (refresh_member : ListenerMemberKey → S → S) where
  unfoldable pub refresh_keys :
      List ListenerMemberKey → Option ListenerMemberKey → B → S → Refreshed B S
  refresh_keys [] last b s = record {
    work = 0;
    last_processed = last;
    stopped = false;
    budget = b;
    state = s;
  }
  refresh_keys (k ∷ ks) last b s =
      let (go, b') = within_budget b in
      let rest = refresh_keys ks (some k) b' (refresh_member k s) in
      if go
      then record rest { work = suc rest.work }
      else record { work = 0; last_processed = last; stopped = true; budget = b'; state = s }

  -- How a sweep goes on: `more`, and the cursor.
  unfoldable pub finish_scan : Bool → Option ListenerMemberKey → ListenerScan → Bool × ListenerScan
  finish_scan more last scan =
      if more
      then (true, record scan { cursor = or_else last scan.cursor })
      else if scan.resweep
      then (true, record scan { cursor = none; resweep = false })
      else (false, record scan { cursor = none; pending = false })

  unfoldable pub refresh_listeners :
      ℕ → Map ListenerRecord → ListenerScan → B → S → (ℕ × Bool) × ListenerScan × B × S
  unfolding refresh_keys finish_scan collect_keys
  refresh_listeners limit listeners scan b s =
      let keys = collect_keys limit scan.cursor (listeners_from scan.cursor listeners) 0 in
      let r = refresh_keys (take limit keys) none b s in
      let (more, next) = finish_scan (ltb limit (length keys) || r.stopped) r.last_processed scan in
      if no_listeners listeners
      then ((0, false), record { cursor = none; pending = false; resweep = false }, b, s)
      else if limit == 0 || not scan.pending
      then ((0, scan.pending), scan, b, s)
      else ((r.work, more), next, r.budget, r.state)
