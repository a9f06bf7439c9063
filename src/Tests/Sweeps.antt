-- ===== src/Tests/Sweeps.antt =====
-- native/smolnet_core/src/stack.rs: a listener sweep over five members, with a budget for one.
use smolnet.Prelude.{
  ℕ, zero, suc, ◌≤◌, ◌<◌, ◌≡◌, refl, Bool, true, false, none, some, List, [], ◌∷◌, arith, length,
  take,
}
use smolnet.Prelude.Map.{Map}
use smolnet.Tcp.{ListenerRecord, ipv4}
use smolnet.Stack.Listeners.{ListenerScan, ListenerMemberKey, or_else, refresh_listeners}
use smolnet.Stack.Refresh.{refresh_all, last_of}
use smolnet.Stack.Members.{after, all_members, refresh_listeners-prefix}

abbrev answers : ℕ → Bool × ℕ
answers zero = (false, zero)
answers (suc n) = (true, n)

abbrev record_member : ListenerMemberKey → List ℕ → List ℕ
record_member key handles = key.handle ∷ handles

abbrev listening : ListenerRecord
listening = record {
  identity = record { id = 4; generation = 4 };
  endpoint = record { address = ipv4 []; port = 80; scope_id = 0 };
  listen = record { listen_addr = none; listen_port = 80 };
  local = record { addr = ipv4 []; port = 80 };
  backlog = 2;
  pool_target = 2;
  pool = 5 ∷ 6 ∷ 9 ∷ [];
  accepted = [];
  rcvbuf = 4_096;
  sndbuf = 4_096;
  nodelay = false;
  keepalive = false;
}

abbrev listeners : Map ListenerRecord
listeners =
    (3, record listening { pool = 8 ∷ [] })
    ∷ (4, listening)
    ∷ (6, record listening { pool = 2 ∷ 7 ∷ [] })
    ∷ []

-- The member 5 has been refreshed.
abbrev scan : ListenerScan
scan = record {
  cursor = some (record { listener_id = 4; handle = 5 });
  pending = true;
  resweep = false;
}

refresh_listeners-prefix_example :
    let ((work, more), next, b, handles) =
      refresh_listeners answers record_member 3 listeners scan 1 [] in
    let due = after scan.cursor (all_members listeners) in
    (handles ≡ refresh_all answers record_member (take work due) [])
    × (work ≤ 3)
    × (work ≤ length due)
    × (more ≡ false → work ≡ length due)
    × (work < length due
        → (next.pending ≡ true)
          × (next.cursor ≡ or_else (last_of (take work due) none) scan.cursor))
refresh_listeners-prefix_example =
    refresh_listeners-prefix answers record_member 3 listeners scan 1 []
      (
        (omega arith, (omega arith, (omega arith, tt))),
        (
          (omega arith, tt),
          ((omega arith, (omega arith, (omega arith, tt))), ((omega arith, (omega arith, tt)), tt)),
        ),
      )
      refl (omega arith) refl
