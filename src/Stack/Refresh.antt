-- ===== src/Stack/Refresh.antt =====
-- native/smolnet_core/src/stack.rs: a listener sweep takes the members behind its cursor in order.
use smolnet.Prelude.{
  ℕ, zero, suc, ◌+◌, ◌-◌, ◌≤◌, ◌<◌, ◌≡◌, refl, ap, sym, ◌∙◌, Bool, true, false, ◌||◌, Option, none,
  some, List, [], ◌∷◌, ◌++◌, ltb, ◌==◌, arith, Bool-cases, inl, inr, length, take, length-take,
  length-map, map, min,
}
use smolnet.Prelude.Map.{Map}
use smolnet.Tcp.{ListenerRecord}
use smolnet.Stack.Listeners.{
  ListenerMemberKey, ListenerScan, members_of, member_key, push_members, collect_keys,
  listeners_from, refresh_keys, finish_scan, refresh_listeners, no_listeners, or_else,
}

-- All members behind a cursor, listener by listener.
unfoldable pub members_behind :
    Option ListenerMemberKey → Map ListenerRecord → List ListenerMemberKey
members_behind cursor [] = []
members_behind cursor ((id, l) ∷ ls) =
    map (member_key id) (members_of cursor id l.pool) ++ members_behind cursor ls

take-append_length :
    {A : Type 0} (n m : ℕ) (xs ys : List A)
    → n ≡ length xs + m
    → take n (xs ++ ys) ≡ xs ++ take m ys
take-append_length n m [] ys h = let same : n ≡ m = omega arith in rw same refl
take-append_length zero m (x ∷ xs) ys h = absurd (omega arith)
take-append_length (suc n) m (x ∷ xs) ys h =
    ap (λ zs. x ∷ zs) (take-append_length n m xs ys (omega arith))

-- Where the inner loop leaves both, it has what is still to be collected; else it has all its keys.
push_members-take :
    (limit id : ℕ) (hs : List ℕ) (count room : ℕ) (more : List ListenerMemberKey)
    → count + room ≡ limit
    → ((push_members limit id hs count).1 ≡ true
        → (push_members limit id hs count).0 ≡ take (suc room) (map (member_key id) hs ++ more))
      × ((push_members limit id hs count).1 ≡ false
          → ((push_members limit id hs count).0 ≡ map (member_key id) hs) × (length hs ≤ room))
unfolding push_members
push_members-take limit id [] count room more c = (λ h. absurd (cc), λ h. (refl, omega arith))
push_members-take limit id (h ∷ hs) count zero more c =
    let over : ltb limit (suc count) ≡ true = ground arith in rw over (λ e. refl, λ e. absurd (cc))
push_members-take limit id (h ∷ hs) count (suc room) more c =
    let fits : ltb limit (suc count) ≡ false = ground arith in
    let ih = push_members-take limit id hs (suc count) room more (omega arith) in
    rw fits (
      λ e. ap (λ ks. member_key id h ∷ ks) (ih.0 e),
      λ e. let (same, short) = ih.1 e in (ap (λ ks. member_key id h ∷ ks) same, omega arith),
    )

collect_keys-take :
    (limit : ℕ) (cursor : Option ListenerMemberKey) (ls : Map ListenerRecord) (count room : ℕ)
    → count + room ≡ limit
    → collect_keys limit cursor ls count ≡ take (suc room) (members_behind cursor ls)
unfolding collect_keys members_behind
collect_keys-take limit cursor [] count room c = refl
collect_keys-take limit cursor ((id, l) ∷ ls) count room c =
    let pool = members_of cursor id l.pool in
    let p = push_members-take limit id pool count room (members_behind cursor ls) c in
    elim (Bool-cases (push_members limit id pool count).1) [
      | inl left ↦ rw left (p.0 left)
      | inr all ↦
          let (same, short) = p.1 all in
          let n = length-map pool (member_key id) in
          let ih =
            collect_keys-take limit cursor ls (count + length pool) (room - length pool)
              (omega arith) in
          rw (all, same, n, ih)
            (sym (
              take-append_length (suc room) (suc (room - length pool)) (map (member_key id) pool)
                (members_behind cursor ls) (omega (arith, n))))
    ]

take-take_le : {A : Type 0} (w n : ℕ) (xs : List A) → w ≤ n → take w (take n xs) ≡ take w xs
take-take_le zero n xs h = refl
take-take_le (suc w) zero xs h = absurd (omega arith)
take-take_le (suc w) (suc n) [] h = refl
take-take_le (suc w) (suc n) (x ∷ xs) h = ap (λ ys. x ∷ ys) (take-take_le w n xs (omega arith))

unfoldable pub last_of :
    List ListenerMemberKey → Option ListenerMemberKey → Option ListenerMemberKey
last_of [] last = last
last_of (k ∷ ks) last = last_of ks (some k)

module _ {ℓ κ} {B : Type ℓ} {S : Type κ} (within_budget : B → Bool × B)
    (refresh_member : ListenerMemberKey → S → S) where
  -- The members of a list, each refreshed once, in order.
  unfoldable pub refresh_all : List ListenerMemberKey → S → S
  refresh_all [] s = s
  refresh_all (k ∷ ks) s = refresh_all ks (refresh_member k s)

  refresh_keys-take :
      (ks : List ListenerMemberKey) (last : Option ListenerMemberKey) (b : B) (s : S)
      → let r = refresh_keys within_budget refresh_member ks last b s in
        (r.state ≡ refresh_all (take r.work ks) s)
        × (r.work ≤ length ks)
        × (r.stopped ≡ false → r.work ≡ length ks)
        × (r.last_processed ≡ last_of (take r.work ks) last)
  unfolding refresh_keys refresh_all last_of
  refresh_keys-take [] last b s = (refl, omega arith, λ h. refl, refl)
  refresh_keys-take (k ∷ ks) last b s = elim (Bool-cases (within_budget b).0) [
    | inl go ↦
        let ih = refresh_keys-take ks (some k) (within_budget b).1 (refresh_member k s) in
        rw go (ih.0, omega (arith, ih.1), λ h. ap suc (ih.2 h), ih.3)
    | inr spent ↦ rw spent (refl, omega arith, λ h. absurd (cc), refl)
  ]

  -- A pending sweep over listeners, with a positive limit, refreshes the first members behind its cursor
  -- in their order, at most `limit` of them. Where it reports that no more is to do it has refreshed all
  -- of them; where some are left it stays pending, with its cursor on the last one refreshed.
  pub refresh_listeners-members :
      (limit : ℕ) (listeners : Map ListenerRecord) (scan : ListenerScan) (b : B) (s : S)
      → no_listeners listeners ≡ false
      → 0 < limit
      → scan.pending ≡ true
      → let ((work, more), next, b', s') =
          refresh_listeners within_budget refresh_member limit listeners scan b s in
        let due = members_behind scan.cursor (listeners_from scan.cursor listeners) in
        (s' ≡ refresh_all (take work due) s)
        × (work ≤ limit)
        × (work ≤ length due)
        × (more ≡ false → work ≡ length due)
        × (work < length due
            → (next.pending ≡ true)
              × (next.cursor ≡ or_else (last_of (take work due) none) scan.cursor))
  unfolding refresh_listeners finish_scan
  refresh_listeners-members limit listeners scan b s some_listener positive pending =
      let due = members_behind scan.cursor (listeners_from scan.cursor listeners) in
      let keys = collect_keys limit scan.cursor (listeners_from scan.cursor listeners) 0 in
      let collected =
        collect_keys-take limit scan.cursor (listeners_from scan.cursor listeners) 0 limit
          (omega arith) in
      let batch = take limit keys in
      let r = refresh_keys within_budget refresh_member batch none b s in
      let done = refresh_keys-take batch none b s in
      let size : length keys ≡ min (suc limit) (length due) =
        ap length collected ∙ length-take (suc limit) due in
      let room = length-take limit keys in
      let same : take r.work batch ≡ take r.work due =
        take-take_le r.work limit keys (omega (arith, done.1, room))
        ∙ (ap (λ ks. take r.work ks) collected
            ∙ take-take_le r.work (suc limit) due (omega (arith, done.1, room))) in
      let full : ltb limit (length keys) || r.stopped ≡ false → r.work ≡ length due = λ h.
        let over : length keys ≤ limit = ground arith in
        let ended : r.stopped ≡ false = ground arith in omega (arith, done.2 ended, room, size) in
      let effect : r.state ≡ refresh_all (take r.work due) s =
        done.0 ∙ ap (λ ks. refresh_all ks s) same in
      let last : r.last_processed ≡ last_of (take r.work due) none =
        done.3 ∙ ap (λ ks. last_of ks none) same in
      let bound : r.work ≤ limit = omega (arith, done.1, room) in
      let within : r.work ≤ length due = omega (arith, done.1, room, size) in
      let nonzero : limit == 0 ≡ false = ground arith in
      elim (Bool-cases (ltb limit (length keys) || r.stopped)) [
        | inl more ↦
            rw (some_listener, nonzero, pending, more)
              (
                effect,
                bound,
                within,
                λ h. absurd (cc),
                λ h. (refl, ap (λ c. or_else c scan.cursor) last),
              )
        | inr ended ↦
            rw (some_listener, nonzero, pending, ended)
              (effect, bound, within, λ h. full ended, λ h. absurd (omega (arith, full ended)))
      ]
