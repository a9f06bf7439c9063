-- ===== src/Stack/Members.antt =====
-- native/smolnet_core/src/stack.rs: the members that `refresh_listeners` has still to visit, said of the
-- pools and the order of the keys, and that it visits them.
use smolnet.Prelude.{
  ℕ, suc, ◌≤◌, ◌<◌, ◌≡◌, refl, ap, ◌∙◌, sym, Bool, true, false, ◌&&◌, ◌||◌, Option, none, some,
  List, [], ◌∷◌, ◌++◌, ltb, leb, ◌==◌, if◌then◌else◌, map, arith, Bool-cases, inl, inr, All, length,
  take,
}
use smolnet.Prelude.Map.{Map, IsSorted, range_from}
use smolnet.Tcp.{ListenerRecord}
use smolnet.Stack.Listeners.{
  ListenerMemberKey, ListenerScan, member_key, members_of, above, listeners_from, no_listeners,
  refresh_listeners, or_else,
}
use smolnet.Stack.Refresh.{members_behind, refresh_all, last_of, refresh_listeners-members}

-- The handles of a pool ascend, as those of a set do.
abbrev pub Ascends : ℕ → List ℕ → Type 0
Ascends lo [] = Unit {0}
Ascends lo (h ∷ hs) = (lo ≤ h) × Ascends (suc h) hs

-- Listeners by ascending id, each with an ascending pool.
abbrev pub IsOrdered : Map ListenerRecord → Type 0
IsOrdered ls = IsSorted 0 ls × All (λ (id, l). Ascends 0 l.pool) ls

-- Every member of every listener.
abbrev pub all_members : Map ListenerRecord → List ListenerMemberKey
all_members [] = []
all_members ((id, l) ∷ ls) = map (member_key id) l.pool ++ all_members ls

-- A member comes after the cursor by its listener, and then by its handle.
abbrev pub comes_after : Option ListenerMemberKey → ListenerMemberKey → Bool
comes_after none k = true
comes_after (some c) k =
    ltb c.listener_id k.listener_id || (c.listener_id == k.listener_id && ltb c.handle k.handle)

abbrev pub after : Option ListenerMemberKey → List ListenerMemberKey → List ListenerMemberKey
after cursor [] = []
after cursor (k ∷ ks) =
    let rest = after cursor ks in if comes_after cursor k then k ∷ rest else rest

after-append :
    (cursor : Option ListenerMemberKey) (xs ys : List ListenerMemberKey)
    → after cursor (xs ++ ys) ≡ after cursor xs ++ after cursor ys
after-append cursor [] ys = refl
after-append cursor (x ∷ xs) ys = elim (Bool-cases (comes_after cursor x)) [
  | inl e ↦ rw e (ap (λ (ks : List ListenerMemberKey). x ∷ ks) (after-append cursor xs ys))
  | inr e ↦ rw e (after-append cursor xs ys)
]

after-none : (ks : List ListenerMemberKey) → after none ks ≡ ks
after-none [] = refl
after-none (k ∷ ks) = ap (λ (l : List ListenerMemberKey). k ∷ l) (after-none ks)

after-earlier :
    (c : ListenerMemberKey) (id : ℕ) (hs : List ℕ)
    → id < c.listener_id
    → after (some c) (map (member_key id) hs) ≡ []
after-earlier c id [] l = refl
after-earlier c id (h ∷ hs) l =
    let e : comes_after (some c) (member_key id h) ≡ false = ground arith in
    rw e (after-earlier c id hs l)

after-later :
    (c : ListenerMemberKey) (id : ℕ) (hs : List ℕ)
    → c.listener_id < id
    → after (some c) (map (member_key id) hs) ≡ map (member_key id) hs
after-later c id [] l = refl
after-later c id (h ∷ hs) l =
    let e : comes_after (some c) (member_key id h) ≡ true = ground arith in
    rw e (ap (λ (ks : List ListenerMemberKey). member_key id h ∷ ks) (after-later c id hs l))

after-high :
    (c : ListenerMemberKey) (lo : ℕ) (hs : List ℕ)
    → Ascends lo hs
    → c.handle < lo
    → after (some c) (map (member_key c.listener_id) hs) ≡ map (member_key c.listener_id) hs
after-high c lo [] s l = refl
after-high c lo (h ∷ hs) s l =
    let e : comes_after (some c) (member_key c.listener_id h) ≡ true = ground arith in
    rw e (
      ap (λ (ks : List ListenerMemberKey). member_key c.listener_id h ∷ ks)
        (after-high c (suc h) hs s.1 (omega arith)))

after-above :
    (c : ListenerMemberKey) (lo : ℕ) (hs : List ℕ)
    → Ascends lo hs
    → map (member_key c.listener_id) (above c.handle hs)
      ≡ after (some c) (map (member_key c.listener_id) hs)
unfolding above
after-above c lo [] s = refl
after-above c lo (h ∷ hs) s = elim (Bool-cases (leb h c.handle)) [
  | inl le ↦
      let e : comes_after (some c) (member_key c.listener_id h) ≡ false = ground arith in
      rw (le, e) (after-above c (suc h) hs s.1)
  | inr gt ↦
      let e : comes_after (some c) (member_key c.listener_id h) ≡ true = ground arith in
      rw (gt, e)
        (ap (λ (ks : List ListenerMemberKey). member_key c.listener_id h ∷ ks)
          (sym (after-high c (suc h) hs s.1 (ground arith))))
]

members_behind-later :
    (c : ListenerMemberKey) (lo : ℕ) (ls : Map ListenerRecord)
    → IsSorted lo ls
    → c.listener_id < lo
    → members_behind (some c) ls ≡ after (some c) (all_members ls)
unfolding members_behind members_of
members_behind-later c lo [] s l = refl
members_behind-later c lo ((id, r) ∷ ls) s l =
    let other : c.listener_id == id ≡ false = ground arith in
    let a = after-append (some c) (map (member_key id) r.pool) (all_members ls) in
    let p = after-later c id r.pool (omega (arith, s.0)) in
    rw other (
      rw (a, p)
        (ap (λ (ks : List ListenerMemberKey). map (member_key id) r.pool ++ ks)
          (members_behind-later c (suc id) ls s.1 (omega (arith, s.0)))))

members_behind-none : (ls : Map ListenerRecord) → members_behind none ls ≡ all_members ls
unfolding members_behind members_of
members_behind-none [] = refl
members_behind-none ((id, r) ∷ ls) =
    ap (λ (ks : List ListenerMemberKey). map (member_key id) r.pool ++ ks) (members_behind-none ls)

members_behind-after :
    (c : ListenerMemberKey) (lo : ℕ) (ls : Map ListenerRecord)
    → IsSorted lo ls
    → All (λ (id, l). Ascends 0 l.pool) ls
    → members_behind (some c) (range_from c.listener_id ls) ≡ after (some c) (all_members ls)
unfolding members_behind members_of range_from
members_behind-after c lo [] s p = refl
members_behind-after c lo ((id, r) ∷ ls) s p =
    let a = after-append (some c) (map (member_key id) r.pool) (all_members ls) in
    elim (Bool-cases (ltb id c.listener_id)) [
      | inl below ↦
          let q = after-earlier c id r.pool (ground arith) in
          rw below (rw (a, q) (members_behind-after c (suc id) ls s.1 p.1))
      | inr from ↦ elim (Bool-cases (c.listener_id == id)) [
        | inl same ↦
            let e : id ≡ c.listener_id = ground arith in
            let here : map (member_key id) (above c.handle r.pool)
                ≡ after (some c) (map (member_key id) r.pool) =
              rw e (after-above c 0 r.pool p.0) in
            rw from (
              rw same (
                rw a (
                  ap (λ (ks : List ListenerMemberKey). ks ++ members_behind (some c) ls) here
                  ∙ ap
                      (λ (ks : List ListenerMemberKey).
                        after (some c) (map (member_key id) r.pool) ++ ks)
                      (members_behind-later c (suc id) ls s.1 (ground arith)))))
        | inr other ↦
            let q = after-later c id r.pool (ground arith) in
            rw from (
              rw other (
                rw (a, q)
                  (ap (λ (ks : List ListenerMemberKey). map (member_key id) r.pool ++ ks)
                    (members_behind-later c (suc id) ls s.1 (ground arith)))))
      ]
    ]

members_behind-due :
    (cursor : Option ListenerMemberKey) (ls : Map ListenerRecord)
    → IsOrdered ls
    → members_behind cursor (listeners_from cursor ls) ≡ after cursor (all_members ls)
members_behind-due none ls o = members_behind-none ls ∙ sym (after-none (all_members ls))
members_behind-due (some c) ls o = members_behind-after c 0 ls o.0 o.1

module _ {ℓ κ} {B : Type ℓ} {S : Type κ} (within_budget : B → Bool × B)
    (refresh_member : ListenerMemberKey → S → S) where
  -- A pending sweep with a positive limit, over listeners in the order of their ids with pools in the
  -- order of their handles, refreshes the first of the members that come after its cursor, each once
  -- and in order, at most `limit` of them. Where it reports that no more is to do it has refreshed all
  -- of them; where some are left it stays pending, with its cursor on the last one refreshed.
  pub refresh_listeners-prefix :
      (limit : ℕ) (listeners : Map ListenerRecord) (scan : ListenerScan) (b : B) (s : S)
      → IsOrdered listeners
      → no_listeners listeners ≡ false
      → 0 < limit
      → scan.pending ≡ true
      → let ((work, more), next, b', s') =
          refresh_listeners within_budget refresh_member limit listeners scan b s in
        let due = after scan.cursor (all_members listeners) in
        (s' ≡ refresh_all within_budget refresh_member (take work due) s)
        × (work ≤ limit)
        × (work ≤ length due)
        × (more ≡ false → work ≡ length due)
        × (work < length due
            → (next.pending ≡ true)
              × (next.cursor ≡ or_else (last_of (take work due) none) scan.cursor))
  refresh_listeners-prefix limit listeners scan b s ordered some_listener positive pending =
      let e = members_behind-due scan.cursor listeners ordered in
      let h =
        refresh_listeners-members within_budget refresh_member limit listeners scan b s
          some_listener positive pending in
      rw e at h
