-- ===== src/SocketTable/Sweep.antt =====
-- native/smolnet_core/src/socket_table.rs: a sweep in bounded scans misses no ready flag and reports
-- none twice.
use smolnet.Prelude.{
  ℕ, suc, ◌≤◌, ◌<◌, ◌≡◌, refl, sym, ap, ◌∙◌, ◌⊎◌, inl, inr, Bool, true, false, not, ◌&&◌, ◌||◌,
  Option, none, some, List, [], ◌∷◌, ◌++◌, arith, ltb, leb, ◌==◌, Bool-cases,
}
use mathlib.Core.Bool.{false≢true}
use smolnet.Prelude.Map.{
  Map, IsSorted, range_from, range_from_all, range_from_first, range_from_next, range_from-IsSorted,
}
use smolnet.Waiter.{Direction, direction_code, ReadyKey, Flags}
use smolnet.SocketTable.{SocketEntry, SocketTable}
use smolnet.SocketTable.Scan.{
  ReadyScan, cursor_at, key_of, is_empty, stop, scan_write, scan_entry, scan_loop, scan_start,
  scan_ready,
}

-- A sweep that stands at the cursor has been at this direction of this id.
abbrev pub passed : Option ReadyKey → ℕ → Direction → Bool
passed none id dir = false
passed (some key) id dir =
    ltb id key.identity.id
    || (id == key.identity.id && leb (direction_code dir) (direction_code key.direction))

abbrev pub emit : Bool → ReadyKey → List ReadyKey → List ReadyKey
emit true k ks = k ∷ ks
emit false k ks = ks

-- The specification: the keys behind the cursor whose flag is set, in their order.
unfoldable pub ready_after : Flags → Option ReadyKey → Map (ℕ × SocketEntry) → List ReadyKey
ready_after flags c [] = []
ready_after flags c ((id, (generation, e)) ∷ m) =
    emit (not (passed c id Direction.read) && flags.cell e.read_ready)
      (key_of id generation Direction.read)
      (emit (not (passed c id Direction.write) && flags.cell e.write_ready)
        (key_of id generation Direction.write) (ready_after flags c m))

abbrev pub IsPast : ℕ → Option ReadyKey → Type 0
IsPast lo none = Unit {0}
IsPast lo (some key) = key.identity.id < lo

ready_after_past :
    (flags : Flags) (c : Option ReadyKey) (lo : ℕ) (m : Map (ℕ × SocketEntry))
    → IsPast lo c
    → IsSorted lo m
    → ready_after flags c m ≡ ready_after flags none m
unfolding ready_after
ready_after_past flags none lo m p s = refl
ready_after_past flags (some k) lo [] p s = refl
ready_after_past flags (some k) lo ((id, (g, e)) ∷ m) p s =
    ground (arith, ready_after_past flags (some k) (suc id) m)

-- Where the cursor is past an entry, it does not count.
ready_after_skip :
    (flags : Flags) (c : Option ReadyKey) (id g : ℕ) (e : SocketEntry) (m : Map (ℕ × SocketEntry))
    → passed c id Direction.write ≡ true
    → ready_after flags c ((id, (g, e)) ∷ m) ≡ ready_after flags c m
unfolding ready_after
ready_after_skip flags none id g e m p = cc
ready_after_skip flags (some k) id g e m p = ground arith

ready_after-range :
    (flags : Flags) (c : Option ReadyKey) (start lo : ℕ) (m : Map (ℕ × SocketEntry))
    → IsSorted lo m
    → ((j : ℕ) → j < start → passed c j Direction.write ≡ true)
    → ready_after flags c m ≡ ready_after flags c (range_from start m)
unfolding range_from
ready_after-range flags c start lo [] s h = refl
ready_after-range flags c start lo ((id, (g, e)) ∷ m) s h = elim (Bool-cases (ltb id start)) [
  | inl below ↦ rw below (
      ready_after_skip flags c id g e m (h id (ground arith))
      ∙ ready_after-range flags c start (suc id) m s.1 h)
  | inr first ↦ rw first
]

nil_of_empty :
    (flags : Flags) (c : Option ReadyKey) (m : Map (ℕ × SocketEntry))
    → is_empty m ≡ true
    → ready_after flags c m ≡ []
unfolding ready_after
nil_of_empty flags c [] h = refl
nil_of_empty flags c (x ∷ m) h = cc

-- What a scan that owes `due` has done: its keys and what is behind its cursor are what is due, and a
-- complete scan leaves nothing. Its cursor has passed each write direction that `next` has.
pub record Covers (flags : Flags) (m : Map (ℕ × SocketEntry)) (due : List ReadyKey)
    (next : Option ReadyKey) (r : ReadyScan) : Type 0 where
  pub split : r.keys ++ ready_after flags r.cursor m ≡ due
  pub done : r.complete ≡ true → ready_after flags r.cursor m ≡ []
  pub ahead :
      (j : ℕ) → passed next j Direction.write ≡ true → passed r.cursor j Direction.write ≡ true

push-Covers :
    (flags : Flags) (m : Map (ℕ × SocketEntry)) (due : List ReadyKey) (next : Option ReadyKey)
    (k : ReadyKey) (r : ReadyScan)
    → Covers flags m due next r
    → Covers flags m (k ∷ due) next (record r { keys = k ∷ r.keys })
push-Covers flags m due next k r c = record {
  split = ap (◌∷◌ k) c.split;
  done = c.done;
  ahead = c.ahead;
}

-- A scan behind an entry that its cursor has passed.
widen-Covers :
    (flags : Flags) (id g : ℕ) (e : SocketEntry) (m : Map (ℕ × SocketEntry)) (due : List ReadyKey)
    (next : Option ReadyKey) (r : ReadyScan)
    → passed next id Direction.write ≡ true
    → Covers flags m due next r
    → Covers flags ((id, (g, e)) ∷ m) due next r
widen-Covers flags id g e m due next r q c =
    let p : passed r.cursor id Direction.write ≡ true = c.ahead id q in
    record {
      split = rw (ready_after_skip flags r.cursor id g e m p) c.split;
      done = rw (ready_after_skip flags r.cursor id g e m p) c.done;
      ahead = c.ahead;
    }

-- How the loop stands: it has not moved from the cursor, or both are behind it.
abbrev IsStart : Option ReadyKey → ℕ → Option ReadyKey → Type 0
IsStart c lo next = ((next ≡ c) × IsPast (suc lo) c) ⊎ (IsPast lo next × IsPast lo c)

IsStart-IsPast :
    (c next : Option ReadyKey) (lo id : ℕ) → lo ≤ id → IsStart c lo next → IsPast (suc id) c
IsStart-IsPast none next lo id le h = tt
IsStart-IsPast (some k) next lo id le h = ground arith

IsStart-behind :
    (c next : Option ReadyKey) (lo id : ℕ)
    → lo ≤ id
    → IsStart c lo next
    → cursor_at c id Direction.write ≡ false
    → (j : ℕ) → passed next j Direction.write ≡ true
    → j < id
IsStart-behind none none lo id le h w j p = cc
IsStart-behind none (some k) lo id le h w j p = ground arith
IsStart-behind (some c) none lo id le h w j p = cc
IsStart-behind (some c) (some k) lo id le h w j p = ground arith

IsStart-here :
    (c next : Option ReadyKey) (lo id : ℕ)
    → lo ≤ id
    → IsStart c lo next
    → cursor_at c id Direction.write ≡ true
    → (passed c id Direction.write ≡ true)
      × (passed next id Direction.write ≡ true)
      × IsPast (suc id) c
      × IsPast (suc id) next
IsStart-here none next lo id le h w = cc
IsStart-here (some c) none lo id le h w = ground arith
IsStart-here (some c) (some k) lo id le h w = ground arith

IsStart-same :
    (flags : Flags) (c next : Option ReadyKey) (lo : ℕ) (m : Map (ℕ × SocketEntry))
    → IsSorted lo m
    → IsStart c lo next
    → ready_after flags next m ≡ ready_after flags c m
IsStart-same flags c next lo m s (inl (e, p)) = rw e
IsStart-same flags c next lo m s (inr (p, q)) =
    ready_after_past flags next lo m p s ∙ sym (ready_after_past flags c lo m q s)

module _ {ℓ} {B : Type ℓ} (within_budget : B → Bool × B) (flags : Flags) (cursor : Option ReadyKey)
    (entry_limit key_limit : ℕ) (entries : Map (ℕ × SocketEntry)) where
  abbrev write_scan : ℕ → ℕ → SocketEntry → ℕ → ℕ → B → (ℕ → ReadyScan × B) → ReadyScan × B
  write_scan = scan_write within_budget flags cursor entry_limit key_limit entries

  scan_write-Covers :
      (id g found scanned : ℕ) (e : SocketEntry) (b : B) (rest : ℕ → ReadyScan × B)
      (it : Map (ℕ × SocketEntry))
      → range_from (suc id) entries ≡ it
      → IsSorted (suc id) it
      → ((n : ℕ)
          → Covers flags it
              (ready_after flags none it)
              (some (key_of id g Direction.write))
              (rest n).0)
      → Covers flags it
          (emit
            (flags.cell e.write_ready)
            (key_of id g Direction.write)
            (ready_after flags none it))
          (some (key_of id g Direction.write))
          (write_scan id g e found scanned b rest).0
  unfolding scan_write
  scan_write-Covers id g found scanned e b rest it r s h =
      elim (Bool-cases (flags.cell e.write_ready)) [
        | inl on ↦ rw on (elim (Bool-cases (suc found == key_limit || scanned == entry_limit)) [
          | inl full ↦ rw full (push-Covers flags it _ _ _ _ ended)
          | inr more ↦ rw more (push-Covers flags it _ _ _ _ (h (suc found)))
        ])
        | inr off ↦ rw off (elim (Bool-cases (found == key_limit || scanned == entry_limit)) [
          | inl full ↦ rw full ended
          | inr more ↦ rw more (h found)
        ])
      ]
    where
      ended : Covers flags it (ready_after flags none it) (some (key_of id g Direction.write)) (
          stop
            (some (key_of id g Direction.write))
            (is_empty (range_from (suc id) entries))
            scanned)
      ended = record {
        split =
            ready_after_past flags (some (key_of id g Direction.write)) (suc id) it (omega arith) s;
        done = rw r (nil_of_empty flags (some (key_of id g Direction.write)) it);
        ahead = λ j p. p;
      }

  -- What an entry that the cursor is not past owes, with the entries behind it.
  due_entry :
      (id g : ℕ) (e : SocketEntry) (it : Map (ℕ × SocketEntry))
      → IsSorted (suc id) it
      → IsPast (suc id) cursor
      → cursor_at cursor id Direction.write ≡ false
      → ready_after flags cursor ((id, (g, e)) ∷ it)
        ≡ emit
            (not (cursor_at cursor id Direction.read) && flags.cell e.read_ready)
            (key_of id g Direction.read)
            (emit
              (flags.cell e.write_ready)
              (key_of id g Direction.write)
              (ready_after flags none it))
  unfolding ready_after
  due_entry id g e it s p w =
      rw (ready_after_past flags cursor (suc id) it p s)
        (rw (not_passed cursor p w) (rw (read_passed cursor p w) refl))
    where
      not_passed :
          (c : Option ReadyKey)
          → IsPast (suc id) c
          → cursor_at c id Direction.write ≡ false
          → passed c id Direction.write ≡ false
      not_passed none q n = refl
      not_passed (some k) q n = ground arith

      read_passed :
          (c : Option ReadyKey)
          → IsPast (suc id) c
          → cursor_at c id Direction.write ≡ false
          → passed c id Direction.read ≡ cursor_at c id Direction.read
      read_passed none q n = refl
      read_passed (some k) q n = ground arith

  -- A cursor on an entry's read side leaves its write side.
  behind_read :
      (id g : ℕ) (e : SocketEntry) (it : Map (ℕ × SocketEntry))
      → IsSorted (suc id) it
      → ready_after flags (some (key_of id g Direction.read)) ((id, (g, e)) ∷ it)
        ≡ emit (flags.cell e.write_ready) (key_of id g Direction.write) (ready_after flags none it)
  unfolding ready_after
  behind_read id g e it s =
      rw (ready_after_past flags (some (key_of id g Direction.read)) (suc id) it (omega arith) s)
        (ground arith)

  scan_entry-Covers :
      (id g found scanned : ℕ) (e : SocketEntry) (b : B) (rest : ℕ → B → ReadyScan × B)
      (it : Map (ℕ × SocketEntry)) (next : Option ReadyKey)
      → range_from (suc id) entries ≡ it
      → IsSorted (suc id) it
      → IsPast (suc id) cursor
      → cursor_at cursor id Direction.write ≡ false
      → ((j : ℕ) → passed next j Direction.write ≡ true → j < id)
      → ((n : ℕ) (b' : B)
          → Covers flags it
              (ready_after flags none it)
              (some (key_of id g Direction.write))
              (rest n b').0)
      → Covers flags
          ((id, (g, e)) ∷ it)
          (ready_after flags cursor ((id, (g, e)) ∷ it))
          next
          (scan_entry within_budget flags cursor entry_limit key_limit entries id g e found scanned
            b rest).0
  unfolding scan_entry
  scan_entry-Covers id g found scanned e b rest it next r s p w n h =
      rw (due_entry id g e it s p w)
        (elim (Bool-cases (not (cursor_at cursor id Direction.read) && flags.cell e.read_ready)) [
          | inr off ↦ rw off (written found b)
          | inl on ↦ rw on (elim (Bool-cases (suc found == key_limit)) [
            | inl full ↦ rw full (push-Covers flags _ _ _ _ _ stopped)
            | inr more ↦ rw more (elim (Bool-cases (within_budget b).0) [
              | inl go ↦
                  rw go (push-Covers flags _ _ _ _ _ (written (suc found) (within_budget b).1))
              | inr spent ↦ rw spent (push-Covers flags _ _ _ _ _ stopped)
            ])
          ])
        ])
    where
      due : List ReadyKey
      due =
          emit (flags.cell e.write_ready) (key_of id g Direction.write) (ready_after flags none it)

      written :
          (m : ℕ) (b' : B)
          → Covers flags
              ((id, (g, e)) ∷ it)
              due
              next
              (write_scan id g e m scanned b' (λ k. rest k b')).0
      written m b' =
          let c =
            widen-Covers flags id g e it due (some (key_of id g Direction.write)) _ (ground arith)
              (scan_write-Covers id g m scanned e b' (λ k. rest k b') it r s (λ k. h k b')) in
          record {
            split = c.split;
            done = c.done;
            ahead = λ j q. let below = n j q in c.ahead j (ground arith);
          }

      stopped :
          Covers flags
            ((id, (g, e)) ∷ it)
            due
            next
            (stop (some (key_of id g Direction.read)) false scanned)
      stopped = record {
        split = behind_read id g e it s;
        done = λ q. absurd (false≢true q);
        ahead = λ j q. let below = n j q in ground arith;
      }

  scan_loop-Covers :
      (it : Map (ℕ × SocketEntry)) (lo found scanned : ℕ) (next : Option ReadyKey) (b : B)
      → IsSorted 0 entries
      → range_from lo entries ≡ it
      → IsStart cursor lo next
      → Covers flags it
          (ready_after flags cursor it)
          next
          (scan_loop within_budget flags cursor entry_limit key_limit entries it next found scanned
            b).0
  unfolding scan_loop
  scan_loop-Covers [] lo found scanned next b s r h =
      unfold ready_after in (record { split = refl; done = λ q. refl; ahead = λ j q. q })
  scan_loop-Covers ((id, (g, e)) ∷ it) lo found scanned next b s r h =
      elim (Bool-cases (cursor_at cursor id Direction.write)) [
        | inl here ↦ rw here (
            let (c, n, pc, pn) = IsStart-here cursor next lo id first h here in
            rw (ready_after_skip flags cursor id g e it c) (
              widen-Covers flags id g e it (ready_after flags cursor it) next _ n
                (scan_loop-Covers it (suc id) found scanned next b s rest_range (inr (pn, pc)))))
        | inr other ↦ rw other (elim (Bool-cases (within_budget b).0) [
          | inr spent ↦ rw spent (record {
            split = IsStart-same flags cursor next lo ((id, (g, e)) ∷ it) (first, tail_sorted) h;
            done = λ q. absurd (false≢true q);
            ahead = λ j q. q;
          })
          | inl go ↦ rw go (
              scan_entry-Covers id g found (suc scanned) e (within_budget b).1 _ it next rest_range
                tail_sorted past other (IsStart-behind cursor next lo id first h other)
                (λ n b'. rw (← ready_after_past flags cursor (suc id) it past tail_sorted) (
                  scan_loop-Covers it (suc id) n (suc scanned) (some (key_of id g Direction.write))
                    b' s rest_range (inr (omega arith, past)))))
        ])
      ]
    where
      rest_range : range_from (suc id) entries ≡ it
      rest_range = range_from_next lo 0 id (g, e) entries it s r

      tail_sorted : IsSorted (suc id) it
      tail_sorted = rw rest_range at (range_from-IsSorted (suc id) 0 entries s)

      first : lo ≤ id
      first = (range_from_first lo 0 id (g, e) entries it s r).1

      past : IsPast (suc id) cursor
      past = IsStart-IsPast cursor next lo id first h

scan_ready_from {ℓ} :
    {B : Type ℓ} (within_budget : B → Bool × B) (flags : Flags) (cursor : Option ReadyKey)
    (entry_limit key_limit lo : ℕ) (m : Map (ℕ × SocketEntry)) (b : B)
    → IsSorted 0 m
    → IsPast (suc lo) cursor
    → ((j : ℕ) → j < lo → passed cursor j Direction.write ≡ true)
    → Covers flags m
        (ready_after flags cursor m)
        cursor
        (scan_loop within_budget flags cursor entry_limit key_limit m
          (range_from lo m)
          cursor
          0
          0
          b).0
scan_ready_from within_budget flags cursor entry_limit key_limit lo m b s p h =
    let c =
      scan_loop-Covers within_budget flags cursor entry_limit key_limit m (range_from lo m) lo 0 0
        cursor b s refl (inl (refl, p)) in
    let same =
      ready_after-range flags
        (scan_loop within_budget flags cursor entry_limit key_limit m (range_from lo m) cursor 0 0
          b).0.cursor
        lo 0 m s (λ j q. c.ahead j (h j q)) in
    record {
      split = rw (same, ready_after-range flags cursor lo 0 m s h) c.split;
      done = rw same c.done;
      ahead = c.ahead;
    }

scan_loop-start {ℓ} :
    {B : Type ℓ} (within_budget : B → Bool × B) (flags : Flags) (cursor : Option ReadyKey)
    (entry_limit key_limit : ℕ) (m : Map (ℕ × SocketEntry)) (b : B)
    → IsSorted 0 m
    → Covers flags m
        (ready_after flags cursor m)
        cursor
        (scan_loop within_budget flags cursor entry_limit key_limit m
          (scan_start cursor m)
          cursor
          0
          0
          b).0
scan_loop-start within_budget flags none entry_limit key_limit m b s =
    rw (range_from_all 0 0 m (omega arith) s) at (
      scan_ready_from within_budget flags none entry_limit key_limit 0 m b s tt
        (λ j h. absurd (omega arith)))
scan_loop-start within_budget flags (some key) entry_limit key_limit m b s =
    scan_ready_from within_budget flags (some key) entry_limit key_limit key.identity.id m b s
      (omega arith) (λ j h. ground arith)

-- On a table whose ids rise, a scan from any cursor reports the keys behind it whose flags are set, in
-- their order, as far as its new cursor: its keys, and then the ready keys behind the new cursor, are
-- those behind the old one. So no scan of a sweep skips a ready key or reports it again, whatever
-- the limits and the budget. Behind the cursor of a complete scan no key is ready.
pub scan_ready-split {ℓ} :
    {B : Type ℓ} (within_budget : B → Bool × B) (t : SocketTable) (flags : Flags)
    (cursor : Option ReadyKey) (entry_limit key_limit : ℕ) (b : B)
    → IsSorted 0 t.entries
    → ((scan_ready within_budget t flags cursor entry_limit key_limit b).0.keys
          ++ ready_after flags
              (scan_ready within_budget t flags cursor entry_limit key_limit b).0.cursor
              t.entries
        ≡ ready_after flags cursor t.entries)
      × ((scan_ready within_budget t flags cursor entry_limit key_limit b).0.complete ≡ true
          → ready_after flags
              (scan_ready within_budget t flags cursor entry_limit key_limit b).0.cursor
              t.entries
            ≡ [])
unfolding scan_ready
scan_ready-split within_budget t flags cursor entry_limit key_limit b s =
    elim (Bool-cases (entry_limit == 0 || key_limit == 0)) [
      | inl zero_limit ↦ rw zero_limit (refl, λ h. absurd (false≢true h))
      | inr positive ↦
          let c = scan_loop-start within_budget flags cursor entry_limit key_limit t.entries b s in
          rw positive (c.split, c.done)
    ]
