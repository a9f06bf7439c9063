-- ===== src/SocketTable/ScanBounds.antt =====
-- native/smolnet_core/src/socket_table.rs: a scan keeps to its limits, and moves on.
use smolnet.Prelude.{
  ℕ, suc, ◌+◌, ◌-◌, ◌≤◌, ◌<◌, ◌≡◌, refl, ◌⊎◌, inl, inr, Bool, true, ◌||◌, Option, some, [], ◌∷◌,
  arith, ◌==◌, length, Bool-cases,
}
use smolnet.Prelude.Map.{Map}
use smolnet.Waiter.{Direction, ReadyKey, Flags}
use smolnet.SocketTable.{SocketEntry, SocketTable}
use smolnet.SocketTable.Scan.{
  ReadyScan, cursor_at, key_of, scan_write, scan_entry, scan_loop, scan_start, scan_ready,
}

-- A scan within its limits: it reports at most `keys` more keys, and ends at `low` to `high` entries.
abbrev Within : ℕ → ℕ → ℕ → ReadyScan → Type 0
Within keys low high r =
    (length r.keys ≤ keys) × (low ≤ r.entries_scanned) × (r.entries_scanned ≤ high)

module _ {ℓ} {B : Type ℓ} (within_budget : B → Bool × B) (flags : Flags) (cursor : Option ReadyKey)
    (entry_limit key_limit : ℕ) (entries : Map (ℕ × SocketEntry)) where
  scan_write-Within :
      (id g found scanned k : ℕ) (e : SocketEntry) (b : B) (rest : ℕ → ReadyScan × B)
      → found + k ≡ key_limit
      → 0 < k
      → scanned ≤ entry_limit
      → ((n j : ℕ)
          → n + j ≡ key_limit
          → 0 < j
          → scanned < entry_limit
          → Within j scanned entry_limit (rest n).0)
      → Within k scanned entry_limit
          (scan_write within_budget flags cursor entry_limit key_limit entries id g e found scanned
            b rest).0
  unfolding scan_write
  scan_write-Within id g found scanned k e b rest q p s h =
      ground (arith, h found k, h (suc found) (k - 1))

  scan_entry-Within :
      (id g found scanned k : ℕ) (e : SocketEntry) (b : B) (rest : ℕ → B → ReadyScan × B)
      → found + k ≡ key_limit
      → 0 < k
      → scanned ≤ entry_limit
      → ((n j : ℕ) (b' : B)
          → n + j ≡ key_limit
          → 0 < j
          → scanned < entry_limit
          → Within j scanned entry_limit (rest n b').0)
      → Within k scanned entry_limit
          (scan_entry within_budget flags cursor entry_limit key_limit entries id g e found scanned
            b rest).0
  unfolding scan_entry
  scan_entry-Within id g found scanned k e b rest q p s h = ground (
    arith,
    scan_write-Within id g found scanned k e b (λ n. rest n b) q p s (λ n j. h n j b),
    λ (p' : 0 < k - 1).
        scan_write-Within id g (suc found) scanned (k - 1) e (within_budget b).1
          (λ n. rest n (within_budget b).1) (omega arith) p' s (λ n j. h n j (within_budget b).1),
  )

  entered :
      (id g : ℕ) (e : SocketEntry) (it : Map (ℕ × SocketEntry)) (found scanned k : ℕ) (b : B)
      → found + k ≡ key_limit
      → 0 < k
      → scanned < entry_limit
      → ((n j : ℕ) (b' : B)
          → n + j ≡ key_limit
          → 0 < j
          → suc scanned < entry_limit
          → Within j
              (suc scanned)
              entry_limit
              (scan_loop within_budget flags cursor entry_limit key_limit entries it
                (some (key_of id g Direction.write))
                n
                (suc scanned)
                b').0)
      → Within k
          (suc scanned)
          entry_limit
          (scan_entry within_budget flags cursor entry_limit key_limit entries id g e found
            (suc scanned)
            (within_budget b).1
            (λ n b'.
              scan_loop within_budget flags cursor entry_limit key_limit entries it
                (some (key_of id g Direction.write))
                n
                (suc scanned)
                b')).0
  entered id g e it found scanned k b q p s h =
      scan_entry-Within id g found (suc scanned) k e (within_budget b).1 _ q p s h

  scan_loop-Within :
      (it : Map (ℕ × SocketEntry)) (next : Option ReadyKey) (found scanned k : ℕ) (b : B)
      → found + k ≡ key_limit
      → 0 < k
      → scanned < entry_limit
      → Within k scanned entry_limit
          (scan_loop within_budget flags cursor entry_limit key_limit entries it next found scanned
            b).0
  unfolding scan_loop
  scan_loop-Within [] next found scanned k b q p s = (omega arith, omega arith, omega arith)
  scan_loop-Within ((id, (g, e)) ∷ it) next found scanned k b q p s =
      elim (Bool-cases (cursor_at cursor id Direction.write)) [
        | inl here ↦ rw here (scan_loop-Within it next found scanned k b q p s)
        | inr other ↦ rw other (elim (Bool-cases (within_budget b).0) [
          | inr spent ↦ rw spent (omega arith, omega arith, omega arith)
          | inl go ↦
              let w = entered id g e it found scanned k b q p s (λ n j b'.
                scan_loop-Within it (some (key_of id g Direction.write)) n (suc scanned) j b') in
              rw go (w.0, omega arith, w.2)
        ])
      ]

  -- With budget for its first entry a scan that is not complete looks at an entry.
  scan_loop-progress :
      (it : Map (ℕ × SocketEntry)) (next : Option ReadyKey) (b : B)
      → 0 < entry_limit
      → 0 < key_limit
      → (within_budget b).0 ≡ true
      → ((scan_loop within_budget flags cursor entry_limit key_limit entries it next 0 0
            b).0.complete
          ≡ true)
        ⊎ (0
            < (scan_loop within_budget flags cursor entry_limit key_limit entries it next 0 0
                b).0.entries_scanned)
  unfolding scan_loop
  scan_loop-progress [] next b p q go = inl refl
  scan_loop-progress ((id, (g, e)) ∷ it) next b p q go =
      elim (Bool-cases (cursor_at cursor id Direction.write)) [
        | inl here ↦ rw here (scan_loop-progress it next b p q go)
        | inr other ↦ rw other (
            rw go (
              inr
                (entered id g e it 0 0 key_limit b (omega arith) q p
                  (λ n j b'. scan_loop-Within it (some (key_of id g Direction.write)) n 1 j b')).1))
      ]

-- A scan reports at most `key_limit` keys and looks at no more than `entry_limit` entries. With positive
-- limits and budget for its first entry it is complete or has looked at an entry.
pub scan_ready-bounds {ℓ} :
    {B : Type ℓ} (within_budget : B → Bool × B) (t : SocketTable) (flags : Flags)
    (cursor : Option ReadyKey) (entry_limit key_limit : ℕ) (b : B)
    → (length (scan_ready within_budget t flags cursor entry_limit key_limit b).0.keys ≤ key_limit)
      × ((scan_ready within_budget t flags cursor entry_limit key_limit b).0.entries_scanned
          ≤ entry_limit)
      × (0 < entry_limit
          → 0 < key_limit
          → (within_budget b).0 ≡ true
          → ((scan_ready within_budget t flags cursor entry_limit key_limit b).0.complete ≡ true)
            ⊎ (0
                < (scan_ready within_budget t flags cursor entry_limit key_limit
                    b).0.entries_scanned))
unfolding scan_ready
scan_ready-bounds within_budget t flags cursor entry_limit key_limit b =
    elim (Bool-cases (entry_limit == 0 || key_limit == 0)) [
      | inl zero_limit ↦ rw zero_limit (omega arith, omega arith, λ p q go. absurd (ground arith))
      | inr positive ↦
          let w =
            scan_loop-Within within_budget flags cursor entry_limit key_limit t.entries
              (scan_start cursor t.entries) cursor 0 0 key_limit b (omega arith) (ground arith)
              (ground arith) in
          rw positive (
            w.0,
            w.2,
            scan_loop-progress within_budget flags cursor entry_limit key_limit t.entries
                (scan_start cursor t.entries) cursor b,
          )
    ]
