-- ===== src/Prelude/Map.antt =====
-- `BTreeMap<u64, V>` as its entries in the order of their keys: the operations that the stack uses,
-- and the laws of each.
use smolnet.Prelude.Tests.{ltb, ◌==◌, if◌then◌else◌, Bool-cases}
use smolnet.Prelude.Lists.{length}
use Prim.Native.Nat.{ℕ, suc, ◌+◌, ◌≤◌, ◌<◌}
use mathlib.Core.Path.{◌≡◌, refl}
use mathlib.Core.Bool.{true}
use mathlib.Core.Logic.{inl, inr}
use mathlib.Core.Option.{Option, none, some}
use mathlib.Core.List.{List, [], ◌∷◌}
use native.Mathlib.Omega.{arith}

abbrev pub Map {ℓ} : Type ℓ → Type ℓ
Map V = List (ℕ × V)

module _ {ℓ} {V : Type ℓ} where
  unfoldable pub get : ℕ → Map V → Option V
  get k [] = none
  get k ((j, v) ∷ m) = if j == k then some v else get k m

  -- `insert`, which replaces the value of a key that is there.
  unfoldable pub insert : ℕ → V → Map V → Map V
  insert k v [] = (k, v) ∷ []
  insert k v ((j, w) ∷ m) =
      if ltb k j then (k, v) ∷ (j, w) ∷ m else if j == k then (k, v) ∷ m else (j, w) ∷ insert k v m

  unfoldable pub remove : ℕ → Map V → Map V
  remove k [] = []
  remove k ((j, w) ∷ m) = if j == k then m else (j, w) ∷ remove k m

  -- A write through `get_mut`, which adds no key.
  unfoldable pub write : ℕ → V → Map V → Map V
  write k v [] = []
  write k v ((j, w) ∷ m) = if j == k then (j, v) ∷ m else (j, w) ∷ write k v m

  -- The keys rise, and none is below `lo`.
  abbrev pub IsSorted : ℕ → Map V → Type 0
  IsSorted lo [] = Unit {0}
  IsSorted lo ((k, v) ∷ m) = (lo ≤ k) × IsSorted (suc k) m

  pub IsSorted-mono : (lo lo' : ℕ) (m : Map V) → lo' ≤ lo → IsSorted lo m → IsSorted lo' m
  IsSorted-mono lo lo' [] h s = tt
  IsSorted-mono lo lo' ((k, v) ∷ m) h s = (omega arith, s.1)

  pub get_below : (k lo : ℕ) (m : Map V) → k < lo → IsSorted lo m → get k m ≡ none
  unfolding get
  get_below k lo [] h s = refl
  get_below k lo ((j, v) ∷ m) h s = ground (arith, get_below k (suc j) m)

  pub get-insert :
      (k j : ℕ) (v : V) (m : Map V) → get j (insert k v m) ≡ (if k == j then some v else get j m)
  unfolding get insert
  get-insert k j v [] = refl
  get-insert k j v ((i, w) ∷ m) = ground (arith, get-insert k j v m)

  pub get-write :
      (k j : ℕ) (v old : V) (m : Map V)
      → get k m ≡ some old
      → get j (write k v m) ≡ (if k == j then some v else get j m)
  unfolding get write
  get-write k j v old [] h = ground arith
  get-write k j v old ((i, w) ∷ m) h = ground (arith, get-write k j v old m)

  pub get-remove :
      (k j lo : ℕ) (m : Map V)
      → IsSorted lo m
      → get j (remove k m) ≡ (if k == j then none else get j m)
  unfolding get remove
  get-remove k j lo [] s = ground arith
  get-remove k j lo ((i, w) ∷ m) s = ground (arith, get-remove k j (suc i) m, get_below k (suc i) m)

  pub insert-IsSorted :
      (k lo : ℕ) (v : V) (m : Map V) → lo ≤ k → IsSorted lo m → IsSorted lo (insert k v m)
  unfolding insert
  insert-IsSorted k lo v [] h s = (h, tt)
  insert-IsSorted k lo v ((j, w) ∷ m) h s = ground (arith, insert-IsSorted k (suc j) v m)

  pub remove-IsSorted : (k lo : ℕ) (m : Map V) → IsSorted lo m → IsSorted lo (remove k m)
  unfolding remove
  remove-IsSorted k lo [] s = tt
  remove-IsSorted k lo ((j, w) ∷ m) s =
      ground (arith, remove-IsSorted k (suc j) m, IsSorted-mono (suc j) lo m)

  pub write-IsSorted : (k lo : ℕ) (v : V) (m : Map V) → IsSorted lo m → IsSorted lo (write k v m)
  unfolding write
  write-IsSorted k lo v [] s = tt
  write-IsSorted k lo v ((j, w) ∷ m) s = ground (arith, write-IsSorted k (suc j) v m)

  -- The sum of a weight over the values: of `λ v. 1` it is the size.
  unfoldable pub total : (V → ℕ) → Map V → ℕ
  total f [] = 0
  total f ((k, v) ∷ m) = f v + total f m

  pub total-insert :
      (f : V → ℕ) (k : ℕ) (v : V) (m : Map V)
      → get k m ≡ none
      → total f (insert k v m) ≡ f v + total f m
  unfolding total insert get
  total-insert f k v [] h = refl
  total-insert f k v ((j, w) ∷ m) h = ground (arith, total-insert f k v m)

  pub total-insert_le :
      (f : V → ℕ) (k : ℕ) (v : V) (m : Map V) → total f (insert k v m) ≤ f v + total f m
  unfolding total insert
  total-insert_le f k v [] = omega arith
  total-insert_le f k v ((j, w) ∷ m) = ground (arith, total-insert_le f k v m)

  pub length-insert_le : (k : ℕ) (v : V) (m : Map V) → length (insert k v m) ≤ suc (length m)
  unfolding insert
  length-insert_le k v [] = omega arith
  length-insert_le k v ((j, w) ∷ m) = ground (arith, length-insert_le k v m)

  pub total-remove :
      (f : V → ℕ) (k : ℕ) (v : V) (m : Map V)
      → get k m ≡ some v
      → f v + total f (remove k m) ≡ total f m
  unfolding total remove get
  total-remove f k v [] h = cc
  total-remove f k v ((j, w) ∷ m) h = ground (arith, total-remove f k v m)

  pub total-write :
      (f : V → ℕ) (k : ℕ) (v old : V) (m : Map V)
      → get k m ≡ some old
      → f old + total f (write k v m) ≡ f v + total f m
  unfolding total write get
  total-write f k v old [] h = cc
  total-write f k v old ((j, w) ∷ m) h = ground (arith, total-write f k v old m)

  pub length-insert :
      (k : ℕ) (v : V) (m : Map V) → get k m ≡ none → length (insert k v m) ≡ suc (length m)
  unfolding insert get
  length-insert k v [] h = refl
  length-insert k v ((j, w) ∷ m) h = ground (arith, length-insert k v m)

  pub length-remove :
      (k : ℕ) (v : V) (m : Map V) → get k m ≡ some v → suc (length (remove k m)) ≡ length m
  unfolding remove get
  length-remove k v [] h = cc
  length-remove k v ((j, w) ∷ m) h = ground (arith, length-remove k v m)

  pub length-write : (k : ℕ) (v : V) (m : Map V) → length (write k v m) ≡ length m
  unfolding write
  length-write k v [] = refl
  length-write k v ((j, w) ∷ m) = ground (arith, length-write k v m)

  pub insert-remove :
      (k lo : ℕ) (v : V) (m : Map V)
      → IsSorted lo m
      → get k m ≡ some v
      → insert k v (remove k m) ≡ m
  unfolding get insert remove
  insert-remove k lo v [] s h = cc
  insert-remove k lo v ((j, w) ∷ []) s h = ground arith
  insert-remove k lo v ((j, w) ∷ (i, u) ∷ m) s h =
      ground (arith, insert-remove k (suc j) v ((i, u) ∷ m), get_below k (suc j) ((i, u) ∷ m))

  pub get-write-none : (k j : ℕ) (v : V) (m : Map V) → get j m ≡ none → get j (write k v m) ≡ none
  unfolding get write
  get-write-none k j v [] h = refl
  get-write-none k j v ((i, w) ∷ m) h = ground (arith, get-write-none k j v m)

  pub total-add : (f g : V → ℕ) (m : Map V) → total f m + total g m ≡ total (λ v. f v + g v) m
  unfolding total
  total-add f g [] = refl
  total-add f g ((k, v) ∷ m) = omega (arith, total-add f g m)

  -- `range((Included(lo), Unbounded))`; with `Excluded(k)` it starts at `suc k`.
  unfoldable pub range_from : ℕ → Map V → Map V
  range_from lo [] = []
  range_from lo ((k, v) ∷ m) = if ltb k lo then range_from lo m else (k, v) ∷ m

  pub range_from_all : (lo from : ℕ) (m : Map V) → lo ≤ from → IsSorted from m → range_from lo m ≡ m
  unfolding range_from
  range_from_all lo from [] h s = refl
  range_from_all lo from ((k, v) ∷ m) h s = ground arith

  pub range_from_first :
      (lo from k : ℕ) (v : V) (m rest : Map V)
      → IsSorted from m
      → range_from lo m ≡ (k, v) ∷ rest
      → (from ≤ k) × (lo ≤ k)
  unfolding range_from
  range_from_first lo from k v [] rest s h = cc
  range_from_first lo from k v ((j, w) ∷ m) rest s h =
      ground (arith, range_from_first lo (suc j) k v m rest)

  -- What stands behind the first entry of a range is the range behind its key.
  pub range_from_next :
      (lo from k : ℕ) (v : V) (m rest : Map V)
      → IsSorted from m
      → range_from lo m ≡ (k, v) ∷ rest
      → range_from (suc k) m ≡ rest
  unfolding range_from
  range_from_next lo from k v [] rest s h = cc
  range_from_next lo from k v ((j, w) ∷ m) rest s h = elim (Bool-cases (ltb j lo)) [
    | inl below ↦
        let h' : range_from lo m ≡ (k, v) ∷ rest = rw below at h in
        let past : ltb j (suc k) ≡ true = ground (arith, range_from_first lo (suc j) k v m rest) in
        rw past (range_from_next lo (suc j) k v m rest s.1 h')
    | inr first ↦
        let h' : (j, w) ∷ m ≡ (k, v) ∷ rest = rw first at h in
        ground (arith, range_from_all (suc k) (suc j) m)
  ]

  pub range_from-IsSorted :
      (lo from : ℕ) (m : Map V) → IsSorted from m → IsSorted lo (range_from lo m)
  unfolding range_from
  range_from-IsSorted lo from [] s = tt
  range_from-IsSorted lo from ((k, v) ∷ m) s = ground (arith, range_from-IsSorted lo (suc k) m)
