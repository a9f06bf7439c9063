-- ===== src/Tcp/Ephemeral.antt =====
-- native/smolnet_core/src/tcp.rs: `allocate_ephemeral`, the first free port from a start, in a circle.
use smolnet.Prelude.{
  ℕ, zero, suc, ◌+◌, ◌-◌, ◌%◌, ◌^◌, ◌≤◌, ◌<◌, ◌≡◌, ◌↔◌, sym, Bool, true, false, not, ◌||◌, List, [],
  ◌∷◌, leb, ◌==◌, if◌then◌else◌, arith, Bool-cases, inl, inr, min, max,
}
use mathlib.Core.Bool.{false≢true}
use mathlib.Core.Path.{◌∙◌}
use native.Mathlib.Nat.{mod-eq_of_lt, mod-lt}
use smolnet.Prelude.Result.{Result, ok, err, Result-cases}
use smolnet.SocketTable.{SocketError, ephemeral_ports_exhausted}

-- `used.contains(&port)`.
unfoldable pub contains : List ℕ → ℕ → Bool
contains [] port = false
contains (x ∷ xs) port = x == port || contains xs port

-- The candidate at an offset; `start` is within the range.
abbrev pub candidate : ℕ → ℕ → ℕ → ℕ → ℕ
candidate start first count offset = first + (start - first + offset) % count % 2 ^ 16

-- The `for` loop, with `left` rounds to go.
unfoldable pub search_from : List ℕ → ℕ → ℕ → ℕ → ℕ → ℕ → Result SocketError ℕ
search_from used start first count zero offset = err ephemeral_ports_exhausted
search_from used start first count (suc left) offset =
    let rest = search_from used start first count left (suc offset) in
    if not (contains used (candidate start first count offset))
    then ok (candidate start first count offset)
    else rest

-- `start.clamp(first, last)`, which panics unless `first <= last`.
abbrev pub clamp : ℕ → ℕ → ℕ → ℕ
clamp n lo hi = max lo (min n hi)

unfoldable pub allocate_ephemeral : List ℕ → ℕ → ℕ → ℕ → Result SocketError ℕ
unfolding search_from
allocate_ephemeral used start first last =
    search_from used (clamp start first last) first (last - first + 1) (last - first + 1) 0

module _ (used : List ℕ) (start first count : ℕ) where
  search_from-ok :
      (left offset port : ℕ)
      → search_from used start first count left offset ≡ ok port
      → (o : ℕ) × (port ≡ candidate start first count o)
        × (contains used port ≡ false)
        × (offset ≤ o)
        × (o < offset + left)
        × ((k : ℕ) → offset ≤ k → k < o → contains used (candidate start first count k) ≡ true)
  unfolding search_from
  search_from-ok zero offset port h = cc
  search_from-ok (suc left) offset port h =
      elim (Bool-cases (contains used (candidate start first count offset))) [
        | inr unused ↦
            let e : port ≡ candidate start first count offset = ground (arith, unused) in
            (offset, e, rw e unused, omega arith, omega arith, λ k p q. absurd (omega arith))
        | inl taken ↦
            let h' : search_from used start first count left (suc offset) ≡ ok port =
              ground (arith, taken) in
            let (o, e, u, lo, hi, before) = search_from-ok left (suc offset) port h' in
            (
              o,
              e,
              u,
              omega arith,
              omega arith,
              λ k p q. elim (Bool-cases (k == offset)) [
                | inl same ↦ let k' : k ≡ offset = ground arith in rw k' taken
                | inr other ↦ before k (ground arith) q
              ],
            )
      ]

  search_from-err :
      (left offset : ℕ) (x : SocketError)
      → search_from used start first count left offset ≡ err x
      → (k : ℕ) → offset ≤ k
      → k < offset + left
      → contains used (candidate start first count k) ≡ true
  unfolding search_from
  search_from-err zero offset x h k p q = absurd (omega arith)
  search_from-err (suc left) offset x h k p q =
      elim (Bool-cases (contains used (candidate start first count offset))) [
        | inr unused ↦ absurd (ground arith)
        | inl taken ↦ elim (Bool-cases (k == offset)) [
          | inl same ↦ let k' : k ≡ offset = ground arith in rw k' taken
          | inr other ↦
              search_from-err left (suc offset) x (ground (arith, taken)) k (ground arith)
                (omega arith)
        ]
      ]

-- Every port of the range is the candidate at some offset.
candidate-surjective :
    (start first count port : ℕ)
    → first ≤ start
    → start < first + count
    → count ≤ 2 ^ 16
    → first ≤ port
    → port < first + count
    → (o : ℕ) × (o < count) × (candidate start first count o ≡ port)
candidate-surjective start first count port h1 h2 h3 h4 h5 = elim (Bool-cases (leb start port)) [
  | inl beyond ↦ (port - start, ground arith, ahead (port - start) (ground arith))
  | inr before ↦ (port + count - start, ground arith, wrapped (port + count - start) (ground arith))
]
  where
    ahead : (o : ℕ) → start - first + o ≡ port - first → candidate start first count o ≡ port
    ahead o e = rw e (omega (arith, mod-eq_of_lt {n = port - first} {m = count} (omega arith)))

    wrapped :
        (o : ℕ) → start - first + o ≡ port - first + count → candidate start first count o ≡ port
    wrapped o e = rw e (grind arith)

-- On a range of ports, the result is a free port of the range, and the first one that is free from the
-- start on, which is moved into the range, in a circle. It fails exactly when no port of the range is free.
pub allocate_ephemeral-first :
    (used : List ℕ) (start first last : ℕ)
    → first ≤ last
    → last < 2 ^ 16
    → ((port : ℕ)
        → allocate_ephemeral used start first last ≡ ok port
        → (first ≤ port)
          × (port ≤ last)
          × (contains used port ≡ false)
          × (o : ℕ) × (port ≡ candidate (clamp start first last) first (last - first + 1) o)
          × ((k : ℕ)
              → k < o
              → contains used (candidate (clamp start first last) first (last - first + 1) k)
                ≡ true))
      × (((x : SocketError) × (allocate_ephemeral used start first last ≡ err x))
          ↔ ((port : ℕ) → first ≤ port → port ≤ last → contains used port ≡ true))
unfolding allocate_ephemeral
allocate_ephemeral-first used start first last h k = (
  λ port e.
      let (o, c, u, lo, hi, before) = search_from-ok used s first n n 0 port e in
      (
        rw c (omega arith),
        rw c (omega (arith, mod-lt (s - first + o) {m = n} (omega arith))),
        u,
        o,
        c,
        λ j q. before j (omega arith) q,
      ),
  (
    λ (x, e) port p q.
        let (o, lt, c) =
          candidate-surjective s first n port (omega arith) (omega arith) (omega arith) p
            (omega arith) in
        rw (← c) (search_from-err used s first n n 0 x e o (omega arith) (omega arith)),
    λ all. elim (Result-cases (search_from used s first n n 0)) [
      | inr (x, e) ↦ (x, e)
      | inl (port, e) ↦
          let (o, c, u, lo, hi, before) = search_from-ok used s first n n 0 port e in
          absurd (
            false≢true (
              sym u
              ∙ all port (rw c (omega arith))
                  (rw c (omega (arith, mod-lt (s - first + o) {m = n} (omega arith))))))
    ],
  ),
)
  where
    s : ℕ
    s = clamp start first last

    n : ℕ
    n = last - first + 1
