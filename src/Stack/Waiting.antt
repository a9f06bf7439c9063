-- ===== src/Stack/Waiting.antt =====
-- native/smolnet_core/src/{socket_table,stack}.rs: who waits in a table, what tells them, and that only
-- the delivery of their own key takes a waiter out of it.
use smolnet.Prelude.{
  ℕ, ◌≡◌, refl, ◌∙◌, sym, ap, ◌⊎◌, inl, inr, not, ◌||◌, Option, none, some, List, [], ◌∷◌, ◌++◌,
  arith, Bool-cases, Option-cases, ◌==◌, if◌then◌else◌,
}
use smolnet.Prelude.Map.{Map, get, get-write, write as map_write}
use smolnet.Waiter.{Direction, Waiter, SocketIdentity, ReadyKey}
use smolnet.SocketTable.{SocketEntry, State, waiter, set_waiter, set_sent, ready_flag, is_open}
use smolnet.SocketTable.Ops.{notify, take_ready_waiter, take_ready_entry, remember_sent}
use smolnet.Stack.Native.{Message, select}

abbrev pub slot_waiter : SocketIdentity → Direction → Option (ℕ × SocketEntry) → Option Waiter
slot_waiter i dir none = none
slot_waiter i dir (some (generation, e)) = if generation == i.generation then waiter dir e else none

-- The waiter of a socket in one direction, if the socket is there and has one.
abbrev pub waiting : SocketIdentity → Direction → Map (ℕ × SocketEntry) → Option Waiter
waiting i dir entries = slot_waiter i dir (get i.id entries)

-- One of the messages tells the waiter that the socket is ready.
abbrev pub Tells : Waiter → SocketIdentity → List Message → Type 0
Tells w i [] = ⊥
Tells w i (m ∷ ms) = (m ≡ select w i) ⊎ Tells w i ms

pub Tells-left :
    (w : Waiter) (i : SocketIdentity) (ms ns : List Message) → Tells w i ms → Tells w i (ms ++ ns)
Tells-left w i [] ns h = absurd h
Tells-left w i (m ∷ ms) ns (inl e) = inl e
Tells-left w i (m ∷ ms) ns (inr h) = inr (Tells-left w i ms ns h)

pub Tells-right :
    (w : Waiter) (i : SocketIdentity) (ms ns : List Message) → Tells w i ns → Tells w i (ms ++ ns)
Tells-right w i [] ns h = h
Tells-right w i (m ∷ ms) ns h = inr (Tells-right w i ms ns h)

abbrev taken : Direction → SocketEntry → SocketEntry
taken dir e = set_sent dir none (set_waiter dir none e)

waiter-taken :
    (d dir : Direction) (e : SocketEntry) → (waiter dir (taken d e) ≡ waiter dir e) ⊎ (d ≡ dir)
waiter-taken Direction.read Direction.read e = inr refl
waiter-taken Direction.read Direction.write e = inl refl
waiter-taken Direction.write Direction.read e = inl refl
waiter-taken Direction.write Direction.write e = inr refl

waiter-remembered :
    (d dir : Direction) (w : Waiter) (e : SocketEntry)
    → waiter dir (set_sent d (some w) e) ≡ waiter dir e
waiter-remembered Direction.read Direction.read w e = refl
waiter-remembered Direction.read Direction.write w e = refl
waiter-remembered Direction.write Direction.read w e = refl
waiter-remembered Direction.write Direction.write w e = refl

-- Writing back a slot changes what waits there only.
waiting-write :
    (i : SocketIdentity) (dir : Direction) (id g : ℕ) (old e : SocketEntry)
    (entries : Map (ℕ × SocketEntry))
    → get id entries ≡ some (g, old)
    → (waiting i dir (map_write id (g, e) entries) ≡ waiting i dir entries)
      ⊎ ((id ≡ i.id)
          × (waiting i dir entries ≡ slot_waiter i dir (some (g, old)))
          × (waiting i dir (map_write id (g, e) entries) ≡ slot_waiter i dir (some (g, e))))
waiting-write i dir id g old e entries h =
    let at = get-write id i.id (g, e) (g, old) entries h in
    elim (Bool-cases (id == i.id)) [
      | inr apart ↦ inl (let at' = rw apart at at in ap (slot_waiter i dir) at')
      | inl here ↦
          let k : id ≡ i.id = ground arith in
          let found : get i.id entries ≡ some (g, old) = rw (← k) h in
          let at' = rw here at at in
          inr (k, ap (slot_waiter i dir) found, ap (slot_waiter i dir) at')
    ]

pub remember_sent-waiting :
    (j i : SocketIdentity) (d dir : Direction) (w : Waiter) (s : State)
    → waiting i dir (remember_sent j d w s).entries ≡ waiting i dir s.entries
unfolding remember_sent
remember_sent-waiting j i d dir w s = elim (Option-cases (get j.id s.entries)) [
  | inl n ↦ rw (n, remember_sent) refl
  | inr ((g, e), h) ↦ elim (Bool-cases (g == j.generation)) [
    | inr other ↦ rw (h, remember_sent) (rw other refl)
    | inl same ↦
        let r = waiter-remembered d dir w e in
        rw (h, remember_sent)
          (rw same (elim (waiting-write i dir j.id g e (set_sent d (some w) e) s.entries h) [
            | inl apart ↦ apart
            | inr (k, before, after) ↦
                after
                ∙ (ap (λ (x : Option Waiter). if◌then◌else◌ (g == i.generation) x none) r
                    ∙ sym before)
          ]))
  ]
]

same_waiter :
    (j i : SocketIdentity) (dir : Direction) (v w : Waiter) (e : SocketEntry)
    → j.id ≡ i.id
    → waiter dir e ≡ some v
    → slot_waiter i dir (some (j.generation, e)) ≡ some w
    → (notify v ≡ notify w) × (j ≡ i)
same_waiter j i dir v w e k m h = elim (Bool-cases (j.generation == i.generation)) [
  | inr other ↦ let h' = rw other at h in absurd (cc)
  | inl same ↦
      let h' = rw same at h in let g : j.generation ≡ i.generation = ground arith in (cc, cc)
]

-- A waiter stays until the key of its socket and direction takes it.
pub take_ready_waiter-waiting :
    (key : ReadyKey) (i : SocketIdentity) (dir : Direction) (w : Waiter) (s : State)
    → waiting i dir s.entries ≡ some w
    → (waiting i dir (take_ready_waiter key s).1.entries ≡ some w)
      ⊎ (((take_ready_waiter key s).0 ≡ notify w) × (key.identity ≡ i))
unfolding take_ready_waiter take_ready_entry
take_ready_waiter-waiting key i dir w s waits =
    elim (Option-cases (get key.identity.id s.entries)) [
      | inl n ↦ inl (rw (n, take_ready_waiter) waits)
      | inr ((g, e), h) ↦
          elim (Bool-cases (not (g == key.identity.generation) || not (is_open e.lifecycle))) [
            | inl old ↦ inl (rw (h, take_ready_waiter) (rw old waits))
            | inr live ↦ elim (Bool-cases (s.flags.cell (ready_flag key.direction e))) [
              | inr clear ↦ inl (rw (h, take_ready_waiter) (rw (live, clear) waits))
              | inl on ↦ elim (Option-cases (waiter key.direction e)) [
                | inl n ↦ inl (rw (h, take_ready_waiter) (rw (live, on) (rw n waits)))
                | inr (v, m) ↦
                    let g' : g ≡ key.identity.generation = ground arith in
                    let wrote =
                      waiting-write i dir key.identity.id key.identity.generation e
                        (taken key.direction e) s.entries (rw g' at h) in
                    rw (h, take_ready_waiter)
                      (rw (live, on)
                        (rw m (elim wrote [
                          | inl same ↦ inl (same ∙ waits)
                          | inr (k, before, after) ↦ elim (waiter-taken key.direction dir e) [
                            | inl r ↦ inl (
                                after
                                ∙ (ap
                                      (λ (x : Option Waiter).
                                        if◌then◌else◌ (key.identity.generation == i.generation) x
                                          none)
                                      r
                                    ∙ (sym before ∙ waits)))
                            | inr d ↦ inr (
                                same_waiter key.identity i dir v w e k (rw d at m)
                                  (sym before ∙ waits))
                          ]
                        ])))
              ]
            ]
          ]
    ]
