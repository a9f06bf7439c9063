-- ===== src/Stack/Sharing.antt =====
-- native/smolnet_core/src/stack.rs: no two sockets are bound to one port of a family.
use smolnet.Prelude.{
  ℕ, ◌≡◌, refl, Bool, true, false, not, ◌&&◌, Option, none, some, [], ◌∷◌, ◌++◌, ◌==◌, arith,
  Bool-cases, Option-cases, inl, inr, ◌⊎◌,
}
use smolnet.Prelude.Map.{Map, get, write as map_write, get-write}
use smolnet.Prelude.Result.{ok, Result-cases}
use smolnet.Waiter.{SocketIdentity}
use smolnet.Tcp.{
  IpAddress, Wire, ValidatedEndpoint, IpEndpoint, AddressFamily, inet, inet6, ephemeral_port_first,
  ephemeral_port_last, family_matches, TcpRecord, ListenerRecord,
}
use smolnet.Tcp.Ephemeral.{allocate_ephemeral}
use smolnet.Tcp.Endpoint.{TcpEndpoint}
use smolnet.Stack.State.{StackSockets}
use smolnet.Stack.Ports.{
  record_ports, listener_ports, next_port, family_eq, is_identity, has_port, record_uses,
  listener_uses, port_in_use, allocate_ephemeral_port, allocate_ephemeral_port-unused,
}
use smolnet.Stack.Bind.{
  is_listener, of_identity, tcp_record, may_bind, pick_port, bound_record, write_bound, tcp_bind,
}

-- Two sockets that were not accepted, of one family and with one port.
abbrev pub shares_port : Option IpEndpoint → Option IpEndpoint → Bool
shares_port none b = false
shares_port (some a) none = false
shares_port (some a) (some b) = b.port == a.port

abbrev pub clashes : TcpRecord → TcpRecord → Bool
clashes a b =
    family_eq b.family a.family
    && (not a.accepted && (not b.accepted && shares_port a.local b.local))

abbrev pub clashes_listener : TcpRecord → ListenerRecord → Bool
clashes_listener a l =
    family_matches a.family (l.local).addr && (not a.accepted && shares_port (some l.local) a.local)

-- Records and listeners are kept under their own ids, and no two clash.
pub record IsUnshared (s : StackSockets) : Type 0 where
  pub keyed : (j : ℕ) (r : TcpRecord) → get j s.tcp_records ≡ some r → r.identity.id ≡ j
  pub listeners_keyed :
      (j : ℕ) (l : ListenerRecord) → get j s.tcp_listeners ≡ some l → l.identity.id ≡ j
  pub records :
      (i j : ℕ) (a b : TcpRecord)
      → get i s.tcp_records ≡ some a
      → get j s.tcp_records ≡ some b
      → (i == j) ≡ false
      → clashes a b ≡ false
  pub listeners :
      (i j : ℕ) (a : TcpRecord) (l : ListenerRecord)
      → get i s.tcp_records ≡ some a
      → get j s.tcp_listeners ≡ some l
      → clashes_listener a l ≡ false

record_uses-get :
    (port j : ℕ) (family : AddressFamily) (excluding : Option SocketIdentity) (rs : Map TcpRecord)
    (r : TcpRecord)
    → record_uses port family excluding rs ≡ false
    → get j rs ≡ some r
    → (not (is_identity r.identity excluding)
        && (family_eq r.family family && (not r.accepted && has_port port r.local)))
      ≡ false
unfolding record_uses get
record_uses-get port j family excluding [] r h e = absurd (cc)
record_uses-get port j family excluding ((k, x) ∷ rs) r h e =
    let ih = record_uses-get port j family excluding rs r in
    elim (Bool-cases (k == j)) [
      | inl here ↦ let same : x ≡ r = ground arith in rw (← same) (ground arith)
      | inr other ↦ ih (ground arith) (ground arith)
    ]

listener_uses-get :
    (port j : ℕ) (family : AddressFamily) (excluding : Option SocketIdentity)
    (ls : Map ListenerRecord) (l : ListenerRecord)
    → listener_uses port family excluding ls ≡ false
    → get j ls ≡ some l
    → (not (is_identity l.identity excluding)
        && (family_matches family (l.local).addr && (l.local).port == port))
      ≡ false
unfolding listener_uses get
listener_uses-get port j family excluding [] l h e = absurd (cc)
listener_uses-get port j family excluding ((k, x) ∷ ls) l h e =
    let ih = listener_uses-get port j family excluding ls l in
    elim (Bool-cases (k == j)) [
      | inl here ↦ let same : x ≡ l = ground arith in rw (← same) (ground arith)
      | inr other ↦ ih (ground arith) (ground arith)
    ]

pub tcp_record-ok :
    (identity : SocketIdentity) (s : StackSockets) (r : TcpRecord)
    → tcp_record identity s ≡ ok r
    → (get identity.id s.tcp_records ≡ some r)
      × (is_identity r.identity (some identity) ≡ true)
      × (is_listener identity (get identity.id s.tcp_listeners) ≡ false)
unfolding tcp_record of_identity
tcp_record-ok identity s r h = (ground arith, ground arith, ground arith)

family_eq_symm : (a b : AddressFamily) → family_eq a b ≡ family_eq b a
family_eq_symm inet inet = refl
family_eq_symm inet inet6 = refl
family_eq_symm inet6 inet = refl
family_eq_symm inet6 inet6 = refl

pub clashes_symm : (a b : TcpRecord) → clashes a b ≡ clashes b a
clashes_symm a b = elim (Option-cases a.local) [
  | inl n ↦ elim (Option-cases b.local) [
    | inl m ↦ rw (n, m) (ground arith)
    | inr (y, m) ↦ rw (n, m) (ground arith)
  ]
  | inr (x, n) ↦ elim (Option-cases b.local) [
    | inl m ↦ rw (n, m) (ground arith)
    | inr (y, m) ↦ rw (n, m) (rw (family_eq_symm a.family b.family) (ground arith))
  ]
]

module _ (identity : SocketIdentity) (e : ValidatedEndpoint) (port : ℕ) (s : StackSockets)
    (r : TcpRecord) (u : IsUnshared s) (known : tcp_record identity s ≡ ok r)
    (free : port_in_use port r.family (some identity) s ≡ false) where
  -- The record that is bound clashes with no other record, and with no listener.
  bound_record-clashes :
      (j : ℕ) (b : TcpRecord)
      → get j s.tcp_records ≡ some b
      → (identity.id == j) ≡ false
      → clashes (bound_record e port r) b ≡ false
  unfolding port_in_use has_port
  bound_record-clashes j b h ne =
      let uses = record_uses-get port j r.family (some identity) s.tcp_records b (ground arith) h in
      let key = u.keyed j b h in
      elim (Option-cases b.local) [
        | inl n ↦ rw n (ground arith)
        | inr (y, n) ↦ let uses' = rw n at uses in rw n (ground arith)
      ]

  bound_record-clashes_listener :
      (j : ℕ) (l : ListenerRecord)
      → get j s.tcp_listeners ≡ some l
      → clashes_listener (bound_record e port r) l ≡ false
  unfolding port_in_use has_port is_listener
  bound_record-clashes_listener j l h =
      let uses =
        listener_uses-get port j r.family (some identity) s.tcp_listeners l (ground arith) h in
      let key = u.listeners_keyed j l h in
      let (stored, own, unlisted) = tcp_record-ok identity s r known in
      elim (Bool-cases (identity.id == j)) [
        | inr other ↦ ground arith
        | inl here ↦
            let at_id : get identity.id s.tcp_listeners ≡ some l = ground arith in
            let mine : is_listener identity (some l) ≡ false = rw at_id at unlisted in ground arith
      ]

  -- What the records hold after the write.
  written :
      (j : ℕ) (b : TcpRecord)
      → get j (map_write identity.id (bound_record e port r) s.tcp_records) ≡ some b
      → ((identity.id ≡ j) × (bound_record e port r ≡ b))
        ⊎ (((identity.id == j) ≡ false) × (get j s.tcp_records ≡ some b))
  written j b h =
      let stored = (tcp_record-ok identity s r known).0 in
      let at = get-write identity.id j (bound_record e port r) r s.tcp_records stored in
      elim (Bool-cases (identity.id == j)) [
        | inl here ↦ inl (ground arith, ground arith)
        | inr other ↦ inr (other, ground arith)
      ]

  write_bound-IsUnshared : IsUnshared (write_bound identity e port s).1
  unfolding write_bound
  write_bound-IsUnshared =
      let stored = (tcp_record-ok identity s r known).0 in
      rw (known, write_bound)
        (record {
          keyed = λ j b h. elim (written j b h) [
            | inl (here, same) ↦ rw (← same) (rw (← here) (u.keyed identity.id r stored))
            | inr (other, k) ↦ u.keyed j b k
          ];
          listeners_keyed = u.listeners_keyed;
          records = λ i j a b h k ne. elim (written i a h) [
            | inl (here, same) ↦ elim (written j b k) [
              | inl (here', same') ↦ absurd (ground arith)
              | inr (other, k') ↦ rw (← same) (bound_record-clashes j b k' other)
            ]
            | inr (other, h') ↦ elim (written j b k) [
              | inl (here', same') ↦
                  rw (clashes_symm a b, ← same') (bound_record-clashes i a h' other)
              | inr (other', k') ↦ u.records i j a b h' k' ne
            ]
          ];
          listeners = λ i j a l h k. elim (written i a h) [
            | inl (here, same) ↦ rw (← same) (bound_record-clashes_listener j l k)
            | inr (other, h') ↦ u.listeners i j a l h' k
          ];
        })

may_bind-known :
    (wire : Wire) (has_ip_address : IpAddress → Bool) (identity : SocketIdentity)
    (endpoint : TcpEndpoint) (s : StackSockets) (e : ValidatedEndpoint) (r : TcpRecord)
    → may_bind wire has_ip_address identity endpoint s ≡ ok (e, r)
    → tcp_record identity s ≡ ok r
unfolding may_bind
may_bind-known wire has_ip_address identity endpoint s e r h = ground arith

abbrev pub moved : ℕ → StackSockets → StackSockets
moved n s = record s { next_ephemeral_port = n }

moved-IsUnshared : (n : ℕ) (s : StackSockets) → IsUnshared s → IsUnshared (moved n s)
moved-IsUnshared n s u = record {
  keyed = u.keyed;
  listeners_keyed = u.listeners_keyed;
  records = u.records;
  listeners = u.listeners;
}

allocate_ephemeral_port-moved :
    (family : AddressFamily) (s : StackSockets)
    → (n : ℕ) × ((allocate_ephemeral_port family s).1 ≡ moved n s)
unfolding allocate_ephemeral_port
allocate_ephemeral_port-moved family s =
    elim (Result-cases (
      allocate_ephemeral
        (record_ports family s.tcp_records ++ listener_ports family s.tcp_listeners)
        s.next_ephemeral_port ephemeral_port_first ephemeral_port_last)) [
          | inl (p, e) ↦ rw (e, allocate_ephemeral_port) (next_port p, refl)
          | inr (x, e) ↦ rw (e, allocate_ephemeral_port) (s.next_ephemeral_port, refl)
        ]

-- A port that is picked is free, and only the next ephemeral port changes.
pub pick_port_free :
    (identity : SocketIdentity) (port : ℕ) (family : AddressFamily) (s : StackSockets)
    → (n : ℕ) × ((pick_port identity port family s).1 ≡ moved n s)
      × ((p : ℕ)
          → (pick_port identity port family s).0 ≡ ok p
          → port_in_use p family (some identity) s ≡ false)
unfolding pick_port
pick_port_free identity port family s = elim (Bool-cases (port == 0)) [
  | inl any ↦
      let (n, m) = allocate_ephemeral_port-moved family s in
      rw any (n, m, λ p h. (allocate_ephemeral_port-unused family s p h).2 (some identity))
  | inr given ↦ elim (Bool-cases (port_in_use port family (some identity) s)) [
    | inl used ↦ rw (given, used) (s.next_ephemeral_port, refl, λ p h. absurd (cc))
    | inr free ↦
        rw (given, free)
          (s.next_ephemeral_port, refl, λ p h. let same : port ≡ p = cc in rw (← same) free)
  ]
]

-- Binding a TCP socket, whether it succeeds or not, keeps it so that no two sockets that were not
-- accepted, and no such socket and listener, of one family have the same local port.
pub tcp_bind-IsUnshared :
    (wire : Wire) (has_ip_address : IpAddress → Bool) (identity : SocketIdentity)
    (endpoint : TcpEndpoint) (s : StackSockets)
    → IsUnshared s
    → IsUnshared (tcp_bind wire has_ip_address identity endpoint s).1
unfolding tcp_bind
tcp_bind-IsUnshared wire has_ip_address identity endpoint s u =
    elim (Result-cases (may_bind wire has_ip_address identity endpoint s)) [
      | inr (x, m) ↦ rw (m, tcp_bind) u
      | inl ((e, r), m) ↦
          let known = may_bind-known wire has_ip_address identity endpoint s e r m in
          let (n, after, free) = pick_port_free identity e.port r.family s in
          elim (Result-cases (pick_port identity e.port r.family s).0) [
            | inr (x, p) ↦ rw (m, tcp_bind) (rw (p, tcp_bind) (rw after (moved-IsUnshared n s u)))
            | inl (p, q) ↦
                rw (m, tcp_bind)
                  (rw (q, tcp_bind)
                    (rw after (
                      write_bound-IsUnshared identity e p (moved n s) r (moved-IsUnshared n s u)
                        (unfold tcp_record in known) (unfold port_in_use in free p q))))
          ]
    ]
