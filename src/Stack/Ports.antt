-- ===== src/Stack/Ports.antt =====
-- native/smolnet_core/src/stack.rs: which local ports are in use, and how an ephemeral one is chosen.
use smolnet.Prelude.{
  ℕ, ◌+◌, ◌≤◌, ◌≡◌, ◌↔◌, refl, Bool, true, false, not, ◌&&◌, ◌||◌, Option, none, some, List, [],
  ◌∷◌, ◌++◌, ◌==◌, if◌then◌else◌, arith, inl, inr,
}
use smolnet.Prelude.Map.{Map}
use smolnet.Prelude.Result.{Result, ok, err, Result-cases}
use smolnet.Waiter.{SocketIdentity}
use smolnet.SocketTable.{SocketError}
use smolnet.Tcp.{
  AddressFamily, inet, inet6, family_matches, TcpRecord, ListenerRecord, IpEndpoint,
  ValidatedEndpoint, ephemeral_port_first, ephemeral_port_last,
}
use smolnet.Tcp.Ephemeral.{contains, allocate_ephemeral, allocate_ephemeral-first}
use smolnet.Udp.{UdpRecord}
use smolnet.Stack.State.{StackSockets}

abbrev pub family_eq : AddressFamily → AddressFamily → Bool
family_eq inet inet = true
family_eq inet inet6 = false
family_eq inet6 inet = false
family_eq inet6 inet6 = true

abbrev pub is_identity : SocketIdentity → Option SocketIdentity → Bool
is_identity i none = false
is_identity i (some j) = i.id == j.id && i.generation == j.generation

unfoldable pub has_port : ℕ → Option IpEndpoint → Bool
has_port port none = false
has_port port (some local) = local.port == port

unfoldable pub record_uses : ℕ → AddressFamily → Option SocketIdentity → Map TcpRecord → Bool
unfolding has_port
record_uses port family excluding [] = false
record_uses port family excluding ((k, r) ∷ rs) =
    not (is_identity r.identity excluding)
      && (family_eq r.family family && (not r.accepted && has_port port r.local))
    || record_uses port family excluding rs

unfoldable pub listener_uses : ℕ → AddressFamily → Option SocketIdentity → Map ListenerRecord → Bool
listener_uses port family excluding [] = false
listener_uses port family excluding ((k, l) ∷ ls) =
    not (is_identity l.identity excluding)
      && (family_matches family (l.local).addr && (l.local).port == port)
    || listener_uses port family excluding ls

unfoldable pub port_in_use : ℕ → AddressFamily → Option SocketIdentity → StackSockets → Bool
unfolding record_uses listener_uses
port_in_use port family excluding s =
    record_uses port family excluding s.tcp_records
    || listener_uses port family excluding s.tcp_listeners

abbrev pub push_port : Bool → Option IpEndpoint → List ℕ → List ℕ
push_port false local ports = ports
push_port true none ports = ports
push_port true (some local) ports = local.port ∷ ports

unfoldable pub record_ports : AddressFamily → Map TcpRecord → List ℕ
record_ports family [] = []
record_ports family ((k, r) ∷ rs) =
    push_port (family_eq r.family family) r.local (record_ports family rs)

unfoldable pub listener_ports : AddressFamily → Map ListenerRecord → List ℕ
listener_ports family [] = []
listener_ports family ((k, l) ∷ ls) =
    push_port (family_matches family (l.local).addr) (some l.local) (listener_ports family ls)

-- `if port == EPHEMERAL_PORT_LAST { EPHEMERAL_PORT_FIRST } else { port + 1 }`.
abbrev pub next_port : ℕ → ℕ
next_port port = if port == ephemeral_port_last then ephemeral_port_first else port + 1

unfoldable pub allocate_ephemeral_port :
    AddressFamily → StackSockets → Result SocketError ℕ × StackSockets
unfolding record_ports listener_ports
allocate_ephemeral_port family s =
    let used = record_ports family s.tcp_records ++ listener_ports family s.tcp_listeners in
    elim (allocate_ephemeral used s.next_ephemeral_port ephemeral_port_first ephemeral_port_last) [
      | err e ↦ (err e, s)
      | ok port ↦ (ok port, record s { next_ephemeral_port = next_port port })
    ]

abbrev pub endpoint_of : Option ValidatedEndpoint → Option IpEndpoint
endpoint_of none = none
endpoint_of (some e) = some (record { addr = e.address; port = e.port })

unfoldable pub udp_uses : ℕ → AddressFamily → Option SocketIdentity → Map UdpRecord → Bool
unfolding has_port
udp_uses port family excluding [] = false
udp_uses port family excluding ((k, r) ∷ rs) =
    not (is_identity r.identity excluding)
      && (family_eq r.family family && has_port port (endpoint_of r.local))
    || udp_uses port family excluding rs

unfoldable pub udp_port_in_use : ℕ → AddressFamily → Option SocketIdentity → StackSockets → Bool
udp_port_in_use port family excluding s = udp_uses port family excluding s.udp_records

unfoldable pub udp_ports : AddressFamily → Map UdpRecord → List ℕ
udp_ports family [] = []
udp_ports family ((k, r) ∷ rs) =
    push_port (family_eq r.family family) (endpoint_of r.local) (udp_ports family rs)

unfoldable pub allocate_udp_ephemeral_port :
    AddressFamily → StackSockets → Result SocketError ℕ × StackSockets
unfolding udp_ports
allocate_udp_ephemeral_port family s =
    elim (allocate_ephemeral (udp_ports family s.udp_records) s.next_udp_ephemeral_port
      ephemeral_port_first ephemeral_port_last) [
        | err e ↦ (err e, s)
        | ok port ↦ (ok port, record s { next_udp_ephemeral_port = next_port port })
      ]

contains-append :
    (xs ys : List ℕ) (n : ℕ) → contains (xs ++ ys) n ≡ (contains xs n || contains ys n)
unfolding contains
contains-append [] ys n = refl
contains-append (x ∷ xs) ys n = ground (arith, contains-append xs ys n)

contains-push_port :
    (b : Bool) (local : Option IpEndpoint) (ports : List ℕ) (n : ℕ)
    → contains (push_port b local ports) n ≡ (b && has_port n local || contains ports n)
unfolding contains has_port
contains-push_port false local ports n = refl
contains-push_port true none ports n = refl
contains-push_port true (some e) ports n = refl

-- A port that no socket of the family has is not in use by a record, whatever is excluded.
record_uses-contains :
    (port : ℕ) (family : AddressFamily) (excluding : Option SocketIdentity) (rs : Map TcpRecord)
    → contains (record_ports family rs) port ≡ false
    → record_uses port family excluding rs ≡ false
unfolding record_uses record_ports
record_uses-contains port family excluding [] h = refl
record_uses-contains port family excluding ((k, r) ∷ rs) h =
    let e = contains-push_port (family_eq r.family family) r.local (record_ports family rs) port in
    let ih = record_uses-contains port family excluding rs in ground (arith, e, ih)

listener_uses-contains :
    (port : ℕ) (family : AddressFamily) (excluding : Option SocketIdentity)
    (ls : Map ListenerRecord)
    → contains (listener_ports family ls) port ≡ false
    → listener_uses port family excluding ls ≡ false
unfolding listener_uses listener_ports has_port
listener_uses-contains port family excluding [] h = refl
listener_uses-contains port family excluding ((k, l) ∷ ls) h =
    let e =
      contains-push_port (family_matches family (l.local).addr) (some l.local)
        (listener_ports family ls) port in
    let ih = listener_uses-contains port family excluding ls in ground (arith, e, ih)

udp_uses-contains :
    (port : ℕ) (family : AddressFamily) (rs : Map UdpRecord)
    → contains (udp_ports family rs) port ≡ udp_uses port family none rs
unfolding udp_uses udp_ports contains
udp_uses-contains port family [] = refl
udp_uses-contains port family ((k, r) ∷ rs) =
    let e =
      contains-push_port (family_eq r.family family) (endpoint_of r.local) (udp_ports family rs)
        port in
    let ih = udp_uses-contains port family rs in ground (arith, e, ih)

-- A TCP port that is allocated is an ephemeral one, no record and no listener of the family uses it,
-- whichever identity is left out, and the next search starts at an ephemeral port again.
pub allocate_ephemeral_port-unused :
    (family : AddressFamily) (s : StackSockets) (port : ℕ)
    → (allocate_ephemeral_port family s).0 ≡ ok port
    → (ephemeral_port_first ≤ port)
      × (port ≤ ephemeral_port_last)
      × ((excluding : Option SocketIdentity) → port_in_use port family excluding s ≡ false)
      × (ephemeral_port_first ≤ (allocate_ephemeral_port family s).1.next_ephemeral_port)
      × ((allocate_ephemeral_port family s).1.next_ephemeral_port ≤ ephemeral_port_last)
unfolding allocate_ephemeral_port port_in_use
allocate_ephemeral_port-unused family s port h =
    let records = record_ports family s.tcp_records in
    let listeners = listener_ports family s.tcp_listeners in
    let found =
      allocate_ephemeral-first (records ++ listeners) s.next_ephemeral_port ephemeral_port_first
        ephemeral_port_last (omega arith) (omega arith) in
    elim (Result-cases (
      allocate_ephemeral (records ++ listeners) s.next_ephemeral_port ephemeral_port_first
        ephemeral_port_last)) [
          | inr (x, e) ↦ absurd (cc)
          | inl (p, e) ↦
              let same : p ≡ port = cc in
              let (lo, hi, free, o, at, before) = found.0 p e in
              let split = contains-append records listeners p in
              (
                omega arith,
                omega arith,
                λ excluding. rw (← same) (
                    rw
                      (record_uses-contains p family excluding s.tcp_records
                        (ground (arith, split)))
                      (listener_uses-contains p family excluding s.tcp_listeners
                        (ground (arith, split)))),
                rw (e, allocate_ephemeral_port) (ground arith),
                rw (e, allocate_ephemeral_port) (ground arith),
              )
        ]

-- A UDP port that is allocated is an ephemeral one that no record of the family uses, and the allocation
-- fails exactly when every ephemeral port is in use.
pub allocate_udp_ephemeral_port-unused :
    (family : AddressFamily) (s : StackSockets)
    → ((port : ℕ)
        → (allocate_udp_ephemeral_port family s).0 ≡ ok port
        → (ephemeral_port_first ≤ port)
          × (port ≤ ephemeral_port_last)
          × (udp_port_in_use port family none s ≡ false))
      × (((x : SocketError) × ((allocate_udp_ephemeral_port family s).0 ≡ err x)) ↔ (
          (port : ℕ)
          → ephemeral_port_first ≤ port
          → port ≤ ephemeral_port_last
          → udp_port_in_use port family none s ≡ true))
unfolding allocate_udp_ephemeral_port udp_port_in_use
allocate_udp_ephemeral_port-unused family s =
    let used = udp_ports family s.udp_records in
    let found =
      allocate_ephemeral-first used s.next_udp_ephemeral_port ephemeral_port_first
        ephemeral_port_last (omega arith) (omega arith) in
    elim (Result-cases (
      allocate_ephemeral used s.next_udp_ephemeral_port ephemeral_port_first ephemeral_port_last)) [
        | inr (x, e) ↦
            rw (e, allocate_udp_ephemeral_port)
              (
                λ port h. absurd (cc),
                (
                  λ h port lo hi.
                      rw (← udp_uses-contains port family s.udp_records)
                        (found.1.0 (x, e) port lo hi),
                  λ h. (x, refl),
                ),
              )
        | inl (p, e) ↦
            rw (e, allocate_udp_ephemeral_port)
              (
                λ port h.
                    let same : p ≡ port = cc in
                    let (lo, hi, free, o, at, before) = found.0 p e in
                    (
                      omega arith,
                      omega arith,
                      rw (← same) (rw (← udp_uses-contains p family s.udp_records) free),
                    ),
                (
                  λ (x, h). absurd (cc),
                  λ all.
                      let (x, h) = found.1.1 (λ port lo hi.
                        rw (udp_uses-contains port family s.udp_records) (all port lo hi)) in
                      absurd (cc),
                ),
              )
      ]
