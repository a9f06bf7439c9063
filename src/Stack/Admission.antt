-- ===== src/Stack/Admission.antt =====
-- native/smolnet_core/src/stack.rs: what `ingress_batch` checks and counts before it drives the stack.
use smolnet.Prelude.{
  All, ℕ, ◌+◌, ◌≤◌, ◌≡◌, ◌↔◌, refl, Bool, true, false, not, List, [], ◌∷◌, ltb, leb, if◌then◌else◌,
  length, arith, Bool-cases, inl, inr, ◌⊎◌,
}
use smolnet.Prelude.Result.{Result, ok, err, Result-cases}
use smolnet.Limits.{Limits}
use smolnet.Device.{BeamDevice, receive_fits}
use smolnet.Device.Queue.{total_bytes}
use smolnet.Stack.Config.{
  StackError, closed, batch_too_large, invalid_packet, ownership_invariant_violation,
}
use smolnet.Stack.Packet.{Parser, validate_packet, validate_raw_packet, validate_raw_packet-nil}

-- The loop of `ingress_batch` over its packets: the bytes copied so far, and the count of rejections.
unfoldable pub copy_bytes : Parser → ℕ → ℕ → List (List ℕ) → ℕ → ℕ → Result StackError ℕ × ℕ
copy_bytes parser mtu limit [] copied rejected = (ok copied, rejected)
copy_bytes parser mtu limit (p ∷ ps) copied rejected =
    let (result, rejected') = validate_packet parser p mtu limit rejected in
    let rest = copy_bytes parser mtu limit ps (copied + length p) rejected' in
    elim result [
      | err e ↦ (err e, rejected')
      | ok u ↦ if leb (copied + length p) limit then rest else (err batch_too_large, rejected')
    ]

-- What `ingress_batch` checks and counts before it drives the stack. The last two arguments are the
-- counts of rejected packets and of ingress packets; the result on success is the bytes to copy.
unfoldable pub admit_batch :
    Parser → Limits → ℕ → Bool → BeamDevice → List (List ℕ) → ℕ → ℕ → Result StackError ℕ × ℕ × ℕ
admit_batch parser limits mtu running device packets rejected ingress =
    let (copied, rejected') = copy_bytes parser mtu limits.bytes_copied packets 0 rejected in
    if not running
    then (err closed, rejected, ingress)
    else if ltb limits.input_packets (length packets)
    then (err batch_too_large, rejected, ingress)
    else elim copied [
      | err e ↦ (err e, rejected', ingress)
      | ok total ↦
          if not (receive_fits (length packets) device)
          then (err ownership_invariant_violation, rejected', ingress)
          else (ok total, rejected', ingress + length packets)
    ]

validate_packet-ok :
    (parser : Parser) (p : List ℕ) (mtu limit rejected : ℕ)
    → ((validate_packet parser p mtu limit rejected ≡ (ok tt, rejected))
        × (validate_raw_packet parser p mtu limit ≡ ok tt))
      ⊎ ((e : StackError) × (validate_packet parser p mtu limit rejected ≡ (err e, rejected + 1))
          × (validate_raw_packet parser p mtu limit ≡ err e))
unfolding validate_packet
validate_packet-ok parser [] mtu limit rejected =
    inr (invalid_packet, refl, validate_raw_packet-nil parser mtu limit)
validate_packet-ok parser (b ∷ bs) mtu limit rejected =
    elim (Result-cases (validate_raw_packet parser (b ∷ bs) mtu limit)) [
      | inl (tt, e) ↦ inl (rw e refl, e)
      | inr (x, e) ↦ inr (x, rw e refl, e)
    ]

copy_bytes-ok :
    (parser : Parser) (mtu limit : ℕ) (packets : List (List ℕ)) (copied rejected total r : ℕ)
    → copied ≤ limit
    → (copy_bytes parser mtu limit packets copied rejected ≡ (ok total, r)) ↔ (
        (r ≡ rejected)
        × (total ≡ copied + total_bytes packets)
        × (total ≤ limit)
        × All (λ p. validate_raw_packet parser p mtu limit ≡ ok tt) packets)
unfolding copy_bytes total_bytes
copy_bytes-ok parser mtu limit [] copied rejected total r h = (
  λ e. let t : copied ≡ total = cc in (cc, omega arith, omega arith, tt),
  λ (a, b, c, d). let t : copied ≡ total = omega arith in cc,
)
copy_bytes-ok parser mtu limit (p ∷ ps) copied rejected total r h =
    elim (validate_packet-ok parser p mtu limit rejected) [
      | inr (x, e, v) ↦ rw (e, copy_bytes) (λ q. absurd (cc), λ (a, b, c, (d, rest)). absurd (cc))
      | inl (e, v) ↦ elim (Bool-cases (leb (copied + length p) limit)) [
        | inr over ↦
            rw (e, copy_bytes, over)
              (λ q. absurd (cc), λ (a, b, c, (d, rest)). absurd (ground arith))
        | inl within ↦
            let v' = (validate_packet parser p mtu limit rejected).1 in
            let same : v' ≡ rejected = rw e refl in
            let ih =
              copy_bytes-ok parser mtu limit ps (copied + length p) v' total r (ground arith) in
            rw (e, copy_bytes, within)
              (
                λ q. let (a, b, c, d) = ih.0 q in (omega arith, omega arith, c, (v, d)),
                λ (a, b, c, (d, rest)). ih.1 (omega arith, omega arith, c, rest),
              )
      ]
    ]

-- A batch is taken, with its bytes as the result and its packets counted, exactly when the stack runs,
-- the batch has no more packets than the limit, every packet is one that is let in, the bytes of them
-- all fit the copy limit and the packets fit the receive queue; no rejected packet is counted then.
pub admit_batch-ok :
    (parser : Parser) (limits : Limits) (mtu : ℕ) (running : Bool) (device : BeamDevice)
    (packets : List (List ℕ)) (rejected ingress total r i : ℕ)
    → (admit_batch parser limits mtu running device packets rejected ingress ≡ (ok total, r, i)) ↔ (
        (running ≡ true)
        × (length packets ≤ limits.input_packets)
        × All (λ p. validate_raw_packet parser p mtu limits.bytes_copied ≡ ok tt) packets
        × (total ≡ total_bytes packets)
        × (total ≤ limits.bytes_copied)
        × (receive_fits (length packets) device ≡ true)
        × (r ≡ rejected)
        × (i ≡ ingress + length packets))
unfolding admit_batch
admit_batch-ok parser limits mtu false device packets rejected ingress total r i =
    (λ q. absurd (cc), λ h. let no = h.0 in absurd (cc))
admit_batch-ok parser limits mtu true device packets rejected ingress total r i =
    let c = copy_bytes parser mtu limits.bytes_copied packets 0 rejected in
    elim (Bool-cases (ltb limits.input_packets (length packets))) [
      | inl many ↦ rw many (λ q. absurd (cc), λ h. let few = h.1 in absurd (ground arith))
      | inr few ↦ elim (Result-cases c.0) [
        | inr (x, e) ↦
            rw (few, e)
              (
                λ q. absurd (cc),
                λ h.
                    let taken : c ≡ (ok total, rejected) =
                      (copy_bytes-ok parser mtu limits.bytes_copied packets 0 rejected total
                          rejected (omega arith)).1
                        (refl, omega (arith, h.3), h.4, h.2) in
                    absurd (cc),
              )
        | inl (t, e) ↦
            let copied =
              copy_bytes-ok parser mtu limits.bytes_copied packets 0 rejected t c.1 (omega arith) in
            let known = copied.0 (rw (← e) refl) in
            elim (Bool-cases (receive_fits (length packets) device)) [
              | inr full ↦ rw (few, e, full) (λ q. absurd (cc), λ h. let fits = h.5 in absurd (cc))
              | inl fits ↦
                  rw (few, e, fits)
                    (
                      λ q.
                          let same : t ≡ total = cc in
                          let kept : c.1 ≡ r = cc in
                          let counted : ingress + length packets ≡ i = cc in
                          (
                            refl,
                            ground arith,
                            known.3,
                            omega (arith, known),
                            omega (arith, known),
                            refl,
                            omega (arith, known),
                            omega arith,
                          ),
                      λ h.
                          let same : t ≡ total = omega (arith, h.3, known) in
                          let kept : c.1 ≡ r = omega (arith, h.6, known) in
                          let counted : ingress + length packets ≡ i = omega (arith, h.7) in cc,
                    )
            ]
      ]
    ]
