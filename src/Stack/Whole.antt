-- ===== src/Stack/Whole.antt =====
-- native/smolnet_core/src/stack.rs: which packets `validate_raw_packet` lets in, said of the headers.
use smolnet.Prelude.{
  ℕ, ◌+◌, ◌/◌, ◌≤◌, ◌<◌, ◌≡◌, ◌↔◌, ◌⊎◌, refl, true, false, some, List, [], ◌∷◌, length, get_or,
  arith, inl, inr, Bool-cases, Option-cases, ◌==◌,
}
use smolnet.Prelude.Result.{ok, err}
use smolnet.Stack.Config.{invalid_packet, packet_too_large}
use smolnet.Stack.Packet.{
  Parser, Ipv4View, Ipv6View, version, ipv4_whole, ipv6_whole, whole_packet, validate_raw_packet,
}

-- One whole packet: of version 4, as long as its header says, with a good checksum and no fragment, or
-- of version 6, as long as its 40 octets of header and its payload.
abbrev pub IsWhole : Parser → List ℕ → Type 0
IsWhole parser packet =
    ((get_or packet 0 0 / 16 ≡ 4)
      × (v : Ipv4View) × (parser.ipv4_packet packet ≡ some v)
      × (v.total_len ≡ length packet)
      × (v.checksum_ok ≡ true)
      × (v.more_frags ≡ false)
      × (v.frag_offset ≡ 0))
    ⊎ ((get_or packet 0 0 / 16 ≡ 6)
        × (v : Ipv6View) × (parser.ipv6_packet packet ≡ some v)
        × (40 + v.payload_len ≡ length packet))

whole_packet_sound :
    (parser : Parser) (packet : List ℕ) → whole_packet parser packet ≡ true → IsWhole parser packet
unfolding whole_packet version ipv4_whole ipv6_whole
whole_packet_sound parser [] h = absurd (cc)
whole_packet_sound parser (b ∷ bs) h = elim (Bool-cases (b / 16 == 4)) [
  | inl four ↦ elim (Option-cases (parser.ipv4_packet (b ∷ bs))) [
    | inl n ↦ absurd (ground (arith, n))
    | inr (v, e) ↦ inl (
      ground arith,
      v,
      e,
      ground (arith, e),
      ground (arith, e),
      ground (arith, e),
      ground (arith, e),
    )
  ]
  | inr other ↦ elim (Bool-cases (b / 16 == 6)) [
    | inl six ↦ elim (Option-cases (parser.ipv6_packet (b ∷ bs))) [
      | inl n ↦ absurd (ground (arith, n))
      | inr (v, e) ↦ inr (ground arith, v, e, ground (arith, e))
    ]
    | inr neither ↦ absurd (ground arith)
  ]
]

whole_packet_complete :
    (parser : Parser) (packet : List ℕ) → IsWhole parser packet → whole_packet parser packet ≡ true
unfolding whole_packet version ipv4_whole ipv6_whole
whole_packet_complete parser [] (inl w) = absurd (omega (arith, w.0))
whole_packet_complete parser [] (inr w) = absurd (omega (arith, w.0))
whole_packet_complete parser (b ∷ bs) (inl (four, v, e, len, sum, more, offset)) =
    rw (e, whole_packet) (ground (arith, four, len, sum, more, offset))
whole_packet_complete parser (b ∷ bs) (inr (six, v, e, len)) =
    rw (e, whole_packet) (ground (arith, six, len))

whole_packet-IsWhole :
    (parser : Parser) (packet : List ℕ)
    → whole_packet parser packet ≡ false
    → ¬ IsWhole parser packet
whole_packet-IsWhole parser packet h w = let e = whole_packet_complete parser packet w in cc

-- A packet is let in exactly when it is one whole IPv4 or IPv6 packet that fits the mtu and the copy
-- limit. It is refused as invalid exactly when it is not whole, and as too large exactly when it is
-- whole and does not fit.
pub validate_raw_packet-cases :
    (parser : Parser) (packet : List ℕ) (mtu bytes_copied : ℕ)
    → ((validate_raw_packet parser packet mtu bytes_copied ≡ ok tt)
        ↔ (IsWhole parser packet × (length packet ≤ mtu) × (length packet ≤ bytes_copied)))
      × ((validate_raw_packet parser packet mtu bytes_copied ≡ err invalid_packet)
          ↔ ¬ IsWhole parser packet)
      × ((validate_raw_packet parser packet mtu bytes_copied ≡ err packet_too_large)
          ↔ (IsWhole parser packet × ((mtu < length packet) ⊎ (bytes_copied < length packet))))
unfolding validate_raw_packet whole_packet version
validate_raw_packet-cases parser [] mtu bytes_copied =
    let n = whole_packet-IsWhole parser [] refl in
    (
      (λ e. absurd (cc), λ w. absurd (n w.0)),
      (λ e. n, λ k. refl),
      (λ e. absurd (cc), λ w. absurd (n w.0)),
    )
validate_raw_packet-cases parser (b ∷ bs) mtu bytes_copied =
    elim (Bool-cases (whole_packet parser (b ∷ bs))) [
      | inl h ↦
          let w = whole_packet_sound parser (b ∷ bs) h in
          (
            (λ e. (w, ground arith, ground arith), λ e. ground (arith, h, e.1, e.2)),
            (λ e. absurd (ground arith), λ n. absurd (n w)),
            (λ e. (w, ground arith), λ e. ground (arith, h, e.1)),
          )
      | inr h ↦
          let n = whole_packet-IsWhole parser (b ∷ bs) h in
          (
            (λ e. absurd (ground arith), λ w. absurd (n w.0)),
            (λ e. n, λ k. ground arith),
            (λ e. absurd (ground arith), λ w. absurd (n w.0)),
          )
    ]
