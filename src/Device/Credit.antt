-- ===== src/Device/Credit.antt =====
-- native/smolnet_core/src/device.rs: egress credit is spent packet for packet and byte for byte.
use smolnet.Prelude.{
  ℕ, ◌+◌, ◌-◌, ◌≤◌, ◌<◌, ◌≡◌, refl, ap, ◌≢◌, inl, inr, Bool, true, some, List, [], ◌∷◌, arith, min,
  length, length-append, Option-cases,
}
use smolnet.Device.{
  Packet, BeamDevice, EgressCredit, take_loop, take_transmit, usize_max, transmit_credit_available,
  transmit_ready, head_ready, front_ready,
}
use smolnet.Device.Queue.{
  total_bytes, total_bytes-append, IsCounted, take_loop-split, take_loop-limits,
}

module _ {ℓ} {B : Type ℓ} (checkpoint : B → Bool × B) where
  -- On limited egress a call never takes more than the credit holds, and the credit falls by exactly
  -- the packets and the bytes that it takes.
  pub take_transmit-credit :
      (packet_limit byte_limit : ℕ) (d : BeamDevice) (b : B) (c : EgressCredit)
      → d.credit ≡ some c
      → (c' : EgressCredit) × ((take_transmit checkpoint packet_limit byte_limit d b).1.credit
          ≡ some c')
        × (c'.packets + length (take_transmit checkpoint packet_limit byte_limit d b).0 ≡ c.packets)
        × (c'.bytes + total_bytes (take_transmit checkpoint packet_limit byte_limit d b).0
            ≡ c.bytes)
  unfolding take_transmit
  take_transmit-credit packet_limit byte_limit d b c h =
      let pl = min packet_limit c.packets in
      let bl = min byte_limit c.bytes in
      let s = take_loop-split checkpoint pl bl 0 0 d.transmit b in
      let l = take_loop-limits checkpoint pl bl 0 0 d.transmit b (omega arith) (omega arith) in
      let t = take_loop checkpoint pl bl 0 0 d.transmit b in
      rw h (
        record { packets = c.packets - length t.packets; bytes = c.bytes - t.bytes },
        refl,
        omega (arith, l.0),
        omega (arith, l.1, s.1),
      )

  -- Where the counter of queued bytes is right, taking packets does not change whether the transmit queue may grow within the credit.
  pub transmit_credit_available-take_transmit :
      (packet_limit byte_limit : ℕ) (d : BeamDevice) (b : B)
      → IsCounted d
      → transmit_credit_available (take_transmit checkpoint packet_limit byte_limit d b).1
        ≡ transmit_credit_available d
  unfolding transmit_credit_available take_transmit
  transmit_credit_available-take_transmit packet_limit byte_limit d b h =
      elim (Option-cases d.credit) [
        | inl n ↦ rw n
        | inr (c, m) ↦
            let pl = min packet_limit c.packets in
            let bl = min byte_limit c.bytes in
            let s = take_loop-split checkpoint pl bl 0 0 d.transmit b in
            let l =
              take_loop-limits checkpoint pl bl 0 0 d.transmit b (omega arith) (omega arith) in
            let t = take_loop checkpoint pl bl 0 0 d.transmit b in
            let queued : length d.transmit ≡ length t.packets + length t.left =
              omega (arith, ap length s.0, length-append t.packets t.left) in
            let counted : d.transmit_bytes ≡ t.bytes + total_bytes t.left =
              omega (arith, h, s.1, ap total_bytes s.0, total_bytes-append t.packets t.left) in
            rw m (ground (arith, l, queued, counted))
      ]

  -- A packet that is ready goes out: where the front packet fits the credit, the byte limit and
  -- 64 bits, and the packet limit and the budget allow one, a call takes at least one.
  pub transmit_ready-take_transmit :
      (packet_limit byte_limit : ℕ) (d : BeamDevice) (b : B) (p : Packet) (ps : List Packet)
      → d.transmit ≡ p ∷ ps
      → transmit_ready d ≡ true
      → 0 < packet_limit
      → length p ≤ byte_limit
      → length p ≤ usize_max
      → (checkpoint b).0 ≡ true
      → (take_transmit checkpoint packet_limit byte_limit d b).0 ≢ []
  unfolding take_transmit transmit_ready head_ready take_loop
  transmit_ready-take_transmit packet_limit byte_limit d b p ps q r h k u go =
      let ready : front_ready p d.credit ≡ true = rw q at r in
      elim (Option-cases d.credit) [
        | inl n ↦ rw (q, n) (ground arith)
        | inr (c, m) ↦ let ready' = rw m at ready in rw (q, m) (ground arith)
      ]
