-- ===== src/Device/Queue.antt =====
-- native/smolnet_core/src/device.rs: the queues keep their order and their counts.
use smolnet.Prelude.{
  ℕ, suc, ◌+◌, ◌≤◌, ◌<◌, ◌≡◌, ◌⊎◌, refl, ap, Bool, true, false, Option, none, some, List, [], ◌∷◌,
  ◌++◌, arith, length, length-append,
}
use smolnet.Device.{
  Packet, BeamDevice, usize_max, EgressCredit, take_loop, take_transmit, packets_credit,
  bytes_credit, enqueue_receive_batch, discard_one, discard_from, consume, for_transmit,
}

-- The bytes of a queue.
unfoldable pub total_bytes : List Packet → ℕ
total_bytes [] = 0
total_bytes (p ∷ ps) = length p + total_bytes ps

pub total_bytes-append :
    (ps qs : List Packet) → total_bytes (ps ++ qs) ≡ total_bytes ps + total_bytes qs
unfolding total_bytes
total_bytes-append [] qs = omega arith
total_bytes-append (p ∷ ps) qs = omega (arith, total_bytes-append ps qs)

-- The counter of queued bytes is the bytes queued.
abbrev pub IsCounted : BeamDevice → Type 0
IsCounted d = d.transmit_bytes ≡ total_bytes d.transmit

pub packets_credit-le : (c : Option EgressCredit) (n : ℕ) → packets_credit c n ≤ n
packets_credit-le none n = omega arith
packets_credit-le (some c) n = omega arith

pub bytes_credit-le : (c : Option EgressCredit) (n : ℕ) → bytes_credit c n ≤ n
bytes_credit-le none n = omega arith
bytes_credit-le (some c) n = omega arith

module _ {ℓ} {B : Type ℓ} (checkpoint : B → Bool × B) where
  pub take_loop-split :
      (packet_limit byte_limit count bytes : ℕ) (ps : List Packet) (b : B)
      → ((take_loop checkpoint packet_limit byte_limit count bytes ps b).packets
            ++ (take_loop checkpoint packet_limit byte_limit count bytes ps b).left
          ≡ ps)
        × ((take_loop checkpoint packet_limit byte_limit count bytes ps b).bytes
            ≡ bytes
              + total_bytes (take_loop checkpoint packet_limit byte_limit count bytes ps b).packets)
  unfolding take_loop total_bytes
  take_loop-split packet_limit byte_limit count bytes [] b = (refl, omega arith)
  take_loop-split packet_limit byte_limit count bytes (p ∷ ps) b =
      let ih =
        take_loop-split packet_limit byte_limit (suc count) (bytes + length p) ps
          (checkpoint b).1 in
      ground (arith, ih)

  pub take_loop-limits :
      (packet_limit byte_limit count bytes : ℕ) (ps : List Packet) (b : B)
      → count ≤ packet_limit
      → bytes ≤ byte_limit
      → (count + length (take_loop checkpoint packet_limit byte_limit count bytes ps b).packets
          ≤ packet_limit)
        × ((take_loop checkpoint packet_limit byte_limit count bytes ps b).bytes ≤ byte_limit)
  unfolding take_loop
  take_loop-limits packet_limit byte_limit count bytes [] b h k = (omega arith, omega arith)
  take_loop-limits packet_limit byte_limit count bytes (p ∷ ps) b h k = ground (
    arith,
    take_loop-limits packet_limit byte_limit (suc count) (bytes + length p) ps (checkpoint b).1,
  )

  -- Where the counter of queued bytes is right, a call takes the first packets of the transmit queue, in their order, and leaves the rest: at most
  -- `packet_limit` packets and `byte_limit` bytes. The counter stays right.
  pub take_transmit-split :
      (packet_limit byte_limit : ℕ) (d : BeamDevice) (b : B)
      → IsCounted d
      → ((take_transmit checkpoint packet_limit byte_limit d b).0
            ++ (take_transmit checkpoint packet_limit byte_limit d b).1.transmit
          ≡ d.transmit)
        × (length (take_transmit checkpoint packet_limit byte_limit d b).0 ≤ packet_limit)
        × (total_bytes (take_transmit checkpoint packet_limit byte_limit d b).0 ≤ byte_limit)
        × IsCounted (take_transmit checkpoint packet_limit byte_limit d b).1
  unfolding take_transmit
  take_transmit-split packet_limit byte_limit d b c =
      let pl = packets_credit d.credit packet_limit in
      let bl = bytes_credit d.credit byte_limit in
      let s = take_loop-split pl bl 0 0 d.transmit b in
      let l = take_loop-limits pl bl 0 0 d.transmit b (omega arith) (omega arith) in
      let t = take_loop checkpoint pl bl 0 0 d.transmit b in
      (
        s.0,
        omega (arith, l.0, packets_credit-le d.credit packet_limit),
        omega (arith, l.1, s.1, bytes_credit-le d.credit byte_limit),
        omega (arith, s.1, c, ap total_bytes s.0, total_bytes-append t.packets t.left),
      )

-- Where the receive queue is within its limit it stays so: a batch joins the end of it whole, or is
-- refused and the device is as it was. It is refused only where the queue with it would be longer than
-- the limit, or than a machine word counts.
pub enqueue_receive_batch-queue :
    (ps : List Packet) (d : BeamDevice)
    → length d.receive ≤ d.receive_limit
    → (length (enqueue_receive_batch ps d).1.receive ≤ d.receive_limit)
      × ((enqueue_receive_batch ps d).0 ≡ true
          → (enqueue_receive_batch ps d).1.receive ≡ d.receive ++ ps)
      × ((enqueue_receive_batch ps d).0 ≡ false → (enqueue_receive_batch ps d).1 ≡ d)
      × ((enqueue_receive_batch ps d).0 ≡ false
          → (d.receive_limit < length d.receive + length ps)
            ⊎ (usize_max < length d.receive + length ps))
unfolding enqueue_receive_batch
enqueue_receive_batch-queue ps d h = (
  ground (arith, length-append d.receive ps),
  λ p. ground arith,
  λ p. ground arith,
  λ p. ground arith,
)

-- A frame that smoltcp writes joins the end of the transmit queue, and the counter of bytes follows.
pub consume-IsCounted {ℓ} :
    {R : Type ℓ} (memory : List ℕ) (size : ℕ) (operation : Packet → R × Packet) (d : BeamDevice)
    → IsCounted d
    → IsCounted (consume memory size operation d).1
unfolding consume total_bytes
consume-IsCounted memory size operation d c =
    omega (arith, c, total_bytes-append d.transmit ((operation (for_transmit memory size)).1 ∷ []))

-- Where the counter of bytes is right it stays so when a packet is discarded. A discard that reports
-- progress leaves one packet less, and one that reports none found both queues empty.
pub discard_one-progress :
    (d : BeamDevice)
    → IsCounted d
    → IsCounted (discard_one d).1
      × ((discard_one d).0 ≡ true
          → length (discard_one d).1.receive + length (discard_one d).1.transmit + 1
            ≡ length d.receive + length d.transmit)
      × ((discard_one d).0 ≡ false → (d.receive ≡ []) × (d.transmit ≡ []))
unfolding discard_one total_bytes
discard_one-progress d c = discarded d.receive d.transmit d c refl refl
  where
    discarded :
        (rs ts : List Packet) (d : BeamDevice)
        → IsCounted d
        → d.receive ≡ rs
        → d.transmit ≡ ts
        → IsCounted (discard_from rs ts d).1
          × ((discard_from rs ts d).0 ≡ true
              → length (discard_from rs ts d).1.receive
                  + length (discard_from rs ts d).1.transmit
                  + 1
                ≡ length rs + length ts)
          × ((discard_from rs ts d).0 ≡ false → (rs ≡ []) × (ts ≡ []))
    discarded (r ∷ rs) ts d c p q = (c, λ e. omega (arith, ap length q), λ e. cc)
    discarded [] (t ∷ ts) d c p q =
        (omega (arith, c, ap total_bytes q), λ e. omega (arith, ap length p), λ e. cc)
    discarded [] [] d c p q = (c, λ e. cc, λ e. (refl, refl))
