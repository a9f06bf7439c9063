-- ===== src/Device/History.antt =====
-- native/smolnet_core/src/device.rs: what leaves the device over a history of calls. `Link` holds the
-- device, and what has been granted to it and taken from it so far.
use smolnet.Prelude.{ℕ, ◌+◌, ◌≤◌, ◌≡◌, refl, Bool, some, List, [], ◌∷◌, arith, length}
use smolnet.Device.{
  Packet, BeamDevice, EgressCredit, take_transmit, grant_egress, begin_call, enqueue_receive_batch,
  return_receive, device_receive, discard_one, consume, pop_receive,
}
use smolnet.Device.Queue.{total_bytes}
use smolnet.Device.Credit.{take_transmit-credit}

-- The calls on a device, with what a frame's memory held and what smoltcp wrote into it.
pub data Event (B : Type 0) : Type 0 where
  grants : ℕ → ℕ → Event B
  begins : ℕ → Event B
  batches : List Packet → Event B
  receives : Event B
  returns : Packet → Event B
  frames : List ℕ → ℕ → (Packet → Packet) → Event B
  takes : (B → Bool × B) → B → ℕ → ℕ → Event B
  discards : Event B

pub record Link : Type 0 where
  pub device : BeamDevice
  pub granted_packets : ℕ
  pub granted_bytes : ℕ
  pub taken_packets : ℕ
  pub taken_bytes : ℕ

abbrev pub opened : BeamDevice → Link
opened d = record {
  device = d;
  granted_packets = 0;
  granted_bytes = 0;
  taken_packets = 0;
  taken_bytes = 0;
}

unfoldable pub step : {B : Type 0} → Event B → Link → Link
step (grants p b) l = record l {
  device = (grant_egress p b l.device).1;
  granted_packets = l.granted_packets + p;
  granted_bytes = l.granted_bytes + b;
}
step (begins limit) l = record l { device = begin_call limit l.device }
step (batches ps) l = record l { device = (enqueue_receive_batch ps l.device).1 }
step receives l = record l { device = (device_receive l.device).1 }
step (returns p) l = record l { device = return_receive p l.device }
step (frames memory size operation) l = record l {
  device = (consume {R = Unit {0}} memory size (λ p. (tt, operation p)) l.device).1;
}
step (takes checkpoint b packet_limit byte_limit) l =
    let t = take_transmit checkpoint packet_limit byte_limit l.device b in
    record l {
      device = t.1;
      taken_packets = l.taken_packets + length t.0;
      taken_bytes = l.taken_bytes + total_bytes t.0;
    }
step discards l = record l { device = (discard_one l.device).1 }

unfoldable pub run : {B : Type 0} → List (Event B) → Link → Link
run [] l = l
run (e ∷ es) l = run es (step e l)

-- The credit left, with all that was taken, is at most `packets` and `bytes` and all that was granted.
abbrev pub IsFunded : ℕ → ℕ → Link → Type 0
IsFunded packets bytes l =
    (c : EgressCredit) × (l.device.credit ≡ some c)
    × (c.packets + l.taken_packets ≤ packets + l.granted_packets)
    × (c.bytes + l.taken_bytes ≤ bytes + l.granted_bytes)

step-IsFunded :
    {B : Type 0} (packets bytes : ℕ) (e : Event B) (l : Link)
    → IsFunded packets bytes l
    → IsFunded packets bytes (step e l)
unfolding step grant_egress begin_call enqueue_receive_batch device_receive pop_receive
    return_receive consume discard_one
step-IsFunded packets bytes (grants p b) l (c, h, x, y) = rw h (_, refl, omega arith, omega arith)
step-IsFunded packets bytes (begins limit) l f = f
step-IsFunded packets bytes (batches ps) l (c, h, x, y) = (c, ground arith, x, y)
step-IsFunded packets bytes receives l (c, h, x, y) = (c, ground arith, x, y)
step-IsFunded packets bytes (returns p) l f = f
step-IsFunded packets bytes (frames memory size operation) l f = f
step-IsFunded packets bytes (takes checkpoint b packet_limit byte_limit) l (c, h, x, y) =
    let (c', e, p, q) = take_transmit-credit checkpoint packet_limit byte_limit l.device b c h in
    (c', e, omega arith, omega arith)
step-IsFunded packets bytes discards l (c, h, x, y) = (c, ground arith, x, y)

run-IsFunded :
    {B : Type 0} (packets bytes : ℕ) (es : List (Event B)) (l : Link)
    → IsFunded packets bytes l
    → IsFunded packets bytes (run es l)
unfolding run
run-IsFunded packets bytes [] l f = f
run-IsFunded packets bytes (e ∷ es) l f =
    run-IsFunded packets bytes es (step e l) (step-IsFunded packets bytes e l f)

-- A device with limited egress never hands out more packets or bytes than its first credit and all that
-- was granted since, whatever smoltcp queues and in whatever order the calls come.
pub taken-le-granted :
    {B : Type 0} (es : List (Event B)) (d : BeamDevice) (c : EgressCredit)
    → d.credit ≡ some c
    → ((run es (opened d)).taken_packets ≤ c.packets + (run es (opened d)).granted_packets)
      × ((run es (opened d)).taken_bytes ≤ c.bytes + (run es (opened d)).granted_bytes)
taken-le-granted es d c h =
    let f = run-IsFunded c.packets c.bytes es (opened d) (c, h, omega arith, omega arith) in
    (omega (arith, f.2), omega (arith, f.3))
