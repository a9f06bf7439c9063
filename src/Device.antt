-- ===== src/Device.antt =====
-- native/smolnet_core/src/device.rs: the packet queues between smoltcp and the link, and the egress
-- credit. A packet is its bytes. What smoltcp does with a token is an argument: a function that
-- writes the frame it is given. `memory` is what a fresh allocation holds.
pub mod Queue
pub mod Credit
pub mod History
use smolnet.Prelude.{
  ℕ, zero, suc, ◌+◌, ◌-◌, ◌^◌, Bool, true, false, not, ◌&&◌, ◌||◌, Option, none, some, List, [],
  ◌∷◌, ◌++◌, ltb, leb, ◌==◌, if◌then◌else◌, min, length, take, drop, replicate,
}

abbrev pub usize_max : ℕ
usize_max = 2 ^ 64 - 1

abbrev pub zeroed_prefix : ℕ
zeroed_prefix = 64

abbrev pub Packet : Type 0
Packet = List ℕ

-- A fresh frame of `size` bytes with its first bytes zeroed.
unfoldable pub for_transmit : List ℕ → ℕ → Packet
for_transmit memory size =
    replicate (min size zeroed_prefix) 0 ++ drop (min size zeroed_prefix) (take size memory)

pub record EgressCredit : Type 0 where
  pub packets : ℕ
  pub bytes : ℕ

pub record BeamDevice : Type 0 where
  pub mtu : ℕ
  pub receive : List Packet
  pub receive_limit : ℕ
  pub transmit : List Packet
  pub transmit_bytes : ℕ
  pub transmit_limit : ℕ
  pub credit : Option EgressCredit

unfoldable pub new : ℕ → ℕ → Option EgressCredit → BeamDevice
new mtu receive_limit credit = record {
  mtu = mtu;
  receive = [];
  receive_limit = receive_limit;
  transmit = [];
  transmit_bytes = 0;
  transmit_limit = 0;
  credit = credit;
}

abbrev pub saturating_add : ℕ → ℕ → ℕ
saturating_add a b = min (a + b) usize_max

unfoldable pub grant_egress : ℕ → ℕ → BeamDevice → Bool × BeamDevice
grant_egress packets bytes d = elim d.credit [
  | none ↦ (false, d)
  | some credit ↦ (
    true,
    record d {
      credit = some (record {
        packets = saturating_add credit.packets packets;
        bytes = saturating_add credit.bytes bytes;
      });
    },
  )
]

unfoldable pub begin_call : ℕ → BeamDevice → BeamDevice
begin_call transmit_limit d = record d { transmit_limit = transmit_limit }

-- `checked_add`, then the limit.
unfoldable pub receive_fits : ℕ → BeamDevice → Bool
receive_fits packets d =
    leb (length d.receive + packets) usize_max && leb (length d.receive + packets) d.receive_limit

-- The result is whether the batch was taken.
unfoldable pub enqueue_receive_batch : List Packet → BeamDevice → Bool × BeamDevice
unfolding receive_fits
enqueue_receive_batch packets d =
    if not (receive_fits (length packets) d)
    then (false, d)
    else (true, record d { receive = d.receive ++ packets })

unfoldable pub pop_receive : List Packet → BeamDevice → Option Packet × BeamDevice
pop_receive [] d = (none, d)
pop_receive (p ∷ ps) d = (some p, record d { receive = ps })

unfoldable pub take_receive : BeamDevice → Option Packet × BeamDevice
unfolding pop_receive
take_receive d = pop_receive d.receive d

unfoldable pub return_receive : Packet → BeamDevice → BeamDevice
return_receive p d = record d { receive = p ∷ d.receive }

-- What one call takes from the transmit queue.
pub record Taken {ℓ} (B : Type ℓ) : Type ℓ where
  pub packets : List Packet
  pub left : List Packet
  pub bytes : ℕ
  pub budget : B

-- The loop of `take_transmit`; `count` is `packets.len()` and `bytes` what they hold.
unfoldable pub take_loop {ℓ} :
    {B : Type ℓ} → (B → Bool × B) → ℕ → ℕ → ℕ → ℕ → List Packet → B → Taken B
take_loop checkpoint packet_limit byte_limit count bytes [] b = record {
  packets = [];
  left = [];
  bytes = bytes;
  budget = b;
}
take_loop checkpoint packet_limit byte_limit count bytes (p ∷ ps) b =
    let (go, b') = checkpoint b in
    let next_bytes = bytes + length p in
    let rest = take_loop checkpoint packet_limit byte_limit (suc count) next_bytes ps b' in
    if not (ltb count packet_limit)
    then record { packets = []; left = p ∷ ps; bytes = bytes; budget = b }
    else if ltb usize_max next_bytes || ltb byte_limit next_bytes
    then record { packets = []; left = p ∷ ps; bytes = bytes; budget = b }
    else if not go
    then record { packets = []; left = p ∷ ps; bytes = bytes; budget = b' }
    else record rest { packets = p ∷ rest.packets }

abbrev pub packets_credit : Option EgressCredit → ℕ → ℕ
packets_credit none limit = limit
packets_credit (some c) limit = min limit c.packets

abbrev pub bytes_credit : Option EgressCredit → ℕ → ℕ
bytes_credit none limit = limit
bytes_credit (some c) limit = min limit c.bytes

abbrev pub spend : ℕ → ℕ → Option EgressCredit → Option EgressCredit
spend packets bytes none = none
spend packets bytes (some c) =
    some (record { packets = c.packets - packets; bytes = c.bytes - bytes })

unfoldable pub take_transmit {ℓ} :
    {B : Type ℓ} → (B → Bool × B) → ℕ → ℕ → BeamDevice → B → List Packet × BeamDevice × B
take_transmit checkpoint packet_limit byte_limit d b =
    let t =
      take_loop checkpoint (packets_credit d.credit packet_limit) (bytes_credit d.credit byte_limit)
        0 0 d.transmit b in
    (
      t.packets,
      record d {
        transmit = t.left;
        transmit_bytes = d.transmit_bytes - t.bytes;
        credit = spend (length t.packets) t.bytes d.credit;
      },
      t.budget,
    )

unfoldable pub transmit_credit_available : BeamDevice → Bool
transmit_credit_available d = elim d.credit [
  | none ↦ true
  | some c ↦ ltb (length d.transmit) c.packets && ltb d.transmit_bytes c.bytes
]

-- `credit.is_none_or(..)` for the packet at the front.
abbrev pub front_ready : Packet → Option EgressCredit → Bool
front_ready p none = true
front_ready p (some c) = ltb 0 c.packets && leb (length p) c.bytes

unfoldable pub head_ready : List Packet → Option EgressCredit → Bool
head_ready [] c = false
head_ready (p ∷ ps) c = front_ready p c

unfoldable pub transmit_ready : BeamDevice → Bool
unfolding head_ready
transmit_ready d = head_ready d.transmit d.credit

abbrev pub is_empty {ℓ} : {A : Type ℓ} → List A → Bool
is_empty [] = true
is_empty (x ∷ xs) = false

unfoldable pub has_receive : BeamDevice → Bool
has_receive d = not (is_empty d.receive)

unfoldable pub can_receive : BeamDevice → Bool
can_receive d = ltb (length d.transmit) d.transmit_limit

unfoldable pub queued_packets : BeamDevice → ℕ × ℕ
queued_packets d = (length d.receive, length d.transmit)

unfoldable pub discard_from : List Packet → List Packet → BeamDevice → Bool × BeamDevice
discard_from (p ∷ ps) ts d = (true, record d { receive = ps })
discard_from [] (t ∷ ts) d =
    (true, record d { transmit = ts; transmit_bytes = d.transmit_bytes - length t })
discard_from [] [] d = (false, d)

unfoldable pub discard_one : BeamDevice → Bool × BeamDevice
unfolding discard_from
discard_one d = discard_from d.receive d.transmit d

-- `BeamTxToken::consume`: a frame is allocated, written by `operation`, and queued.
unfoldable pub consume {ℓ} :
    {R : Type ℓ} → List ℕ → ℕ → (Packet → R × Packet) → BeamDevice → R × BeamDevice
unfolding for_transmit
consume memory size operation d =
    let (result, packet) = operation (for_transmit memory size) in
    (
      result,
      record d {
        transmit = d.transmit ++ packet ∷ [];
        transmit_bytes = d.transmit_bytes + length packet;
      },
    )

-- `Device::receive` of the device: the packet of the token for receiving, and the device it leaves;
-- the token for the reply is `consume` of that device.
unfoldable pub device_receive : BeamDevice → Option Packet × BeamDevice
unfolding take_receive
device_receive d = if leb d.transmit_limit (length d.transmit) then (none, d) else take_receive d

-- `Device::transmit`: whether there is a token.
unfoldable pub device_transmit : BeamDevice → Bool
unfolding transmit_credit_available
device_transmit d = ltb (length d.transmit) d.transmit_limit && transmit_credit_available d

-- `ReceiveOne`: a device, and a packet until smoltcp takes it.
pub record ReceiveOne : Type 0 where
  pub device : BeamDevice
  pub packet : Option Packet

unfoldable pub received : ReceiveOne → Bool
received one = elim one.packet [ none ↦ true | some p ↦ false ]

unfoldable pub one_receive : ReceiveOne → Option Packet × ReceiveOne
unfolding can_receive
one_receive one =
    if not (can_receive one.device) then (none, one) else (one.packet, record one { packet = none })
