-- ===== src/Tests/Wakes.antt =====
-- native/smolnet_core/src/{waiter,device,budget,limits,time}.rs: wakes, packets, budgets and times.
use smolnet.Prelude.{
  ℕ, zero, suc, ◌+◌, ◌-◌, ◌*◌, ◌^◌, ◌≤◌, ◌<◌, ◌≡◌, ◌≢◌, refl, ◌⊎◌, Bool, true, false, none, some,
  List, [], ◌∷◌, ◌++◌, arith, length,
}
use smolnet.Prelude.Int.{pos, negsuc, ◌+ℤ◌, ◌≤ℤ◌}
use smolnet.Prelude.Result.{ok, err}
use smolnet.Waiter.{Direction, ReadyKey, Flags}
use smolnet.Waiter.Queue.{ReadyState, ReadyWaker, free, would_block, mark_ready, drain_while}
use smolnet.Waiter.Pending.{IsTracked, mark_ready-IsTracked}
use smolnet.Waiter.Drain.{drain_while-split, drain_while-progress}
use smolnet.Device.{
  Packet, BeamDevice, EgressCredit, take_transmit, enqueue_receive_batch, discard_one,
  transmit_ready, head_ready, usize_max,
}
use smolnet.Device.Queue.{
  total_bytes, IsCounted, take_transmit-split, enqueue_receive_batch-queue, discard_one-progress,
}
use smolnet.Device.Credit.{take_transmit-credit, transmit_ready-take_transmit}
use smolnet.Device.History.{Event, grants, frames, takes, begins, run, opened, taken-le-granted}
use smolnet.Budget.{CallBudget, percent_of_call_target, call_target, charge, checkpoint}
use smolnet.Budget.Laws.{
  BudgetCall, checks, charges, budget_answers, no_earlier, count_true,
  percent_of_call_target-bounds, checkpoint-spent,
}
use smolnet.Limits.{Limits, Work, constrain, IsWithin, constrain-IsWithin}
use smolnet.Time.{time_until, time_until-exact}

abbrev answers : ℕ → Bool × ℕ
answers zero = (false, zero)
answers (suc n) = (true, n)

abbrev key : ℕ → ReadyKey
key n = record { identity = record { id = n; generation = n }; direction = Direction.read }

abbrev waker : ℕ → ReadyWaker
waker n = record { key = key n; flag = n }

abbrev queue : ReadyState
queue = record {
  entries = key 1 ∷ key 2 ∷ [];
  capacity = 2;
  overflow = false;
  counters = record { queued = 2; coalesced = 0; overflows = 0 };
}

abbrev clear : Flags
clear = record { fresh = 9; cell = λ a. false }

mark_ready-IsTracked_example :
    ((mark_ready would_block (waker 3) queue clear).1.cell 3 ≡ true)
    × IsTracked
        (waker 4)
        (mark_ready would_block (waker 3) queue clear).0
        (mark_ready would_block (waker 3) queue clear).1
mark_ready-IsTracked_example =
    mark_ready-IsTracked would_block (waker 3) (waker 4) queue clear (λ e. absurd (omega arith))
      (λ e. absurd (cc))

drain_while-split_example :
    ((drain_while answers 1 free queue 4).0 ++ (drain_while answers 1 free queue 4).1.entries
      ≡ queue.entries)
    × (length (drain_while answers 1 free queue 4).0 ≤ 1)
    × (queue.overflow ≡ true → (drain_while answers 1 free queue 4).1.overflow ≡ true)
drain_while-split_example = drain_while-split answers 1 free queue 4

drain_while-progress_example :
    ((drain_while answers 1 free queue 4).0 ≢ [])
    ⊎ ((drain_while answers 1 free queue 4).1.overflow ≡ true)
drain_while-progress_example =
    drain_while-progress answers 1 free queue 4 (omega arith) refl (λ e. absurd (cc))

abbrev packet : Packet
packet = 69 ∷ 0 ∷ 1 ∷ []

abbrev credit : EgressCredit
credit = record { packets = 2; bytes = 4 }

-- Two packets of three bytes wait, and the credit holds one of them.
abbrev device : BeamDevice
device = record {
  mtu = 1_500;
  receive = packet ∷ [];
  receive_limit = 2;
  transmit = packet ∷ packet ∷ [];
  transmit_bytes = 6;
  transmit_limit = 4;
  credit = some credit;
}

device-IsCounted : IsCounted device
unfolding total_bytes
device-IsCounted = refl

abbrev events : List (Event ℕ)
events =
    begins 4
    ∷ frames [] 3 (λ p. p)
    ∷ takes answers 9 2 100
    ∷ grants 1 3
    ∷ takes answers 9 2 100
    ∷ []

taken-le-granted_example :
    ((run events (opened device)).taken_packets
      ≤ credit.packets + (run events (opened device)).granted_packets)
    × ((run events (opened device)).taken_bytes
        ≤ credit.bytes + (run events (opened device)).granted_bytes)
taken-le-granted_example = taken-le-granted events device credit refl

take_transmit-credit_example :
    (c : EgressCredit) × ((take_transmit answers 2 100 device 9).1.credit ≡ some c)
    × (c.packets + length (take_transmit answers 2 100 device 9).0 ≡ credit.packets)
    × (c.bytes + total_bytes (take_transmit answers 2 100 device 9).0 ≡ credit.bytes)
take_transmit-credit_example = take_transmit-credit answers 2 100 device 9 credit refl

device_ready : transmit_ready device ≡ true
unfolding transmit_ready head_ready
device_ready = refl

transmit_ready-take_transmit_example : (take_transmit answers 2 100 device 9).0 ≢ []
transmit_ready-take_transmit_example =
    transmit_ready-take_transmit answers 2 100 device 9 packet (packet ∷ []) refl device_ready
      (omega arith) (omega arith) (omega arith) refl

take_transmit-split_example :
    ((take_transmit answers 2 100 device 9).0 ++ (take_transmit answers 2 100 device 9).1.transmit
      ≡ device.transmit)
    × (length (take_transmit answers 2 100 device 9).0 ≤ 2)
    × (total_bytes (take_transmit answers 2 100 device 9).0 ≤ 100)
    × IsCounted (take_transmit answers 2 100 device 9).1
take_transmit-split_example = take_transmit-split answers 2 100 device 9 device-IsCounted

enqueue_receive_batch-queue_example :
    (length (enqueue_receive_batch (packet ∷ []) device).1.receive ≤ 2)
    × ((enqueue_receive_batch (packet ∷ []) device).0 ≡ true
        → (enqueue_receive_batch (packet ∷ []) device).1.receive ≡ device.receive ++ (packet ∷ []))
    × ((enqueue_receive_batch (packet ∷ []) device).0 ≡ false
        → (enqueue_receive_batch (packet ∷ []) device).1 ≡ device)
    × ((enqueue_receive_batch (packet ∷ []) device).0 ≡ false
        → (2 < length device.receive + 1) ⊎ (usize_max < length device.receive + 1))
enqueue_receive_batch-queue_example = enqueue_receive_batch-queue (packet ∷ []) device (omega arith)

discard_one-progress_example :
    IsCounted (discard_one device).1
    × ((discard_one device).0 ≡ true
        → length (discard_one device).1.receive + length (discard_one device).1.transmit + 1
          ≡ length device.receive + length device.transmit)
    × ((discard_one device).0 ≡ false → (device.receive ≡ []) × (device.transmit ≡ []))
discard_one-progress_example = discard_one-progress device device-IsCounted

abbrev forced : CallBudget
forced = record {
  started_at = 0;
  deadline = 10;
  last_charged_at = 0;
  forced_checkpoints = some 1;
  forced_charges = none;
  yielded = false;
  slice_exhausted = false;
}

abbrev timed : CallBudget
timed = record forced { forced_checkpoints = none }

-- A charge that reports the slice as exhausted, a checkpoint, a charge that does not, a checkpoint.
abbrev spending : List BudgetCall
spending = charges 12 (λ percent. true) ∷ checks 13 ∷ charges 14 (λ percent. false) ∷ checks 15 ∷ []

checkpoint-spent_example :
    ((checkpoint 11 timed).0 ≡ false
      → no_earlier 11 spending ≡ true
      → count_true (budget_answers spending (checkpoint 11 timed).1) ≡ 0)
    × ((charge 11 (λ percent. true) timed).0 ≡ true
        → count_true (budget_answers spending (charge 11 (λ percent. true) timed).1) ≡ 0)
checkpoint-spent_example = checkpoint-spent 11 (λ percent. true) spending timed refl

percent_of_call_target-bounds_example :
    (1 ≤ percent_of_call_target 12_345)
    × (percent_of_call_target 12_345 ≤ 100)
    × (12_345 ≤ call_target → 12_345 ≤ percent_of_call_target 12_345 * 10_000)
    × (1 < percent_of_call_target 12_345 → (percent_of_call_target 12_345 - 1) * 10_000 < 12_345)
percent_of_call_target-bounds_example = percent_of_call_target-bounds 12_345

abbrev limits : Limits
limits = record {
  bytes_copied = 100;
  input_packets = 2;
  output_packets = 2;
  ready_events = 4;
  maintenance_work = 4;
  sockets = 4;
}

abbrev request : Work
request = record {
  bytes_copied = 150;
  input_packets = 1;
  output_packets = 3;
  ready_events = 0;
  maintenance_work = 4;
}

constrain-IsWithin_example :
    IsWithin (constrain limits request).0 limits
    × ((constrain limits request).1 ≡ false
        → IsWithin request limits × ((constrain limits request).0 ≡ request))
    × (IsWithin request limits
        → ((constrain limits request).1 ≡ false) × ((constrain limits request).0 ≡ request))
constrain-IsWithin_example = constrain-IsWithin limits request

time_until-exact_example :
    (pos 7 ≤ℤ negsuc 4 → time_until (negsuc 4) (pos 7) ≡ ok 0)
    × ((n : ℕ) → n < 2 ^ 63 → pos 7 ≡ negsuc 4 +ℤ pos n → time_until (negsuc 4) (pos 7) ≡ ok n)
    × ((n : ℕ) → 2 ^ 63 ≤ n → pos 7 ≡ negsuc 4 +ℤ pos n → time_until (negsuc 4) (pos 7) ≡ err tt)
time_until-exact_example = time_until-exact (negsuc 4) (pos 7)
