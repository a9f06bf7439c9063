-- ===== src/Tests/Drives.antt =====
-- native/smolnet_core/src/stack.rs: a drive, and a sweep over closing sockets.
use smolnet.Prelude.{ℕ, ◌/◌, suc, ◌≤◌, ◌≡◌, true, false, none, [], ◌∷◌}
use smolnet.Prelude.Int.{pos, pos_part}
use smolnet.Waiter.{Direction}
use smolnet.Waiter.Queue.{ReadyWaker, free}
use smolnet.Prelude.Result.{Result, ok, err}
use smolnet.Device.{new}
use smolnet.Stack.Config.{StackError}
use smolnet.Stack.Native.{NativeStack, Effects, empty_effects}
use smolnet.Stack.Reaping.{Kernel, reap_closing_tcp, reap_closing_tcp-bounds}
use smolnet.Stack.Driving.{Interface, drive_batch}
use smolnet.Tests.Calls.{generous, stack}

abbrev kernel : Kernel ℕ
kernel = record {
  is_closed = λ h w. true;
  reset_dispatched = λ h w. true;
  abort = λ h w. (suc w, []);
  remove_socket = λ h w. suc w;
}

abbrev waker : ReadyWaker
waker = record {
  key = record { identity = record { id = 2; generation = 2 }; direction = Direction.read };
  flag = 2;
}

-- An interface that reads every packet, wakes a socket for it, and emits none.
abbrev quiet : Interface ℕ ℕ
quiet = record {
  poll_ingress = λ now p d w. (true, d, w, (free, waker) ∷ []);
  poll_maintenance = λ now w. w;
  poll_egress = λ now d w. (false, d, w, []);
  poll_at = λ now w. none;
  total_millis = λ t. pos (pos_part t / 1_000);
  retarget = λ p x. x;
  inbound_reset = λ p s w w' records. records;
  refresh_member = λ key x. x;
}

-- Two packets wait to go out, and the socket 3 is closing.
abbrev busy : NativeStack ℕ
busy = record stack {
  device = record (new 1_500 4 none) {
    transmit = (1 ∷ 2 ∷ []) ∷ (3 ∷ []) ∷ [];
    transmit_bytes = 3;
  };
  sockets = record stack.sockets { closing_tcp = 3 ∷ [] };
  closing = record { cursor = none; pending = true; resweep = false };
}

reap_closing_tcp-bounds_example :
    ((reap_closing_tcp generous kernel (pos 9) 2 busy 0).0.0 ≤ 2)
    × ((reap_closing_tcp generous kernel (pos 9) 2 busy 0).0.1
        ≡ (reap_closing_tcp generous kernel (pos 9) 2 busy 0).1.closing.pending)
reap_closing_tcp-bounds_example = reap_closing_tcp-bounds generous kernel (pos 9) 2 busy 0

abbrev driven : Result StackError (Effects × NativeStack ℕ × ℕ)
driven = drive_batch generous kernel quiet (pos 9) ((7 ∷ []) ∷ []) 1 busy 0

abbrev outcome : Effects × NativeStack ℕ × ℕ
outcome = elim driven [ err e ↦ (empty_effects, busy, 0) | ok x ↦ x ]
