-- ===== src/Tests/Calls.antt =====
-- native/smolnet_core/src/stack.rs: the end of a call, and a shutdown, on a stack with two sockets.
use smolnet.Prelude.{
  ℕ, ◌+◌, ◌≤◌, ◌≡◌, refl, true, false, none, some, List, ◌⊎◌, [], ◌∷◌, ◌++◌, map, arith, replicate,
  max,
}
use smolnet.Waiter.{Direction, Operation, Waiter, SocketIdentity}
use smolnet.Waiter.Queue.{free, would_block}
use smolnet.Limits.{Limits}
use smolnet.Device.{new as device_new}
use smolnet.Stack.State.{running, shutdown}
use smolnet.Stack.Native.{
  NativeStack, Env, Message, closed, stack_down, PendingNotification, empty_effects,
}
use smolnet.Stack.Calls.{finish_call}
use smolnet.Stack.Shutdown.{no_sweep, shutdown_stack, shutdown_polls}
use smolnet.Stack.Tracking.{covered}
use smolnet.Stack.Delivery.{is_due}
use smolnet.Stack.Wakeups.{IsSound, finish_call-IsSound, finish_call-idle}
use smolnet.Stack.Aborts.{SendsAborts, finish_call-SendsAborts}
use smolnet.Stack.Waiting.{waiting, Tells}
use smolnet.Stack.Told.{finish_call-Tells}
use smolnet.Stack.Deliveries.{handled, finish_call-bounds}
use smolnet.Stack.Removals.{aborts_owed, remains}
use smolnet.Stack.Farewell.{told, shutdown_stack-outbox}
use smolnet.Stack.Termination.{shutdown_stack-ends}
use smolnet.Prelude.Map.{get, remove, insert as map_insert, write as map_write}
use smolnet.Waiter.{new_flag, store, direction}
use smolnet.Waiter.Queue.{
  drain_while, drain_locked, drain_loop, take_overflow, has_pending, try_entries, is_nonempty,
}
use smolnet.SocketTable.{new, next_identity, validate, ensure_waiter_capacity}
use smolnet.SocketTable.Ops.{
  insert, insert_with, new_entry, install_waiter, arm, take_ready_waiter, take_ready_entry,
  remember_sent,
}
use smolnet.SocketTable.Run.{run, step}
use smolnet.SocketTable.Scan.{scan_ready, scan_loop, scan_start, scan_entry, scan_write}
use smolnet.Stack.Native.{send_abort, send_message, within_budget, charge_pending}
use smolnet.Stack.Calls.{
  abort_loop, start_sweep, drain_queue, deliver_keys, pending_loop, sweep_step, scan_step,
  deliver_or_discard_ready, deliver_ready, deliver_result, count_unit, after_scan,
}
use smolnet.Tests.Table.{two, two-IsValid}

-- A BEAM that never ends a slice, and takes every message.
abbrev pub generous : Env ℕ
generous = record { checkpoint = λ b. (true, b); charge = λ b. b; send = λ message b. (true, b) }

abbrev limits : Limits
limits = record {
  bytes_copied = 2_000;
  input_packets = 4;
  output_packets = 4;
  ready_events = 8;
  maintenance_work = 4;
  sockets = 4;
}

abbrev answer : ℕ
answer = 5

abbrev notified : PendingNotification
notified = record {
  identity = record { id = 9; generation = 9 };
  direction = Direction.write;
  waiter = record { pid = 3; operation = Operation.send; reference = 4 };
}

abbrev pub stack : NativeStack ℕ
stack = record {
  sockets = record {
    limits = limits;
    lifecycle = running;
    sockets = 7 ∷ 8 ∷ [];
    socket_table = two;
    tcp_records = [];
    tcp_listeners = [];
    udp_records = [];
    closing_tcp = [];
    next_ephemeral_port = 0;
    next_udp_ephemeral_port = 0;
  };
  ready = record {
    entries = [];
    capacity = 2;
    overflow = true;
    counters = record { queued = 0; coalesced = 0; overflows = 1 };
  };
  ready_sweep = no_sweep;
  tcp_connections = [];
  closing_deadlines = [];
  closing = record { cursor = none; pending = false; resweep = false };
  listener_scan = record { cursor = none; pending = false; resweep = false };
  maintenance_cleanup_turn = false;
  listener_maintenance_turn = false;
  device = device_new 1_500 4 none;
  pending_notifications = notified ∷ [];
  counters = record {
    max_bytes_copied = 0;
    max_input_packets = 0;
    max_output_packets = 0;
    max_ready_events = 0;
    max_maintenance_work = 0;
    emitted_packets = 0;
    notifications_delivered = 0;
    notifications_dropped = 0;
    readiness_dropped = 0;
  };
  shutdown_reason = closed;
  scheduled_poll_at = none;
  call_budget = 0;
  outbox = [];
}

stack-IsSound : IsSound stack
unfolding covered
stack-IsSound = record { live = refl; valid = two-IsValid; tracked = λ k d. ground arith }

finish_call-IsSound_example :
    IsSound (finish_call generous free free answer empty_effects (notified ∷ []) stack).1
finish_call-IsSound_example =
    finish_call-IsSound generous free free answer empty_effects (notified ∷ []) stack stack-IsSound

stack_quiet : (finish_call generous free free answer empty_effects [] stack).0.more ≡ false
unfolding finish_call abort_loop start_sweep drain_queue drain_while drain_locked deliver_keys
    pending_loop sweep_step scan_step scan_ready deliver_or_discard_ready deliver_ready
    deliver_result send_message within_budget count_unit charge_pending take_ready_waiter
    take_ready_entry remember_sent has_pending send_abort take_overflow run step insert new get
    map_insert map_write install_waiter new_entry new_flag store insert_with next_identity arm
    validate ensure_waiter_capacity direction scan_loop scan_start scan_entry scan_write after_scan
    try_entries is_nonempty drain_loop remove empty_effects
stack_quiet = refl

finish_call-idle_example :
    is_due
      (finish_call generous free free answer empty_effects [] stack).1.sockets.socket_table
      (record { identity = record { id = 1; generation = 1 }; direction = Direction.read })
    ≡ false
finish_call-idle_example =
    finish_call-idle generous free free answer empty_effects [] stack
      (record { identity = record { id = 1; generation = 1 }; direction = Direction.read })
      stack-IsSound stack_quiet

abbrev receiver : Waiter
receiver = record { pid = 5; operation = Operation.recv; reference = 6 }

abbrev first : SocketIdentity
first = record { id = 1; generation = 1 }

stack_waits : waiting first Direction.read stack.sockets.socket_table.entries ≡ some receiver
unfolding run step insert new get map_insert map_write install_waiter new_entry new_flag store
    insert_with next_identity arm validate ensure_waiter_capacity direction
stack_waits = refl

finish_call-Tells_example :
    let t = (finish_call generous free free answer empty_effects [] stack).1 in
    (said : List Message) × (t.outbox ≡ [] ++ said)
    × ((waiting first Direction.read t.sockets.socket_table.entries ≡ some receiver)
        ⊎ Tells receiver first said)
finish_call-Tells_example =
    finish_call-Tells generous free free answer empty_effects [] stack first Direction.read receiver
      stack_waits

finish_call-SendsAborts_example :
    SendsAborts generous
      (notified ∷ notified ∷ [])
      stack
      (finish_call generous free would_block answer empty_effects (notified ∷ []) stack).1
finish_call-SendsAborts_example =
    finish_call-SendsAborts generous free would_block answer empty_effects (notified ∷ []) stack

finish_call-bounds_example :
    let t = (finish_call generous free free answer empty_effects (notified ∷ []) stack).1 in
    (handled t ≤ handled stack + 8)
    × (handled t ≤ handled stack + t.counters.max_ready_events)
    × (0 ≤ t.counters.max_ready_events)
    × (t.counters.max_ready_events ≤ max 0 8)
finish_call-bounds_example =
    finish_call-bounds generous free free answer empty_effects (notified ∷ []) stack

shutdown_stack-ends_example :
    (shutdown_polls generous
      (replicate 10 (free, free, free))
      (shutdown_stack generous free free free stack_down stack).1).sockets.lifecycle
    ≡ shutdown
unfolding remains run get new next_identity map_insert map_write device_new insert
shutdown_stack-ends_example =
    shutdown_stack-ends generous 10 stack_down stack (λ b. refl) (omega arith) (omega arith)
      (omega arith)

shutdown_stack-outbox_example :
    (shutdown_polls generous
      (replicate 10 (free, free, free))
      (shutdown_stack generous free free free stack_down stack).1).outbox
    ≡ [] ++ map (told stack_down) (aborts_owed stack)
shutdown_stack-outbox_example =
    shutdown_stack-outbox generous free free free (replicate 10 (free, free, free)) stack_down stack
      refl shutdown_stack-ends_example
