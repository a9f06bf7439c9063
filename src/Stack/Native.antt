-- ===== src/Stack/Native.antt =====
-- native/smolnet_core/src/stack.rs: `NativeStack` as the calls see it that end in `finish_call`. `sockets`
-- is its part of State; the BEAM and the clock are the type `B`, with what a stack asks of them in `Env`:
-- `CallBudget::checkpoint` and `charge` at the next reading of the clock, and whether a message
-- arrives. `outbox` holds the messages sent so far. A counter is a number that does not wrap.
use smolnet.Prelude.{
  ℕ, suc, Bool, false, not, ◌&&◌, Option, none, List, [], ◌∷◌, ◌++◌, ltb, if◌then◌else◌, max,
}
use smolnet.Prelude.Int.{ℤ}
use smolnet.Limits.{Work}
use smolnet.Budget.{charge_chunk}
use smolnet.Waiter.{Direction, SocketIdentity, ReadyKey, Waiter}
use smolnet.Waiter.Queue.{ReadyState}
use smolnet.Device.{Packet, BeamDevice}
use smolnet.Stack.Connections.{ConnectionKey, ClosingSweep}
use smolnet.Stack.Listeners.{ListenerScan}
use smolnet.Stack.State.{StackSockets, Lifecycle, running, shutting_down, shutdown}

pub data AbortReason : Type 0 where
  closed link_down stack_down : AbortReason

pub record PendingNotification : Type 0 where
  pub identity : SocketIdentity
  pub direction : Direction
  pub waiter : Waiter

-- What `env.send` sends, and to which waiter.
pub data Message : Type 0 where
  select : Waiter → SocketIdentity → Message
  abort : Waiter → SocketIdentity → AbortReason → Message

pub record Counters : Type 0 where
  pub max_bytes_copied : ℕ
  pub max_input_packets : ℕ
  pub max_output_packets : ℕ
  pub max_ready_events : ℕ
  pub max_maintenance_work : ℕ
  pub emitted_packets : ℕ
  pub notifications_delivered : ℕ
  pub notifications_dropped : ℕ
  pub readiness_dropped : ℕ

unfoldable pub observe : Work → Counters → Counters
observe work c = record c {
  max_bytes_copied = max c.max_bytes_copied work.bytes_copied;
  max_input_packets = max c.max_input_packets work.input_packets;
  max_output_packets = max c.max_output_packets work.output_packets;
  max_ready_events = max c.max_ready_events work.ready_events;
  max_maintenance_work = max c.max_maintenance_work work.maintenance_work;
}

-- The sweep that replaces lost wake-ups, and the keys that it or a drain found and a call left.
pub record ReadySweep : Type 0 where
  pub sweeping : Bool
  pub cursor : Option ReadyKey
  pub resweep : Bool
  pub pending : List ReadyKey

pub record NativeStack (B : Type 0) : Type 0 where
  pub sockets : StackSockets
  pub ready : ReadyState
  pub ready_sweep : ReadySweep
  pub tcp_connections : List (ConnectionKey × SocketIdentity)
  pub closing_deadlines : List (ℤ × ℕ)
  pub closing : ClosingSweep
  pub listener_scan : ListenerScan
  pub maintenance_cleanup_turn : Bool
  pub listener_maintenance_turn : Bool
  pub device : BeamDevice
  pub pending_notifications : List PendingNotification
  pub counters : Counters
  pub shutdown_reason : AbortReason
  pub scheduled_poll_at : Option ℤ
  pub call_budget : B
  pub outbox : List Message

pub record Env (B : Type 0) : Type 0 where
  pub checkpoint : B → Bool × B
  pub charge : B → B
  pub send : Message → B → Bool × B

pub record Effects : Type 0 where
  pub output : List Packet
  pub poll_at : Option ℤ
  pub more : Bool
  pub maintenance_work : ℕ

unfoldable pub empty_effects : Effects
empty_effects = record { output = []; poll_at = none; more = false; maintenance_work = 0 }

pub record Envelope {ℓ} (T : Type ℓ) : Type ℓ where
  pub result : T
  pub output : List Packet
  pub poll_at : Option ℤ
  pub more : Bool

module _ {B : Type 0} (env : Env B) where
  unfoldable pub within_budget : NativeStack B → Bool × NativeStack B
  within_budget s = let (go, b) = env.checkpoint s.call_budget in (go, record s { call_budget = b })

  -- `pending` is the work not charged so far, in and out.
  unfoldable pub charge_pending : ℕ → Bool → NativeStack B → ℕ × NativeStack B
  charge_pending pending force s =
      let wait = not force && ltb pending charge_chunk in
      (
        if wait then pending else 0,
        record s { call_budget = if wait then s.call_budget else env.charge s.call_budget },
      )

  -- `env.send`, then `observe_notification`.
  unfoldable pub send_message : Message → NativeStack B → NativeStack B
  send_message message s =
      let (delivered, b) = env.send message s.call_budget in
      let c = s.counters in
      record s {
        call_budget = b;
        outbox = s.outbox ++ message ∷ [];
        counters = record c {
          notifications_delivered =
              if delivered then suc c.notifications_delivered else c.notifications_delivered;
          notifications_dropped =
              if delivered then c.notifications_dropped else suc c.notifications_dropped;
        };
      }

  abbrev pub abort_reason : Lifecycle → AbortReason → AbortReason
  abort_reason running reason = closed
  abort_reason shutting_down reason = reason
  abort_reason shutdown reason = reason

  unfoldable pub send_abort : PendingNotification → NativeStack B → NativeStack B
  send_abort n s =
      send_message (abort n.waiter n.identity (abort_reason s.sockets.lifecycle s.shutdown_reason))
        s
