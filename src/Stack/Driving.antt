-- ===== src/Stack/Driving.antt =====
-- native/smolnet_core/src/stack.rs: `drive_batch`, which lets packets in, has smoltcp answer, and takes
-- packets out. What smoltcp's interface does is the argument `Interface`, over a state `W`; so are
-- the three steps of the stack itself that read or change smoltcp's sockets.
use smolnet.Prelude.{
  ℕ, zero, suc, ◌+◌, ◌-◌, ◌/◌, max, min, Bool, true, false, not, ◌&&◌, ◌||◌, Option, none, some,
  List, [], ◌∷◌, ◌++◌, ltb, ◌==◌, if◌then◌else◌, length,
}
use smolnet.Prelude.Int.{ℤ, ltb_ℤ}
use smolnet.Prelude.Result.{Result, ok, err}
use smolnet.Prelude.Map.{Map}
use smolnet.Limits.{Limits, Work}
use smolnet.Tcp.{TcpRecord}
use smolnet.Device.{
  Packet, BeamDevice, begin_call, take_transmit, has_receive, can_receive, take_receive,
  return_receive, enqueue_receive_batch, queued_packets, transmit_credit_available, transmit_ready,
  is_empty,
}
use smolnet.Device.Queue.{total_bytes}
use smolnet.Stack.Config.{StackError, ownership_invariant_violation}
use smolnet.Stack.Connections.{request_closing_cleanup, next_close_deadline, no_closing}
use smolnet.Stack.Listeners.{ListenerMemberKey, request_listener_scan, refresh_listeners}
use smolnet.Stack.Native.{NativeStack, Env, Effects, observe, within_budget}
use smolnet.Stack.Reaping.{Kernel, Wake, run_wakes, reap_closing_tcp}

-- `poll_ingress_single` on one packet, and whether it was read; `poll_maintenance`; `poll_egress`, and
-- whether a socket changed its state; both with the wakers that they run; `poll_at`;
-- `Instant::total_millis`. Then `retarget_wildcard_listener`, `inbound_reset` with
-- `record_inbound_reset`, and `refresh_listener_member`.
pub record Interface (B : Type 0) (W : Type 0) : Type 0 where
  pub poll_ingress : ℤ → Packet → BeamDevice → W → Bool × BeamDevice × W × List Wake
  pub poll_maintenance : ℤ → W → W
  pub poll_egress : ℤ → BeamDevice → W → Bool × BeamDevice × W × List Wake
  pub poll_at : ℤ → W → Option ℤ
  pub total_millis : ℤ → ℤ
  pub retarget : Packet → NativeStack B × W → NativeStack B × W
  pub inbound_reset : Packet → NativeStack B → W → W → Map TcpRecord → Map TcpRecord
  pub refresh_member : ListenerMemberKey → NativeStack B × W → NativeStack B × W

-- Where `drive_batch` is: the packets of the batch that are left, and what is counted.
pub record Driven (B : Type 0) (W : Type 0) : Type 0 where
  pub batch : List Packet
  pub ingress_work : ℕ
  pub deferred : Bool
  pub stack : NativeStack B
  pub kernel : W

abbrev pub set_device : {B : Type 0} → BeamDevice → NativeStack B → NativeStack B
set_device d s = record s { device = d }

abbrev pub request_sweeps : {B : Type 0} → NativeStack B → NativeStack B
request_sweeps s = record s {
  closing = request_closing_cleanup s.sockets.closing_tcp s.closing;
  listener_scan = request_listener_scan s.sockets.tcp_listeners s.listener_scan;
}

-- The packet to offer, the one held first, and the batch if it is taken.
unfoldable pub next_packet : Option Packet → List Packet → Option (Packet × List Packet)
next_packet (some p) batch = some (p, batch)
next_packet none [] = none
next_packet none (p ∷ ps) = some (p, ps)

abbrev pub put_back : Option Packet → BeamDevice → BeamDevice
put_back none d = d
put_back (some p) d = return_receive p d

-- What an egress pass did, and what a sweep did.
pub record Egress (B : Type 0) (W : Type 0) : Type 0 where
  pub work : ℕ
  pub attempted : Bool
  pub may_remain : Bool
  pub deferred : Bool
  pub stack : NativeStack B
  pub kernel : W

pub record Turn (B : Type 0) (W : Type 0) : Type 0 where
  pub work : ℕ
  pub more : Bool
  pub ran : Bool
  pub stack : NativeStack B
  pub kernel : W

module _ {B : Type 0} {W : Type 0} (env : Env B) (tcp : Kernel W) (net : Interface B W) (now : ℤ)
    (limits : Limits) where
  -- The loop over packets, with the rounds that the limit leaves it.
  unfoldable pub ingress_loop : ℕ → List Packet → ℕ → NativeStack B → W → Driven B W
  ingress_loop zero batch work s w = record {
    batch = batch;
    ingress_work = work;
    deferred = false;
    stack = s;
    kernel = w;
  }
  ingress_loop (suc rounds) batch work s w =
      let (go, t) = within_budget env s in
      let (held, d) = take_receive t.device in
      let u = set_device d t in
      let stop : Driven B W = record {
        batch = batch;
        ingress_work = work;
        deferred = false;
        stack = s;
        kernel = w;
      } in
      let offered : Driven B W = elim (next_packet held batch) [
        | none ↦ stop
        | some (packet, left) ↦
            let (aimed, w1) = net.retarget packet (u, w) in
            let (read, d1, w2, wakes) = net.poll_ingress now packet aimed.device w1 in
            let polled = run_wakes wakes aimed in
            let v = request_sweeps (record polled {
              device = d1;
              sockets = record polled.sockets {
                tcp_records = net.inbound_reset packet aimed w1 w2 polled.sockets.tcp_records;
              };
            }) in
            let rest = ingress_loop rounds left (suc work) v w2 in
            if read
            then rest
            else record stop { stack = set_device (put_back held d1) polled; kernel = w2 }
      ] in
      if not ((has_receive s.device || not (is_empty batch)) && can_receive s.device)
      then stop
      else if go
      then offered
      else record stop { deferred = true; stack = t }

  -- A sweep over listeners of at most `limit` members.
  unfoldable pub run_refresh : ℕ → NativeStack B → W → (ℕ × Bool) × NativeStack B × W
  run_refresh limit s w =
      let (result, scan, b, next) =
        refresh_listeners env.checkpoint net.refresh_member limit s.sockets.tcp_listeners
          s.listener_scan s.call_budget (s, w) in
      (result, record next.0 { listener_scan = scan; call_budget = b }, next.1)

  -- The loop over `poll_egress`, with the rounds that the limit leaves it.
  unfoldable pub egress_loop : ℕ → Bool → Bool → ℕ → NativeStack B → W → Egress B W
  egress_loop zero attempted may_remain work s w = record {
    work = work;
    attempted = attempted;
    may_remain = may_remain;
    deferred = false;
    stack = s;
    kernel = w;
  }
  egress_loop (suc rounds) attempted may_remain work s w =
      let (go, t) = within_budget env s in
      let (changed, d, w', wakes) = net.poll_egress now t.device w in
      let u = set_device d (run_wakes wakes t) in
      let rest = egress_loop rounds true true (suc work) (request_sweeps u) w' in
      let stop : Egress B W = record {
        work = work;
        attempted = attempted;
        may_remain = may_remain;
        deferred = false;
        stack = s;
        kernel = w;
      } in
      if not (
        ltb (queued_packets s.device).1 limits.output_packets && transmit_credit_available s.device)
      then stop
      else if not go
      then record stop { deferred = true; stack = t }
      else if changed
      then rest
      else record {
        work = suc work;
        attempted = true;
        may_remain = false;
        deferred = false;
        stack = u;
        kernel = w';
      }

  -- The cleanup of closing sockets, if it has its turn before the egress pass.
  unfoldable pub early_cleanup : NativeStack B → W → Turn B W
  early_cleanup s w =
      let ((work, more), t, w') =
        reap_closing_tcp env tcp now (min limits.maintenance_work 1) s w in
      if s.maintenance_cleanup_turn && s.closing.pending
      then record { work = work; more = more; ran = ltb 0 work; stack = t; kernel = w' }
      else record { work = 0; more = false; ran = false; stack = s; kernel = w }

  -- The sweep over listeners before the egress pass; it has at most half of the work that is left.
  unfoldable pub early_refresh : ℕ → NativeStack B → W → Turn B W
  unfolding run_refresh
  early_refresh work s w =
      let remaining = limits.maintenance_work - work in
      let limit = if remaining == 1 then 1 else max (remaining / 2) 1 in
      let ((done, more), t, w') = run_refresh limit s w in
      if s.listener_scan.pending
        && (ltb 0 remaining && (ltb 1 remaining || s.listener_maintenance_turn))
      then record { work = done; more = more; ran = ltb 0 done; stack = t; kernel = w' }
      else record { work = 0; more = false; ran = false; stack = s; kernel = w }

  -- Both of them after the egress pass, if they did not run before.
  unfoldable pub late_cleanup : ℕ → Turn B W → NativeStack B → W → Turn B W
  late_cleanup work before s w =
      let ((done, more), t, w') =
        reap_closing_tcp env tcp now (limits.maintenance_work - work) s w in
      if not before.ran && s.closing.pending
      then record {
        work = done;
        more = before.more || more;
        ran = ltb 0 done;
        stack = t;
        kernel = w';
      }
      else record { work = 0; more = before.more; ran = before.ran; stack = s; kernel = w }

  unfoldable pub late_refresh : ℕ → Turn B W → NativeStack B → W → Turn B W
  unfolding run_refresh
  late_refresh work before s w =
      let ((done, more), t, w') = run_refresh (limits.maintenance_work - work) s w in
      if not before.ran && s.listener_scan.pending
      then record {
        work = done;
        more = before.more || more;
        ran = ltb 0 done;
        stack = t;
        kernel = w';
      }
      else record { work = 0; more = before.more; ran = before.ran; stack = s; kernel = w }

  -- `take_transmit` on the device of the stack, with its budget.
  unfoldable pub take_output : ℕ → ℕ → NativeStack B → List Packet × NativeStack B
  take_output packets bytes s =
      let (output, d, b) = take_transmit env.checkpoint packets bytes s.device s.call_budget in
      (output, record s { device = d; call_budget = b })

  abbrev pub has_passed : Option ℤ → Bool
  has_passed none = false
  has_passed (some deadline) = not (ltb_ℤ now deadline)

  -- Between ingress and egress: the packets left over are queued, smoltcp's timers run, and a close
  -- deadline that has passed asks for a cleanup.
  unfoldable pub after_ingress : Driven B W → Result StackError (Driven B W)
  after_ingress p =
      let (queued, d) = enqueue_receive_batch p.batch p.stack.device in
      let s = if is_empty p.batch then p.stack else set_device d p.stack in
      let (go, t) = within_budget env s in
      let late = has_passed (next_close_deadline t.closing_deadlines) in
      if not (is_empty p.batch) && not queued
      then err ownership_invariant_violation
      else ok (record p {
        batch = [];
        deferred = p.deferred || not go;
        kernel = if go then net.poll_maintenance now p.kernel else p.kernel;
        stack = record t {
          closing =
              if late then request_closing_cleanup t.sockets.closing_tcp t.closing else t.closing;
        };
      })

  -- After egress: a deadline of smoltcp's that was reached asks for a cleanup, and is forgotten once a
  -- whole pass has run.
  unfoldable pub after_egress : Bool → Egress B W → Egress B W
  after_egress reached e =
      let full = e.work == limits.maintenance_work in
      let may_remain = e.may_remain || (not e.attempted && full) in
      let s = e.stack in
      let swept = reached && e.attempted in
      record e {
        may_remain = may_remain;
        stack = record s {
          closing =
              if swept then request_closing_cleanup s.sockets.closing_tcp s.closing else s.closing;
          scheduled_poll_at = if swept && not may_remain then none else s.scheduled_poll_at;
        };
      }

  abbrev pub earliest : Option ℤ → Option ℤ → Option ℤ
  earliest none b = b
  earliest (some a) none = some a
  earliest (some a) (some b) = if ltb_ℤ b a then some b else some a

  -- `poll_at.filter(..)`.
  abbrev pub open_poll : Bool → Option ℤ → Option ℤ
  open_poll egress_open none = none
  open_poll egress_open (some at) = if egress_open || ltb_ℤ now at then some at else none

  abbrev pub in_millis : Option ℤ → Option ℤ
  in_millis none = none
  in_millis (some at) = some (net.total_millis at)

  -- The end of a drive: what it says, and the counters.
  unfoldable pub drive_effects :
      ℕ
      → ℕ
      → ℕ
      → List Packet
      → Bool
      → Bool
      → Bool
      → Bool
      → NativeStack B
      → W
      → Effects × NativeStack B
  unfolding observe
  drive_effects input_bytes ingress_work work output may_remain deferred cleanup_more listener_more
        s w =
      let egress_open = transmit_credit_available s.device in
      let more =
        transmit_ready s.device
        || ((has_receive s.device && can_receive s.device)
            || ((may_remain && egress_open)
                || (cleanup_more
                    || (s.closing.pending
                        || (listener_more || (s.listener_scan.pending || deferred)))))) in
      let done : Work = record {
        bytes_copied = max input_bytes (total_bytes output);
        input_packets = ingress_work;
        output_packets = length output;
        ready_events = 0;
        maintenance_work = work;
      } in
      let counters = observe done s.counters in
      (
        record {
          output = output;
          poll_at =
              if more
              then some (net.total_millis now)
              else in_millis (
                  earliest (open_poll egress_open (net.poll_at now w))
                    (next_close_deadline s.closing_deadlines));
          more = more;
          maintenance_work = work;
        },
        record s {
          counters = record counters { emitted_packets = counters.emitted_packets + length output };
        },
      )

  -- The maintenance of a drive, from its first cleanup on: what it took out, and what it did.
  unfoldable pub drive_rest : ℕ → List Packet → Driven B W → Effects × NativeStack B × W
  drive_rest input_bytes output p =
      let s = p.stack in
      let reached = not (no_closing s.sockets.closing_tcp) && has_passed s.scheduled_poll_at in
      let c = early_cleanup s p.kernel in
      let l = early_refresh c.work c.stack c.kernel in
      let work = c.work + l.work in
      let e =
        after_egress reached
          (egress_loop (limits.maintenance_work - work) false false work l.stack l.kernel) in
      let (more_output, t) =
        take_output (limits.output_packets - length output)
          (limits.bytes_copied - total_bytes output) e.stack in
      let c' = late_cleanup e.work c t e.kernel in
      let l' = late_refresh (e.work + c'.work) l c'.stack c'.kernel in
      let u = l'.stack in
      let (effects, v) =
        drive_effects input_bytes p.ingress_work (e.work + c'.work + l'.work)
          (output ++ more_output) e.may_remain (p.deferred || e.deferred) c'.more l'.more
          (record u {
            maintenance_cleanup_turn = not c'.ran && u.closing.pending;
            listener_maintenance_turn = not l'.ran && u.listener_scan.pending;
          })
          l'.kernel in
      (effects, v, l'.kernel)

  -- `copied` is `copied_bytes.unwrap_or(0)`.
  unfoldable pub drive_within :
      List Packet → ℕ → NativeStack B → W → Result StackError (Effects × NativeStack B × W)
  drive_within batch copied s w =
      let (output, t) =
        take_output limits.output_packets limits.bytes_copied
          (set_device (begin_call limits.output_packets s.device) s) in
      let p = ingress_loop limits.input_packets batch 0 t w in
      elim (after_ingress p) [ err e ↦ err e | ok q ↦ ok (drive_rest copied output q) ]

-- Nothing writes `limits`, which is read once here.
unfoldable pub drive_batch :
    {B : Type 0} {W : Type 0}
    → Env B
    → Kernel W
    → Interface B W
    → ℤ
    → List Packet
    → ℕ
    → NativeStack B
    → W
    → Result StackError (Effects × NativeStack B × W)
drive_batch env tcp net now batch copied s w =
    drive_within env tcp net now s.sockets.limits batch copied s w
