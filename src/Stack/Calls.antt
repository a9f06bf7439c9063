-- ===== src/Stack/Calls.antt =====
-- native/smolnet_core/src/stack.rs: `finish_call`, which ends a call: it sends the aborts that are due,
-- delivers the keys that are ready, and says whether there is more to do.
use smolnet.Prelude.{
  ℕ, suc, ◌+◌, ◌-◌, length, true, false, not, ◌&&◌, ◌||◌, none, some, List, [], ◌∷◌, ◌++◌, ltb,
  if◌then◌else◌, max,
}
use smolnet.Prelude.Int.{pos, ◌*ℤ◌}
use smolnet.Limits.{Work}
use smolnet.Waiter.{ReadyKey}
use smolnet.Waiter.Queue.{LockState, take_overflow, drain_while, has_pending}
use smolnet.SocketTable.Ops.{
  ReadyResult, notify, no_waiter, coalesced, stale, take_ready_waiter, remember_sent,
}
use smolnet.SocketTable.Scan.{ReadyScan, scan_ready}
use smolnet.Device.{is_empty}
use smolnet.Stack.State.{is_running}
use smolnet.Stack.Native.{
  NativeStack, Env, observe, ReadySweep, PendingNotification, select, Effects, Envelope,
  within_budget, charge_pending, send_message, send_abort,
}

-- Where a call is: the work counted so far, and the part of it that is not charged.
pub record Progress (B : Type 0) : Type 0 where
  pub work : ℕ
  pub uncharged : ℕ
  pub stack : NativeStack B

abbrev pub drop_readiness : {B : Type 0} → NativeStack B → NativeStack B
drop_readiness s = record s {
  counters = record s.counters { readiness_dropped = suc s.counters.readiness_dropped };
}

abbrev pub push_pending : {B : Type 0} → ReadyKey → NativeStack B → NativeStack B
push_pending key s = record s {
  ready_sweep = record s.ready_sweep { pending = s.ready_sweep.pending ++ key ∷ [] };
}

abbrev pub set_pending : {B : Type 0} → List ReadyKey → NativeStack B → NativeStack B
set_pending keys s = record s { ready_sweep = record s.ready_sweep { pending = keys } }

-- The cursor and the marks of the sweep after a scan.
unfoldable pub after_scan : ReadyScan → ReadySweep → ReadySweep
after_scan scan sweep =
    let again = scan.complete && sweep.resweep in
    record sweep {
      sweeping = if again then sweep.sweeping else not scan.complete;
      cursor = if again then none else if scan.complete then none else scan.cursor;
      resweep = if again then false else sweep.resweep;
    }

module _ {B : Type 0} (env : Env B) where
  -- What `deliver_ready` does with the answer of the table.
  unfoldable pub deliver_result : ReadyKey → ReadyResult → NativeStack B → NativeStack B
  unfolding send_message
  deliver_result key (notify w) s =
      let t = send_message env (select w key.identity) s in
      record t {
        sockets = record t.sockets {
          socket_table = remember_sent key.identity key.direction w t.sockets.socket_table;
        };
      }
  deliver_result key no_waiter s = drop_readiness s
  deliver_result key coalesced s = drop_readiness s
  deliver_result key stale s = drop_readiness s

  unfoldable pub deliver_ready : ReadyKey → NativeStack B → NativeStack B
  unfolding deliver_result
  deliver_ready key s =
      let (result, table) = take_ready_waiter key s.sockets.socket_table in
      deliver_result key result (record s { sockets = record s.sockets { socket_table = table } })

  unfoldable pub deliver_or_discard_ready : ReadyKey → NativeStack B → NativeStack B
  deliver_or_discard_ready key s =
      if is_running s.sockets.lifecycle then deliver_ready key s else drop_readiness s

  -- One unit of work is counted, and the caller is charged if a chunk of them is due.
  unfoldable pub count_unit : Progress B → Progress B
  count_unit p =
      let (uncharged, s) = charge_pending env (suc p.uncharged) false p.stack in
      record { work = suc p.work; uncharged = uncharged; stack = s }

  -- The loop over `pending_notifications`, which are put back when it stops.
  unfoldable pub abort_loop : ℕ → List PendingNotification → Progress B → Progress B
  abort_loop limit [] p = record p { stack = record p.stack { pending_notifications = [] } }
  abort_loop limit (n ∷ ns) p =
      let (go, s) = within_budget env p.stack in
      let rest = abort_loop limit ns (count_unit (record p { stack = send_abort env n s })) in
      if not (ltb p.work limit)
      then record p { stack = record p.stack { pending_notifications = n ∷ ns } }
      else if go
      then rest
      else record p { stack = record s { pending_notifications = n ∷ ns } }

  -- `for key in queued`, and `for key in scan.keys`: a key is delivered, or kept for a later call.
  unfoldable pub deliver_keys : List ReadyKey → Progress B → Progress B
  deliver_keys [] p = p
  deliver_keys (k ∷ ks) p =
      let (go, s) = within_budget env p.stack in
      let delivered =
        deliver_keys ks (count_unit (record p { stack = deliver_or_discard_ready k s })) in
      let kept = deliver_keys ks (record p { stack = push_pending k s }) in
      if go then delivered else kept

  -- The loop over `ready_sweep_pending`.
  unfoldable pub pending_loop : ℕ → List ReadyKey → Progress B → Progress B
  pending_loop limit [] p = record p { stack = set_pending [] p.stack }
  pending_loop limit (k ∷ ks) p =
      let (go, s) = within_budget env p.stack in
      let rest =
        pending_loop limit ks (count_unit (record p { stack = deliver_or_discard_ready k s })) in
      if not (ltb p.work limit)
      then record p { stack = set_pending (k ∷ ks) p.stack }
      else if go
      then rest
      else record p { stack = set_pending (k ∷ ks) s }

  -- `if self.ready.take_overflow() && running { .. }`.
  unfoldable pub start_sweep : NativeStack B → NativeStack B
  start_sweep s =
      let (overflow, ready) = take_overflow s.ready in
      let sweep = s.ready_sweep in
      if overflow && is_running s.sockets.lifecycle
      then record s {
        ready = ready;
        ready_sweep =
            if sweep.sweeping
            then record sweep { resweep = true }
            else record sweep { sweeping = true; cursor = none };
      }
      else record s { ready = ready }

  unfoldable pub drain_queue : LockState → ℕ → NativeStack B → List ReadyKey × NativeStack B
  drain_queue lock limit s =
      let (queued, ready, b) = drain_while env.checkpoint limit lock s.ready s.call_budget in
      (queued, record s { ready = ready; call_budget = b })

  -- A scan at a limit, and its keys.
  unfoldable pub scan_step : ℕ → Progress B → Progress B
  unfolding deliver_keys after_scan
  scan_step remaining p =
      let s = p.stack in
      let table = s.sockets.socket_table in
      let (scan, b) =
        scan_ready env.checkpoint table.table table.flags s.ready_sweep.cursor remaining remaining
          s.call_budget in
      let cost = max scan.entries_scanned (length scan.keys) in
      let q = deliver_keys scan.keys (record p { stack = record s { call_budget = b } }) in
      record q {
        work = p.work + cost;
        stack = record q.stack { ready_sweep = after_scan scan q.stack.ready_sweep };
      }

  unfoldable pub sweep_step : ℕ → Progress B → Progress B
  sweep_step limit p =
      let sweep = p.stack.ready_sweep in
      if sweep.sweeping && (is_empty sweep.pending && ltb p.work limit)
      then scan_step (limit - p.work) p
      else p

  -- All but the end of `finish_call`: its loops over aborts and keys.
  unfoldable pub readiness_work : LockState → List PendingNotification → NativeStack B → Progress B
  readiness_work lock aborts s =
      let limit = s.sockets.limits.ready_events in
      let p1 =
        abort_loop limit (s.pending_notifications ++ aborts)
          (record { work = 0; uncharged = 0; stack = s }) in
      let (queued, s2) = drain_queue lock (limit - p1.work) (start_sweep p1.stack) in
      let p3 = deliver_keys queued (record p1 { stack = s2 }) in
      sweep_step limit (pending_loop limit p3.stack.ready_sweep.pending p3)

  -- `lock` is the mutex of the queue at the drain, and `lock'` at `has_pending`.
  unfoldable pub finish_call {ℓ} :
      {T : Type ℓ}
      → LockState
      → LockState
      → T
      → Effects
      → List PendingNotification
      → NativeStack B
      → Envelope T × NativeStack B
  unfolding readiness_work observe
  finish_call lock lock' result effects aborts s =
      let p = readiness_work lock aborts s in
      let t = p.stack in
      let more =
        effects.more
        || (not (is_empty t.pending_notifications)
            || (has_pending lock' t.ready
                || (not (is_empty t.ready_sweep.pending) || t.ready_sweep.sweeping))) in
      let work : Work = record {
        bytes_copied = 0;
        input_packets = 0;
        output_packets = 0;
        ready_events = p.work;
        maintenance_work = effects.maintenance_work;
      } in
      let (uncharged, u) =
        charge_pending env p.uncharged true (record t { counters = observe work t.counters }) in
      (
        record { result = result; output = effects.output; poll_at = effects.poll_at; more = more },
        record u {
          scheduled_poll_at = elim effects.poll_at [
            | none ↦ u.scheduled_poll_at
            | some millis ↦ if more then u.scheduled_poll_at else some (millis *ℤ pos 1_000)
          ];
        },
      )
