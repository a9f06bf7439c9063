-- ===== src/Stack/Farewell.antt =====
-- native/smolnet_core/src/stack.rs: a shutdown tells each waiter, and each once.
use smolnet.Prelude.{
  ℕ, ◌≡◌, refl, sym, ap, ◌∙◌, length, true, false, List, [], ◌∷◌, ◌++◌, map, append_assoc,
  append-nil, map-append, arith, inl, inr, ◌⊎◌,
}
use smolnet.Waiter.Queue.{LockState}
use smolnet.Prelude.Map.{Map}
use smolnet.SocketTable.{SocketEntry, len}
use smolnet.Stack.State.{StackSockets, Lifecycle, shutting_down, shutdown, is_running}
use smolnet.Stack.Native.{
  NativeStack, Env, AbortReason, ReadySweep, abort, PendingNotification, Message, abort_reason,
}
use smolnet.Device.{is_empty}
use smolnet.Stack.Aborts.{abort_message}
use smolnet.Stack.Shutdown.{
  shutdown_structures_pending, shutdown_pending, finish_shutdown, continue_shutdown, begin_shutdown,
  is_shutdown, shutdown_stack, shutdown_polls,
}
use smolnet.Stack.Removals.{aborts_owed, table_aborts}
use smolnet.Stack.Ends.{finish_call-Ends}
use smolnet.Stack.Slices.{before_end, before_end-Slice, IsClosing, end_of, continue_shutdown-cases}

-- The abort that a stack sends while it shuts down.
abbrev pub told : AbortReason → PendingNotification → Message
told reason n = abort n.waiter n.identity reason

module _ {B : Type 0} (env : Env B) where
  -- What a slice tells: the aborts `sent`, in order, are no longer owed.
  record Tells (s t : NativeStack B) : Type 0 where
    sent : List PendingNotification
    owed : sent ++ aborts_owed t ≡ aborts_owed s
    outbox : t.outbox ≡ s.outbox ++ map (told s.shutdown_reason) sent
    reason : t.shutdown_reason ≡ s.shutdown_reason
    sweeping : t.ready_sweep.sweeping ≡ false

  abort_message-told :
      (t : NativeStack B)
      → t.sockets.lifecycle ≡ shutting_down
      → abort_message env t ≡ told t.shutdown_reason
  abort_message-told t h =
      let message : Lifecycle → PendingNotification → Message =
        λ l n. abort n.waiter n.identity (abort_reason env l t.shutdown_reason) in
      ap message h

  aborts_owed-split :
      (sent : List PendingNotification) (t u : NativeStack B)
      → sent ++ u.pending_notifications ≡ t.pending_notifications
      → u.sockets ≡ t.sockets
      → sent ++ aborts_owed u ≡ aborts_owed t
  unfolding aborts_owed
  aborts_owed-split sent t u h e =
      let table = ap (λ (w : StackSockets). table_aborts w.socket_table.entries) e in
      sym (append_assoc sent u.pending_notifications (table_aborts u.sockets.socket_table.entries))
      ∙ (ap (λ (l : List PendingNotification). l ++ table_aborts u.sockets.socket_table.entries) h
          ∙ ap (λ (l : List PendingNotification). t.pending_notifications ++ l) table)

  end_of-Tells :
      (lock lock' : LockState) (s : NativeStack B)
      → IsClosing s
      → Tells s (end_of env lock lock' s)
        × ((end_of env lock lock' s).sockets.lifecycle ≡ shutting_down)
  unfolding end_of aborts_owed
  end_of-Tells lock lock' s h =
      let t = (before_end env s).1 in
      let u = end_of env lock lock' s in
      let a = before_end-Slice env s in
      let d = a.steady in
      let live : t.sockets.lifecycle ≡ shutting_down = d.lifecycle ∙ h.lifecycle in
      let off : is_running t.sockets.lifecycle ≡ false = rw live refl in
      let still : t.ready_sweep.sweeping ≡ false =
        ap (λ (w : ReadySweep). w.sweeping) d.sweep ∙ h.sweeping in
      let unit : Unit {0} = tt in
      let e = finish_call-Ends env lock lock' unit (before_end env s).0 [] t still off in
      let k = e.keeps in
      let same : abort_message env t ≡ told s.shutdown_reason =
        abort_message-told t live ∙ ap told d.reason in
      let split : e.sent ++ u.pending_notifications ≡ t.pending_notifications =
        e.split ∙ append-nil t.pending_notifications in
      (
        record {
          sent = e.sent;
          owed = aborts_owed-split e.sent t u split k.sockets ∙ a.owed;
          outbox =
              e.outbox
              ∙ (ap (λ (o : List Message). o ++ map (abort_message env t) e.sent) d.outbox
                  ∙ ap (λ (f : PendingNotification → Message). s.outbox ++ map f e.sent) same);
          reason = k.reason ∙ d.reason;
          sweeping = e.sweeping;
        },
        ap (λ (w : StackSockets). w.lifecycle) k.sockets ∙ live,
      )

  -- A slice ends the shutdown, when nothing is owed any more, or the stack is still closing.
  pub record Closes (s t : NativeStack B) : Type 0 where
    sent : List PendingNotification
    owed : sent ++ aborts_owed t ≡ aborts_owed s
    outbox : t.outbox ≡ s.outbox ++ map (told s.shutdown_reason) sent
    reason : t.shutdown_reason ≡ s.shutdown_reason
    closing : IsClosing t ⊎ ((t.sockets.lifecycle ≡ shutdown) × (aborts_owed t ≡ []))

  shutdown_pending-none :
      (lock : LockState) (s : NativeStack B) → shutdown_pending lock s ≡ false → aborts_owed s ≡ []
  unfolding shutdown_pending shutdown_structures_pending aborts_owed table_aborts len
  shutdown_pending-none lock s h =
      none_owed s.pending_notifications s.sockets.socket_table.entries (ground arith) (ground arith)
    where
      none_owed :
          (ns : List PendingNotification) (m : Map (ℕ × SocketEntry))
          → is_empty ns ≡ true
          → length m ≡ 0
          → ns ++ table_aborts m ≡ []
      none_owed [] [] a b = refl
      none_owed [] (x ∷ m) a b = absurd (omega arith)
      none_owed (n ∷ ns) m a b = absurd (cc)

  continue_shutdown-Closes :
      (lock lock' lock'' : LockState) (s : NativeStack B)
      → IsClosing s
      → Closes s (continue_shutdown env lock lock' lock'' s).1
  continue_shutdown-Closes lock lock' lock'' s h =
      let (t, live) = end_of-Tells lock lock' s h in
      let u = end_of env lock lock' s in
      elim (continue_shutdown-cases env lock lock' lock'' s) [
        | inl (more, e, m) ↦ rw e (record {
          sent = t.sent;
          owed = t.owed;
          outbox = t.outbox;
          reason = t.reason;
          closing = inl (record { lifecycle = live; sweeping = t.sweeping });
        })
        | inr (done, e, m) ↦ rw e (
            unfold finish_shutdown aborts_owed in
            (record {
              sent = t.sent;
              owed = t.owed;
              outbox = t.outbox;
              reason = t.reason;
              closing = inr (refl, shutdown_pending-none lock'' u done);
            }))
      ]

  Closes-trans : (s t u : NativeStack B) → Closes s t → Closes t u → Closes s u
  Closes-trans s t u a b = record {
    sent = a.sent ++ b.sent;
    owed =
        append_assoc a.sent b.sent (aborts_owed u)
        ∙ (ap (λ (l : List PendingNotification). a.sent ++ l) b.owed ∙ a.owed);
    outbox =
        b.outbox
        ∙ (ap (λ (o : List Message). o ++ map (told t.shutdown_reason) b.sent) a.outbox
            ∙ (ap
                  (λ (r : AbortReason).
                    s.outbox ++ map (told s.shutdown_reason) a.sent ++ map (told r) b.sent)
                  a.reason
                ∙ (append_assoc s.outbox (map (told s.shutdown_reason) a.sent)
                      (map (told s.shutdown_reason) b.sent)
                    ∙ ap (λ (o : List Message). s.outbox ++ o)
                        (sym (map-append (told s.shutdown_reason) a.sent b.sent)))));
    reason = b.reason ∙ a.reason;
    closing = b.closing;
  }

  Closes-same :
      (s : NativeStack B)
      → IsClosing s ⊎ ((s.sockets.lifecycle ≡ shutdown) × (aborts_owed s ≡ []))
      → Closes s s
  Closes-same s h = record {
    sent = [];
    owed = refl;
    outbox = sym (append-nil s.outbox);
    reason = refl;
    closing = h;
  }

  shutdown_polls-Closes :
      (locks : List (LockState × LockState × LockState)) (s : NativeStack B)
      → IsClosing s ⊎ ((s.sockets.lifecycle ≡ shutdown) × (aborts_owed s ≡ []))
      → Closes s (shutdown_polls env locks s)
  unfolding shutdown_polls
  shutdown_polls-Closes [] s h = Closes-same s h
  shutdown_polls-Closes ((lock, lock', lock'') ∷ locks) s h = elim h [
    | inr (down, none_owed) ↦
        let d : is_shutdown s.sockets.lifecycle ≡ true = rw down refl in
        rw d (Closes-same s (inr (down, none_owed)))
    | inl closing ↦
        let d : is_shutdown s.sockets.lifecycle ≡ false = let e = closing.lifecycle in rw e refl in
        let t = (continue_shutdown env lock lock' lock'' s).1 in
        let a = continue_shutdown-Closes lock lock' lock'' s closing in
        rw d (
          Closes-trans s t (shutdown_polls env locks t) a (shutdown_polls-Closes locks t a.closing))
  ]

  -- When a shutdown has ended, after any slices of it, the stack has sent the abort of each waiter that
  -- it held at its start and each abort that was pending, with the reason of the shutdown, once and in
  -- order, and nothing else.
  pub shutdown_stack-outbox :
      (lock lock' lock'' : LockState) (locks : List (LockState × LockState × LockState))
      (reason : AbortReason) (s : NativeStack B)
      → is_shutdown s.sockets.lifecycle ≡ false
      → (shutdown_polls env locks
          (shutdown_stack env lock lock' lock'' reason s).1).sockets.lifecycle
        ≡ shutdown
      → (shutdown_polls env locks (shutdown_stack env lock lock' lock'' reason s).1).outbox
        ≡ s.outbox ++ map (told reason) (aborts_owed s)
  unfolding aborts_owed shutdown_stack
  shutdown_stack-outbox lock lock' lock'' locks reason s up ended =
      let t = begin_shutdown reason s in
      let u = (continue_shutdown env lock lock' lock'' t).1 in
      let v = shutdown_polls env locks u in
      let a =
        continue_shutdown-Closes lock lock' lock'' t
          (record { lifecycle = refl; sweeping = refl }) in
      let h = Closes-trans t u v a (shutdown_polls-Closes locks u a.closing) in
      let ended' : v.sockets.lifecycle ≡ shutdown = rw up at ended in
      rw up (elim h.closing [
        | inl open_still ↦ let x = open_still.lifecycle in absurd (cc)
        | inr (down, none_owed) ↦
            let all : h.sent ≡ aborts_owed t =
              sym (append-nil h.sent)
              ∙ (ap (λ (l : List PendingNotification). h.sent ++ l) (sym none_owed) ∙ h.owed) in
            h.outbox ∙ ap (λ (l : List PendingNotification). s.outbox ++ map (told reason) l) all
      ])
