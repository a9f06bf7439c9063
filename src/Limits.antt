-- ===== src/Limits.antt =====
-- native/smolnet_core/src/limits.rs: the limits of one stack, and the work that one call may do.
use smolnet.Prelude.{ℕ, ◌≤◌, ◌≡◌, Bool, false, not, ◌&&◌, arith, leb, ◌==◌, min}

pub record Limits : Type 0 where
  pub bytes_copied : ℕ
  pub input_packets : ℕ
  pub output_packets : ℕ
  pub ready_events : ℕ
  pub maintenance_work : ℕ
  pub sockets : ℕ

abbrev pub max_bytes_copied : ℕ
max_bytes_copied = 65_575

abbrev pub max_input_packets : ℕ
max_input_packets = 32

abbrev pub max_output_packets : ℕ
max_output_packets = 32

abbrev pub max_ready_events : ℕ
max_ready_events = 128

abbrev pub max_maintenance_work : ℕ
max_maintenance_work = 128

abbrev pub max_sockets : ℕ
max_sockets = 512

-- `(lo..=hi).contains(&n)`.
abbrev pub between : ℕ → ℕ → ℕ → Bool
between lo hi n = leb lo n && leb n hi

unfoldable pub valid : Limits → Bool
valid l =
    between 1 max_bytes_copied l.bytes_copied
    && (between 1 max_input_packets l.input_packets
        && (between 1 max_output_packets l.output_packets
            && (between 1 max_ready_events l.ready_events
                && (between 1 max_maintenance_work l.maintenance_work
                    && between 1 max_sockets l.sockets))))

pub record Work : Type 0 where
  pub bytes_copied : ℕ
  pub input_packets : ℕ
  pub output_packets : ℕ
  pub ready_events : ℕ
  pub maintenance_work : ℕ

work_eq : Work → Work → Bool
work_eq a b =
    a.bytes_copied == b.bytes_copied
    && (a.input_packets == b.input_packets
        && (a.output_packets == b.output_packets
            && (a.ready_events == b.ready_events && a.maintenance_work == b.maintenance_work)))

unfoldable pub constrain : Limits → Work → Work × Bool
unfolding work_eq
constrain l requested =
    let completed : Work = record {
      bytes_copied = min requested.bytes_copied l.bytes_copied;
      input_packets = min requested.input_packets l.input_packets;
      output_packets = min requested.output_packets l.output_packets;
      ready_events = min requested.ready_events l.ready_events;
      maintenance_work = min requested.maintenance_work l.maintenance_work;
    } in
    (completed, not (work_eq completed requested))

-- No dimension of the work fits in less than the limits allow, or than was asked for.
pub record IsWithin (w : Work) (l : Limits) : Type 0 where
  pub bytes_copied : w.bytes_copied ≤ l.bytes_copied
  pub input_packets : w.input_packets ≤ l.input_packets
  pub output_packets : w.output_packets ≤ l.output_packets
  pub ready_events : w.ready_events ≤ l.ready_events
  pub maintenance_work : w.maintenance_work ≤ l.maintenance_work

-- The work done is within the limits. Nothing is left over exactly when the request was within them,
-- and then the work done is what was asked for.
pub constrain-IsWithin :
    (l : Limits) (w : Work)
    → IsWithin (constrain l w).0 l
      × ((constrain l w).1 ≡ false → IsWithin w l × ((constrain l w).0 ≡ w))
      × (IsWithin w l → ((constrain l w).1 ≡ false) × ((constrain l w).0 ≡ w))
unfolding constrain
constrain-IsWithin l w = (omega arith, λ h. ground arith, λ h. ground arith)
