-- ===== src/Budget.antt =====
-- native/smolnet_core/src/budget.rs: the budget of one native call. Times are nanoseconds. A reading
-- of the monotonic clock is an argument, and so is what `consume_timeslice` of the BEAM answers.
pub mod Laws
use smolnet.Prelude.{
  ℕ, zero, suc, ◌+◌, ◌-◌, ◌*◌, ◌/◌, ◌^◌, Bool, true, false, not, ◌&&◌, ◌||◌, Option, none, some,
  List, [], ◌∷◌, ltb, leb, ◌==◌, if◌then◌else◌, min, max,
}

abbrev pub call_target : ℕ
call_target = 1_000 * 1_000

abbrev pub encoding_headroom : ℕ
encoding_headroom = 250 * 1_000

abbrev pub work_budget : ℕ
work_budget = 750 * 1_000

abbrev pub charge_chunk : ℕ
charge_chunk = 16

abbrev pub u64_max : ℕ
u64_max = 2 ^ 64 - 1

pub record CallBudget : Type 0 where
  pub started_at : ℕ
  pub deadline : ℕ
  pub last_charged_at : ℕ
  pub forced_checkpoints : Option ℕ
  pub forced_charges : Option ℕ
  pub yielded : Bool
  pub slice_exhausted : Bool

unfoldable pub start : ℕ → Option ℕ → CallBudget
start now forced = record {
  started_at = now;
  deadline = now + work_budget;
  last_charged_at = now;
  forced_checkpoints = forced;
  forced_charges = none;
  yielded = false;
  slice_exhausted = false;
}

abbrev pub div_ceil : ℕ → ℕ → ℕ
div_ceil a b = (a + (b - 1)) / b

-- `percent.clamp(1, 100)` of the saturated product.
unfoldable pub percent_of_call_target : ℕ → ℕ
percent_of_call_target duration =
    let nanoseconds = min duration u64_max in
    let percent = div_ceil (min (nanoseconds * 100) u64_max) call_target in max 1 (min percent 100)

-- The forced answer, where a test asks for one: whether the slice is spent, and the charges left.
unfoldable pub forced_charge : Option ℕ → Bool → Bool × Option ℕ
forced_charge none charged = (charged, none)
forced_charge (some zero) charged = (true, some zero)
forced_charge (some (suc n)) charged = (charged, some n)

unfoldable pub charge : ℕ → (ℕ → Bool) → CallBudget → Bool × CallBudget
unfolding percent_of_call_target forced_charge
charge now consume_timeslice b =
    let charged = consume_timeslice (percent_of_call_target (now - b.last_charged_at)) in
    let (exhausted, left) = forced_charge b.forced_charges charged in
    (
      exhausted,
      record b {
        last_charged_at = now;
        forced_charges = left;
        slice_exhausted = b.slice_exhausted || exhausted;
      },
    )

unfoldable pub force_slice_exhaustion_after : ℕ → CallBudget → CallBudget
force_slice_exhaustion_after charges b = record b { forced_charges = some charges }

unfoldable pub within : ℕ → Option ℕ → CallBudget → Bool × Option ℕ
within now none b = (not b.slice_exhausted && ltb now b.deadline, none)
within now (some zero) b = (false, some zero)
within now (some (suc n)) b = (true, some n)

unfoldable pub checkpoint : ℕ → CallBudget → Bool × CallBudget
unfolding within
checkpoint now b =
    let (within_budget, left) = within now b.forced_checkpoints b in
    (
      within_budget,
      record b { forced_checkpoints = left; yielded = b.yielded || not within_budget },
    )

unfoldable pub elapsed_nanoseconds : ℕ → CallBudget → ℕ
elapsed_nanoseconds now b = min (now - b.started_at) u64_max

-- The answers of one checkpoint at each reading.
unfoldable pub checkpoints : List ℕ → CallBudget → List Bool × CallBudget
unfolding checkpoint
checkpoints [] b = ([], b)
checkpoints (now ∷ later) b =
    let (go, b1) = checkpoint now b in let (goes, b2) = checkpoints later b1 in (go ∷ goes, b2)
