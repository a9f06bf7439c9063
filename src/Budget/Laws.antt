-- ===== src/Budget/Laws.antt =====
-- native/smolnet_core/src/budget.rs: charges in range, and budgets that do not come back.
use smolnet.Prelude.{
  ℕ, zero, suc, ◌-◌, ◌*◌, ◌≤◌, ◌<◌, ◌≡◌, Bool, true, false, ◌&&◌, ◌||◌, refl, none, some, List, [],
  ◌∷◌, arith, leb, ltb, length, min,
}
use smolnet.Budget.{
  CallBudget, call_target, percent_of_call_target, charge, checkpoint, checkpoints,
}

-- A charge is from 1 to 100 percent of the call target. Up to that target the percents charged cover
-- the time, and one percent less would not, but for the least charge.
pub percent_of_call_target-bounds :
    (duration : ℕ)
    → (1 ≤ percent_of_call_target duration)
      × (percent_of_call_target duration ≤ 100)
      × (duration ≤ call_target → duration ≤ percent_of_call_target duration * 10_000)
      × (1 < percent_of_call_target duration
          → (percent_of_call_target duration - 1) * 10_000 < duration)
unfolding percent_of_call_target
percent_of_call_target-bounds duration = omega arith

unfoldable pub count_true : List Bool → ℕ
count_true [] = 0
count_true (true ∷ bs) = suc (count_true bs)
count_true (false ∷ bs) = count_true bs

-- `n` forced checkpoints: exactly the first `n` answers are yes, whatever the clock and the slice say,
-- and the budget reports a yield exactly when more were asked for, or it did before.
pub checkpoints-forced :
    (readings : List ℕ) (n : ℕ) (b : CallBudget)
    → b.forced_checkpoints ≡ some n
    → (count_true (checkpoints readings b).0 ≡ min n (length readings))
      × ((checkpoints readings b).1.yielded ≡ (b.yielded || ltb n (length readings)))
unfolding checkpoints count_true
checkpoints-forced [] n b h = ground arith
checkpoints-forced (now ∷ later) zero b h =
    ground (arith, checkpoints-forced later zero (checkpoint now b).1)
checkpoints-forced (now ∷ later) (suc n) b h =
    ground (arith, checkpoints-forced later n (checkpoint now b).1)

-- What a later call of the budget is: a checkpoint, or a charge, at a reading of the clock.
pub data BudgetCall : Type 0 where
  checks : ℕ → BudgetCall
  charges : ℕ → (ℕ → Bool) → BudgetCall

-- The answers of the checkpoints among the calls, in order.
unfoldable pub budget_answers : List BudgetCall → CallBudget → List Bool
unfolding checkpoint charge
budget_answers [] b = []
budget_answers (checks now ∷ calls) b =
    (checkpoint now b).0 ∷ budget_answers calls (checkpoint now b).1
budget_answers (charges now consume ∷ calls) b = budget_answers calls (charge now consume b).1

-- No checkpoint among the calls reads the clock before `first`.
unfoldable pub no_earlier : ℕ → List BudgetCall → Bool
no_earlier first [] = true
no_earlier first (checks now ∷ calls) = leb first now && no_earlier first calls
no_earlier first (charges now consume ∷ calls) = no_earlier first calls

spent-refuses :
    (first : ℕ) (calls : List BudgetCall) (b : CallBudget)
    → b.forced_checkpoints ≡ none
    → (b.slice_exhausted || leb b.deadline first) ≡ true
    → no_earlier first calls ≡ true
    → count_true (budget_answers calls b) ≡ 0
unfolding budget_answers no_earlier count_true checkpoint charge
spent-refuses first [] b h spent later = refl
spent-refuses first (checks now ∷ calls) b h spent later =
    ground (arith, spent-refuses first calls (checkpoint now b).1)
spent-refuses first (charges now consume ∷ calls) b h spent later =
    ground (arith, spent-refuses first calls (charge now consume b).1)

exhausted-refuses :
    (calls : List BudgetCall) (b : CallBudget)
    → b.forced_checkpoints ≡ none
    → b.slice_exhausted ≡ true
    → count_true (budget_answers calls b) ≡ 0
unfolding budget_answers count_true checkpoint charge
exhausted-refuses [] b h spent = refl
exhausted-refuses (checks now ∷ calls) b h spent =
    ground (arith, exhausted-refuses calls (checkpoint now b).1)
exhausted-refuses (charges now consume ∷ calls) b h spent =
    ground (arith, exhausted-refuses calls (charge now consume b).1)

-- Without forced answers, a budget that is spent stays spent. After a checkpoint that fails, and after a
-- charge that reports the slice as exhausted, every checkpoint of every later list of checkpoints and
-- charges fails, whatever the charges report, when after the checkpoint none reads an earlier clock.
pub checkpoint-spent :
    (now : ℕ) (consume : ℕ → Bool) (calls : List BudgetCall) (b : CallBudget)
    → b.forced_checkpoints ≡ none
    → ((checkpoint now b).0 ≡ false
        → no_earlier now calls ≡ true
        → count_true (budget_answers calls (checkpoint now b).1) ≡ 0)
      × ((charge now consume b).0 ≡ true
          → count_true (budget_answers calls (charge now consume b).1) ≡ 0)
unfolding checkpoint charge
checkpoint-spent now consume calls b h = (
  λ p later. spent-refuses now calls (checkpoint now b).1 (ground arith) (ground arith) later,
  λ p. exhausted-refuses calls (charge now consume b).1 (ground arith) (ground arith),
)
