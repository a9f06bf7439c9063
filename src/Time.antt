-- ===== src/Time.antt =====
-- native/smolnet_core/src/time.rs: times from the BEAM, which are i64 milliseconds.
use smolnet.Prelude.{ℕ, ◌^◌, ◌≤◌, ◌<◌, ◌≡◌, Bool, not, ltb, if◌then◌else◌, arith}
use smolnet.Prelude.Int.{ℤ, pos, negsuc, ltb_ℤ, ◌+ℤ◌, ◌-ℤ◌, ◌*ℤ◌, ◌≤ℤ◌}
use smolnet.Prelude.Result.{Result, ok, err}

-- Whether an integer is an i64.
abbrev pub is_i64 : ℤ → Bool
is_i64 (pos n) = ltb n (2 ^ 63)
is_i64 (negsuc n) = ltb n (2 ^ 63)

-- Microseconds, by `checked_mul`.
unfoldable pub instant_from_millis : ℤ → Result (Unit {0}) ℤ
unfolding ◌*ℤ◌
instant_from_millis millis =
    if is_i64 (millis *ℤ pos 1_000) then ok (millis *ℤ pos 1_000) else err tt

-- `u64::try_from`.
abbrev pub to_u64 : ℤ → Result (Unit {0}) ℕ
to_u64 (pos n) = ok n
to_u64 (negsuc n) = err tt

unfoldable pub time_until : ℤ → ℤ → Result (Unit {0}) ℕ
unfolding ◌-ℤ◌
time_until now_millis deadline_millis =
    if not (ltb_ℤ now_millis deadline_millis)
    then ok 0
    else if is_i64 (deadline_millis -ℤ now_millis)
    then to_u64 (deadline_millis -ℤ now_millis)
    else err tt

-- Between two times, a wait is 0 for a deadline that has come, and else, of what i64 can hold, exactly
-- what is missing; a wait that i64 cannot hold is refused.
pub time_until-exact :
    (now deadline : ℤ)
    → (deadline ≤ℤ now → time_until now deadline ≡ ok 0)
      × ((n : ℕ) → n < 2 ^ 63 → deadline ≡ now +ℤ pos n → time_until now deadline ≡ ok n)
      × ((n : ℕ) → 2 ^ 63 ≤ n → deadline ≡ now +ℤ pos n → time_until now deadline ≡ err tt)
unfolding time_until ◌-ℤ◌ ◌+ℤ◌
time_until-exact now deadline =
    (λ h. ground arith, λ n h e. rw e (ground arith), λ n h e. rw e (ground arith))
