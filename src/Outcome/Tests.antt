-- ===== src/Outcome/Tests.antt =====
-- The theorem on outcomes, for two calls.
use aiokpl.Common.{ℕ, ◌≡◌, some, List, [], ◌∷◌, All}
use aiokpl.Common.Result.{ok, err}
use aiokpl.Outcome.{already_set, new_outcome, wait}
use aiokpl.Outcome.OneShot.{
  Call, with_value, with_exception, result, after, after_all, wait-after_all,
}

abbrev late : List (Call ℕ ℕ)
late = with_exception 4 ∷ with_value 5 ∷ []

wait-after_all_example :
    (wait (after_all (with_value 3 ∷ late) new_outcome) ≡ some (ok (some 3)))
    × All (λ d. result d (after (with_value 3) new_outcome) ≡ err already_set) late
wait-after_all_example = wait-after_all (with_value 3) late
