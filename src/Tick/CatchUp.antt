-- ===== src/Tick/CatchUp.antt =====
-- tick/catch_up.py: which of the missed fires are dispatched.
use z4j_scheduler.Prelude.{
  Bool, Text, List, [], ◌∷◌, codes, text_eq, ◌||◌, not, non_empty, if◌then◌else◌,
}
use z4j_scheduler.Entry.{Instant}

-- The result of `plan_catch_up`, or its `InvalidPolicyError`.
pub data Plan : Type 0 where
  plan : List Instant → Plan
  invalid_policy_error : Plan

-- `policy in VALID_POLICIES`
abbrev pub is_valid_policy : Text → Bool
is_valid_policy p =
    text_eq p (codes "skip")
    || text_eq p (codes "fire_one_missed")
    || text_eq p (codes "fire_all_missed")

-- `xs[-1]` of a non-empty list, as a list of one.
unfoldable pub last_one : List Instant → List Instant
last_one [] = []
last_one (x ∷ xs) = if non_empty xs then last_one xs else x ∷ []

unfoldable pub plan_catch_up : Text → List Instant → Plan
plan_catch_up policy missed_times =
    if not (is_valid_policy policy)
    then invalid_policy_error
    else if not (non_empty missed_times)
    then plan []
    else if text_eq policy (codes "skip")
    then plan []
    else if text_eq policy (codes "fire_one_missed")
    then plan (last_one missed_times)
    else plan missed_times
