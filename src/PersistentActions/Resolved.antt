-- ===== src/PersistentActions/Resolved.antt =====
-- src/persistent-actions.ts: what holds of an action in every order of its steps.
use libcheloniajs.Base.{
  ℕ, suc, ◌≤◌, ◌≡◌, refl, Bool, true, false, List, [], ◌∷◌, ◌++◌, none, some, arith, ap, ◌∙◌,
}
use libcheloniajs.PersistentActions.{
  PersistentActionOptions, PersistentAction, ActionCall, skip_condition, invocation,
  error_invocation, total_failure_invocation, success, failure, total_failure, timer_set,
  timer_cleared, new_action, attempt, cancel, after_skip_condition, handle_success, handle_error,
  after_error_invocation, schedule, ActionStep, attempts, cancels, schedules, skip_known, succeeds,
  fails, error_invoked, action_step, run_action,
}

-- How often the log has a call that attempts the action or schedules another attempt.
abbrev pub is_attempt : ActionCall → Bool
is_attempt skip_condition = true
is_attempt invocation = true
is_attempt timer_set = true
is_attempt _ = false

abbrev pub count_if : Bool → ℕ → ℕ
count_if true n = suc n
count_if false n = n

abbrev pub attempt_count : List ActionCall → ℕ
attempt_count [] = 0
attempt_count (c ∷ cs) = count_if (is_attempt c) (attempt_count cs)

count_if_swap : (b c : Bool) (n : ℕ) → count_if b (count_if c n) ≡ count_if c (count_if b n)
count_if_swap true true n = refl
count_if_swap true false n = refl
count_if_swap false c n = refl

attempt_count-concat :
    (cs : List ActionCall) (c : ActionCall)
    → attempt_count (cs ++ c ∷ []) ≡ count_if (is_attempt c) (attempt_count cs)
attempt_count-concat [] c = refl
attempt_count-concat (d ∷ cs) c =
    ap (count_if (is_attempt d)) (attempt_count-concat cs c)
    ∙ count_if_swap (is_attempt d) (is_attempt c) (attempt_count cs)

-- A resolved action has no next retry; one whose attempts are used up is resolved.
pub record IsSound (a : PersistentAction) : Type 0 where
  pub no_retry : a.status.resolved ≡ true → a.status.next_retry ≡ none
  pub used_up :
      (m : ℕ)
      → a.options.max_attempts ≡ some m
      → m ≤ a.status.failed_attempts_so_far
      → a.status.resolved ≡ true

step-IsSound : (s : ActionStep) (a : PersistentAction) → IsSound a → IsSound (action_step s a)
unfolding action_step attempt cancel schedule after_skip_condition handle_success handle_error
    after_error_invocation
step-IsSound attempts a i = record {
  no_retry = ground (arith, i.no_retry);
  used_up = λ m e l. ground (arith, i.used_up m, e, l);
}
step-IsSound cancels a i = record {
  no_retry = ground arith;
  used_up = λ m e l. ground (arith, i.used_up m, e, l);
}
step-IsSound schedules a i = record {
  no_retry = ground (arith, i.no_retry);
  used_up = λ m e l. ground (arith, i.used_up m, e, l);
}
step-IsSound (skip_known skip) a i = record {
  no_retry = ground (arith, i.no_retry);
  used_up = λ m e l. ground (arith, i.used_up m, e, l);
}
step-IsSound succeeds a i = record { no_retry = λ h. refl; used_up = λ m e l. refl }
step-IsSound (fails now message) a i = record {
  no_retry = ground (arith, i.no_retry);
  used_up = λ m e l. ground (arith, i.used_up m, e, l);
}
step-IsSound (error_invoked left) a i = record {
  no_retry = ground (arith, i.no_retry);
  used_up = λ m e l. ground (arith, i.used_up m, e, l);
}

-- Resolved, and with the same number of attempts as before.
abbrev AtRest : PersistentAction → PersistentAction → Type 0
AtRest a b = (b.status.resolved ≡ true) × (attempt_count b.calls ≡ attempt_count a.calls)

step-AtRest :
    (s : ActionStep) (a : PersistentAction)
    → IsSound a
    → a.status.resolved ≡ true
    → AtRest a (action_step s a)
unfolding action_step attempt cancel schedule after_skip_condition handle_success handle_error
    after_error_invocation
step-AtRest attempts a i r = (ground (arith, r), ground (arith, r))
step-AtRest cancels a i r =
    (ground (arith, r), ground (arith, attempt_count-concat a.calls timer_cleared))
step-AtRest schedules a i r = (ground (arith, r, i.no_retry r), ground (arith, r, i.no_retry r))
step-AtRest (skip_known skip) a i r =
    (ground (arith, r), ground (arith, r, attempt_count-concat a.calls timer_cleared))
step-AtRest succeeds a i r = (refl, attempt_count-concat a.calls success)
step-AtRest (fails now message) a i r = (
  ground (arith, r),
  attempt_count-concat (a.calls ++ failure ∷ []) error_invocation
      ∙ attempt_count-concat a.calls failure,
)
step-AtRest (error_invoked true) a i r =
    (ground (arith, r, i.no_retry r), ground (arith, r, i.no_retry r))
step-AtRest (error_invoked false) a i r = (
  r,
  attempt_count-concat (a.calls ++ total_failure ∷ []) total_failure_invocation
      ∙ attempt_count-concat a.calls total_failure,
)

new_action-IsSound :
    (options : PersistentActionOptions)
    → ((m : ℕ) → options.max_attempts ≡ some m → 1 ≤ m)
    → IsSound (new_action options)
unfolding new_action
new_action-IsSound options pos = record {
  no_retry = λ h. refl;
  used_up = λ m e l. let p = pos m e in absurd (omega (arith, p, l));
}

run-IsSound :
    (steps : List ActionStep) (a : PersistentAction) → IsSound a → IsSound (run_action steps a)
unfolding run_action
run-IsSound [] a i = i
run-IsSound (s ∷ steps) a i = run-IsSound steps (action_step s a) (step-IsSound s a i)

-- In every order of steps of a new action whose maximum of attempts is not 0, a resolved action has
-- no next retry, and an action whose failed attempts reach the maximum is resolved.
pub run_action-IsSound :
    (options : PersistentActionOptions) (steps : List ActionStep)
    → ((m : ℕ) → options.max_attempts ≡ some m → 1 ≤ m)
    → IsSound (run_action steps (new_action options))
run_action-IsSound options steps pos =
    run-IsSound steps (new_action options) (new_action-IsSound options pos)

run-AtRest :
    (steps : List ActionStep) (a : PersistentAction)
    → IsSound a
    → a.status.resolved ≡ true
    → AtRest a (run_action steps a)
unfolding run_action
run-AtRest [] a i r = (r, refl)
run-AtRest (s ∷ steps) a i r =
    let (still, same) = step-AtRest s a i r in
    let (rest, total) = run-AtRest steps (action_step s a) (step-IsSound s a i) still in
    (rest, total ∙ same)

-- Once an action of a maximum that is not 0 is resolved, it stays so, and whatever happens later
-- calls neither the skip condition nor the invocation, and sets no timer.
pub run_action_resolved :
    (options : PersistentActionOptions) (steps later : List ActionStep)
    → ((m : ℕ) → options.max_attempts ≡ some m → 1 ≤ m)
    → (run_action steps (new_action options)).status.resolved ≡ true
    → let a = run_action steps (new_action options) in
      ((run_action later a).status.resolved ≡ true)
      × (attempt_count (run_action later a).calls ≡ attempt_count a.calls)
run_action_resolved options steps later pos r =
    run-AtRest later _ (run_action-IsSound options steps pos) r
