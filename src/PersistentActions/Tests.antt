-- ===== src/PersistentActions/Tests.antt =====
-- Witnesses of the actions: those of one have two attempts at most, one failure, then a success.
use libcheloniajs.Base.{
  ℕ, ◌≤◌, ◌≡◌, refl, true, false, List, [], ◌∷◌, none, some, String, arith, lookup, erase,
}
use libcheloniajs.PersistentActions.{
  PersistentActionOptions, PersistentAction, default_options, new_action, attempt,
  after_skip_condition, handle_success, handle_error, after_error_invocation, ActionStep, attempts,
  cancels, schedules, skip_known, succeeds, fails, error_invoked, action_step, run_action,
}
use libcheloniajs.PersistentActions.Selectors.{
  ActionsState, stored_actions, save, load, unload, cancel_action,
}
use libcheloniajs.PersistentActions.Selectors.Stored.{Keyed, load-save}
use libcheloniajs.PersistentActions.Resolved.{
  IsSound, attempt_count, run_action-IsSound, run_action_resolved,
}

abbrev twice : PersistentActionOptions
twice = record { max_attempts = some 2; retry_seconds = 30 }

abbrev steps : List ActionStep
steps =
    attempts
    ∷ skip_known false
    ∷ fails 0 "e"
    ∷ error_invoked true
    ∷ attempts
    ∷ skip_known false
    ∷ succeeds
    ∷ []

at_least_one : (m : ℕ) → twice.max_attempts ≡ some m → 1 ≤ m
at_least_one m e = ground (arith, e)

succeeded : (run_action steps (new_action twice)).status.resolved ≡ true
unfolding run_action action_step new_action attempt after_skip_condition handle_success handle_error
    after_error_invocation
succeeded = refl

run_action-IsSound_example : IsSound (run_action steps (new_action twice))
run_action-IsSound_example = run_action-IsSound twice steps at_least_one

run_action_resolved_example :
    let a = run_action steps (new_action twice) in
    ((run_action (attempts ∷ cancels ∷ schedules ∷ []) a).status.resolved ≡ true)
    × (attempt_count (run_action (attempts ∷ cancels ∷ schedules ∷ []) a).calls
        ≡ attempt_count a.calls)
run_action_resolved_example =
    run_action_resolved twice steps (attempts ∷ cancels ∷ schedules ∷ []) at_least_one succeeded

-- One action without a maximum of attempts, which has been attempted.
abbrev one_action : ActionsState
one_action = record { actions_by_id = ("id", new_action default_options) ∷ []; database = none }

action_there : lookup "id" one_action.actions_by_id ≡ some (new_action default_options)
unfolding lookup
action_there = refl

one_action-Keyed : Keyed one_action.actions_by_id
unfolding lookup
one_action-Keyed = (refl, tt)

cancelled : (cancel_action "id" one_action).0.database ≡ some []
unfolding cancel_action lookup erase stored_actions
cancelled = refl

load-save_example :
    (b : PersistentAction) × (lookup "id" (load (unload (save one_action)).0).actions_by_id
      ≡ some b)
    × (b.options.retry_seconds ≡ (new_action default_options).options.retry_seconds)
    × ((m : ℕ)
        → (new_action default_options).options.max_attempts ≡ some m
        → b.options.max_attempts ≡ some m)
    × ((new_action default_options).options.max_attempts ≡ none
        → (now : ℕ) (message : String) → (handle_error now message b).status.resolved ≡ true)
load-save_example =
    load-save "id" (new_action default_options) one_action one_action-Keyed action_there
