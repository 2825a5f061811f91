-- ===== src/PersistentActions.antt =====
-- src/persistent-actions.ts, class PersistentAction: one action as a state machine. Each `await` of
-- the class ends a step, so an order of steps is an interleaving of attempts, timers and
-- cancellations. What a step calls outside the class is the log `calls`; the clock is an argument,
-- and `nextRetry` the time that the source writes as text, none for ''.
pub mod Resolved
pub mod Selectors
mod Tests
use libcheloniajs.Base.{
  ℕ, suc, ◌+◌, ◌*◌, Bool, true, false, not, ◌&&◌, ◌||◌, List, [], ◌∷◌, ◌++◌, Option, none, some,
  String, ltb, if◌then◌else◌,
}

-- An absent maximum is infinity; the optional invocations are known by their calls only.
pub record PersistentActionOptions : Type 0 where
  pub max_attempts : Option ℕ
  pub retry_seconds : ℕ

pub record PersistentActionStatus : Type 0 where
  pub attempting : Bool
  pub failed_attempts_so_far : ℕ
  pub last_error : String
  pub next_retry : Option ℕ
  pub resolved : Bool

pub data ActionCall : Type 0 where
  skip_condition invocation error_invocation total_failure_invocation : ActionCall
  success failure total_failure : ActionCall
  timer_set timer_cleared : ActionCall

pub record PersistentAction : Type 0 where
  pub options : PersistentActionOptions
  pub status : PersistentActionStatus
  pub timer : Bool
  pub calls : List ActionCall

abbrev pub default_options : PersistentActionOptions
default_options = record { max_attempts = none; retry_seconds = 30 }

unfoldable pub new_action : PersistentActionOptions → PersistentAction
new_action options = record {
  options = options;
  status = record {
    attempting = false;
    failed_attempts_so_far = 0;
    last_error = "";
    next_retry = none;
    resolved = false;
  };
  timer = false;
  calls = [];
}

abbrev pub log : ActionCall → PersistentAction → PersistentAction
log c a = record a { calls = a.calls ++ c ∷ [] }

-- `attempt`, up to the call of the skip condition.
unfoldable pub attempt : PersistentAction → PersistentAction
attempt a = if a.status.attempting || a.status.resolved then a else log skip_condition a

unfoldable pub cancel : PersistentAction → PersistentAction
cancel a =
    let b = if a.timer then log timer_cleared a else a in
    record b { status = record b.status { next_retry = none; resolved = true } }

-- The step of `attempt` behind the skip condition, up to the invocation.
unfoldable pub after_skip_condition : Bool → PersistentAction → PersistentAction
after_skip_condition skip a =
    let b = if skip then cancel a else a in
    if b.status.resolved
    then b
    else log invocation (record b { status = record b.status { attempting = true } })

unfoldable pub handle_success : PersistentAction → PersistentAction
handle_success a =
    log success (record a {
      status = record a.status { last_error = ""; next_retry = none; resolved = true };
    })

abbrev pub stop_attempting : PersistentAction → PersistentAction
stop_attempting a = record a { status = record a.status { attempting = false } }

-- `options.maxAttempts > status.failedAttemptsSoFar`.
abbrev pub any_attempt_left : Option ℕ → ℕ → Bool
any_attempt_left none n = true
any_attempt_left (some m) n = ltb n m

-- `handleError`, up to the error invocation.
unfoldable pub handle_error : ℕ → String → PersistentAction → PersistentAction
handle_error now message a =
    let n = suc a.status.failed_attempts_so_far in
    let left = any_attempt_left a.options.max_attempts n in
    let resolved = not left || a.status.resolved in
    log error_invocation (
      log failure (record a {
        status = record a.status {
          failed_attempts_so_far = n;
          last_error = message;
          resolved = resolved;
          next_retry =
              if left && not resolved then some (now + a.options.retry_seconds * 1000) else none;
        };
      }))

-- Behind the error invocation; `left` is the constant that the call of handleError has kept.
unfoldable pub after_error_invocation : Bool → PersistentAction → PersistentAction
after_error_invocation true a = elim a.status.next_retry [
  | none ↦ a
  | some t ↦ log timer_set (record a { timer = true })
]
after_error_invocation false a = log total_failure_invocation (log total_failure a)

-- Behind the total failure invocation.
unfoldable pub schedule : PersistentAction → PersistentAction
schedule a = elim a.status.next_retry [
  | none ↦ a
  | some t ↦ log timer_set (record a { timer = true })
]

-- What may happen to an action. A `forced` or timed attempt is an attempt.
pub data ActionStep : Type 0 where
  attempts cancels schedules : ActionStep
  skip_known : Bool → ActionStep
  succeeds : ActionStep
  fails : ℕ → String → ActionStep
  error_invoked : Bool → ActionStep

unfoldable pub action_step : ActionStep → PersistentAction → PersistentAction
action_step attempts a = attempt a
action_step cancels a = cancel a
action_step schedules a = schedule a
action_step (skip_known skip) a = after_skip_condition skip a
action_step succeeds a = handle_success (stop_attempting a)
action_step (fails now message) a = handle_error now message (stop_attempting a)
action_step (error_invoked left) a = after_error_invocation left a

unfoldable pub run_action : List ActionStep → PersistentAction → PersistentAction
run_action [] a = a
run_action (s ∷ steps) a = run_action steps (action_step s a)
