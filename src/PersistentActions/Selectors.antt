-- ===== src/PersistentActions/Selectors.antt =====
-- src/persistent-actions.ts: the selectors over the actions by their identifier, and what they keep
-- in the database. JSON has no infinity: it prints one as null, which an order takes for 0. The
-- database is the list that was saved last, none where nothing was.
pub mod Stored
use libcheloniajs.Base.{
  ℕ, Bool, List, [], ◌∷◌, Option, none, some, String, if◌then◌else◌, lookup, insert, erase,
}
use libcheloniajs.PersistentActions.{
  PersistentActionOptions, PersistentActionStatus, PersistentAction, timer_cleared, new_action, log,
  attempt, cancel,
}

abbrev pub Actions : Type 0
Actions = List (String × PersistentAction)

pub data JsonNumber : Type 0 where
  json_null : JsonNumber
  json_number : ℕ → JsonNumber

-- Of an action's JSON, what loading it reads.
pub record StoredAction : Type 0 where
  pub id : String
  pub max_attempts : JsonNumber
  pub retry_seconds : ℕ

pub record ActionsState : Type 0 where
  pub actions_by_id : Actions
  pub database : Option (List StoredAction)

abbrev pub to_json : Option ℕ → JsonNumber
to_json none = json_null
to_json (some m) = json_number m

abbrev pub from_json : JsonNumber → Option ℕ
from_json json_null = some 0
from_json (json_number m) = some m

abbrev pub store_action : String → PersistentAction → StoredAction
store_action id a = record {
  id = id;
  max_attempts = to_json a.options.max_attempts;
  retry_seconds = a.options.retry_seconds;
}

abbrev pub read_action : StoredAction → PersistentAction
read_action stored =
    new_action (record {
      max_attempts = from_json stored.max_attempts;
      retry_seconds = stored.retry_seconds;
    })

unfoldable pub stored_actions : Actions → List StoredAction
stored_actions [] = []
stored_actions ((id, a) ∷ actions) = store_action id a ∷ stored_actions actions

-- `chelonia.persistentActions/save`.
abbrev pub save : ActionsState → ActionsState
save st = record st { database = some (stored_actions st.actions_by_id) }

-- `chelonia.persistentActions/forceRetry`: the attempt, up to its first await.
unfoldable pub force_retry : String → ActionsState → ActionsState
force_retry id st = elim (lookup id st.actions_by_id) [
  | none ↦ st
  | some a ↦ record st { actions_by_id = insert id (attempt a) st.actions_by_id }
]

unfoldable pub attempt_all : Actions → Actions
attempt_all [] = []
attempt_all ((id, a) ∷ actions) = (id, attempt a) ∷ attempt_all actions

-- `chelonia.persistentActions/retryAll`.
abbrev pub retry_all : ActionsState → ActionsState
retry_all st = record st { actions_by_id = attempt_all st.actions_by_id }

unfoldable pub add_stored : List StoredAction → Actions → Actions
add_stored [] actions = actions
add_stored (s ∷ stored) actions = add_stored stored (insert s.id (read_action s) actions)

abbrev pub or_none_stored : Option (List StoredAction) → List StoredAction
or_none_stored none = []
or_none_stored (some stored) = stored

-- `chelonia.persistentActions/load`.
unfoldable pub load : ActionsState → ActionsState
load st =
    retry_all
      (record st { actions_by_id = add_stored (or_none_stored st.database) st.actions_by_id })

-- `chelonia.persistentActions/cancel`, with the calls of the action that goes.
unfoldable pub cancel_action : String → ActionsState → ActionsState × Option PersistentAction
cancel_action id st = elim (lookup id st.actions_by_id) [
  | none ↦ (st, none)
  | some a ↦ (save (record st { actions_by_id = erase id st.actions_by_id }), some (cancel a))
]

abbrev pub clear_timer : PersistentAction → PersistentAction
clear_timer a = if a.timer then log timer_cleared a else a

unfoldable pub clear_timers : Actions → Actions
clear_timers [] = []
clear_timers ((id, a) ∷ actions) = (id, clear_timer a) ∷ clear_timers actions

-- `chelonia.persistentActions/unload`, with the actions that it lets go.
unfoldable pub unload : ActionsState → ActionsState × Actions
unload st = (record st { actions_by_id = [] }, clear_timers st.actions_by_id)

unfoldable pub add_new : List (String × PersistentActionOptions) → Actions → Actions
add_new [] actions = actions
add_new ((id, options) ∷ args) actions = add_new args (insert id (new_action options) actions)

abbrev pub attempt_each : List (String × PersistentActionOptions) → ActionsState → ActionsState
attempt_each [] st = st
attempt_each ((id, options) ∷ args) st = attempt_each args (force_retry id st)

-- `chelonia.persistentActions/enqueue`; the identifiers are those that `crypto.randomUUID` makes.
unfoldable pub enqueue : List (String × PersistentActionOptions) → ActionsState → ActionsState
enqueue args st =
    attempt_each args (save (record st { actions_by_id = add_new args st.actions_by_id }))

-- `chelonia.persistentActions/status`.
unfoldable pub status_all : Actions → List (String × PersistentActionStatus)
status_all [] = []
status_all ((id, a) ∷ actions) = (id, a.status) ∷ status_all actions
