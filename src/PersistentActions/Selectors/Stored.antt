-- ===== src/PersistentActions/Selectors/Stored.antt =====
-- src/persistent-actions.ts: what is left of the actions when they are saved, unloaded and loaded.
use libcheloniajs.Base.{
  ℕ, ◌≡◌, ◌∙◌, refl, true, [], ◌∷◌, Option, none, some, String, str_eq, eq_iff, lookup, insert,
  lookup-insert, arith, Bool-cases, inl, inr,
}
use libcheloniajs.PersistentActions.{PersistentAction, new_action, attempt, handle_error}
use libcheloniajs.PersistentActions.Selectors.{
  Actions, ActionsState, store_action, read_action, stored_actions, save, attempt_all, add_stored,
  load, unload,
}

-- No identifier stands twice.
abbrev pub Keyed : Actions → Type 0
Keyed [] = Unit {0}
Keyed ((id, a) ∷ actions) = (lookup id actions ≡ none) × Keyed actions

abbrev read_or : Option PersistentAction → Option PersistentAction → Option PersistentAction
read_or none o = o
read_or (some a) o = some (read_action (store_action "" a))

lookup-add_stored :
    (id : String) (actions loaded : Actions)
    → Keyed actions
    → lookup id (add_stored (stored_actions actions) loaded)
      ≡ read_or (lookup id actions) (lookup id loaded)
unfolding stored_actions add_stored lookup
lookup-add_stored id [] loaded keyed = refl
lookup-add_stored id ((k, a) ∷ actions) loaded keyed = elim (Bool-cases (str_eq k id)) [
  | inl same ↦ ground (
    arith,
    same,
    eq_iff k id,
    keyed.0,
    lookup-add_stored id actions (insert k (read_action (store_action k a)) loaded) keyed.1,
    lookup-insert k id (read_action (store_action k a)) loaded,
  )
  | inr other ↦ ground (
    arith,
    other,
    lookup-add_stored id actions (insert k (read_action (store_action k a)) loaded) keyed.1,
    lookup-insert k id (read_action (store_action k a)) loaded,
  )
]

lookup-attempt_all :
    (id : String) (actions : Actions) (a : PersistentAction)
    → lookup id actions ≡ some a
    → lookup id (attempt_all actions) ≡ some (attempt a)
unfolding lookup attempt_all
lookup-attempt_all id [] a found = cc
lookup-attempt_all id ((k, b) ∷ actions) a found = elim (Bool-cases (str_eq k id)) [
  | inl same ↦ ground (arith, same, found)
  | inr other ↦ ground (arith, other, found, lookup-attempt_all id actions a)
]

-- Where no identifier stands twice, an action that is saved, unloaded and loaded has its retry
-- delay and its finite maximum of attempts again, but where its maximum is infinite the loaded
-- action is resolved at its first failure.
pub load-save :
    (id : String) (a : PersistentAction) (st : ActionsState)
    → Keyed st.actions_by_id
    → lookup id st.actions_by_id ≡ some a
    → (b : PersistentAction) × (lookup id (load (unload (save st)).0).actions_by_id ≡ some b)
      × (b.options.retry_seconds ≡ a.options.retry_seconds)
      × ((m : ℕ) → a.options.max_attempts ≡ some m → b.options.max_attempts ≡ some m)
      × (a.options.max_attempts ≡ none
          → (now : ℕ) (message : String) → (handle_error now message b).status.resolved ≡ true)
unfolding load unload lookup attempt new_action handle_error
load-save id a st keyed found =
    let b = attempt (read_action (store_action "" a)) in
    (
      b,
      lookup-attempt_all id (add_stored (stored_actions st.actions_by_id) [])
          (read_action (store_action "" a))
          (lookup-add_stored id st.actions_by_id [] keyed ∙ rw found),
      refl,
      λ m finite. rw finite,
      λ infinite now message. rw infinite,
    )
