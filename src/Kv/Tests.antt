-- ===== src/Kv/Tests.antt =====
-- Witnesses and tests of the key-value store.
use libcheloniajs.Base.{
  ◌≡◌, ◌≢◌, ◌⊎◌, refl, ◌↔◌, Bool-cases, inl, inr, true, false, List, [], ◌∷◌, Option, none, some,
  String, lookup, insert, any, str_eq, arith, eq_iff, erase,
}
use libcheloniajs.Base.Throws.{Outcome, ok, throw}
use libcheloniajs.Journal.Json.{
  null, strict_eq, number_eq, is_nan, Value, undefined, number, array, object, nil, cons, end,
  field,
}
use libcheloniajs.Journal.Log.{ErrorDetail}
use libcheloniajs.Kv.{SlotDefinition, Parsed, parsed, loaded, failed}
use libcheloniajs.Kv.Values.{
  check_parsed, visit, is_finite, KvFailure, output, validated, validate_reducer_output, read_value,
  assert_json_shape,
}
use libcheloniajs.Kv.Shape.{IsStorable, assert_json_shape-eq-ok_iff}
use libcheloniajs.Kv.Echo.{
  EchoCids, echo_key_of, bucket_of, record_echo_cid, purge_expired_echo_cids,
}
use libcheloniajs.Kv.Echo.Record.{IsBounded}
use libcheloniajs.Kv.Mirror.{KvState, find_in, on_load}
use libcheloniajs.Kv.Mirror.Content.{content_at}
use libcheloniajs.Kv.Mirror.Kept.{IsSound, ContentKept}
use libcheloniajs.Kv.Load.{Load}
use libcheloniajs.Kv.Remote.{Frame, settled, get_then, listed, every, handle_remote}
use libcheloniajs.Kv.Remote.Echo.{handle_remote-record_echo_cid, handle_remote-conflict}
use libcheloniajs.Kv.Steps.{
  KvStep, frame_arrived, load_begun, load_answered, write_answered, get_settled, run_kv,
  run_kv-IsSound,
}
use libcheloniajs.Kv.Filters.{
  Filters, FilterEvent, changed, dropped, cleaned, microtask, timer, run, step, queue_filter_flush,
  cleanup_filters, put_filter, add, remove, flush_dirty_filters, next_filter,
}
use libcheloniajs.Kv.Filters.Steps.{FlushedBut, pending}
use libcheloniajs.Kv.Filters.Drain.{
  no_filters, exempt_in, run-no_filters-IsFlushed, settle_all, IsIdle, run-settle_all-ends,
}
use libcheloniajs.Kv.Filters.Retry.{all_dispatched, timer-converges}
use libcheloniajs.Kv.Guards.{
  assert_schema_guards, round_trip_default, IsGuarded, assert_schema_guards-IsGuarded,
}
use libcheloniajs.Journal.Redact.{Thrown, thrown}
use libcheloniajs.Kv.Read.{resolve_active_slot, read}
use libcheloniajs.Kv.Write.{answer_write, committed}
use libcheloniajs.Kv.Write.Read.{read-answer_write}
use libcheloniajs.Kv.Cleanup.{
  RuntimeStep, reconciled, subscribed, released, run_runtime, run_runtime-IsIndexed,
}
use libcheloniajs.Kv.Reconcile.{Runtime, is_emptied, reconcile_for_slot}
use libcheloniajs.Kv.Reconcile.Index.{IsIndexed}
use libcheloniajs.Kv.Reconcile.Unflushed.{reconcile_for_slot-unflushed}

abbrev detail_of : KvFailure → ErrorDetail
detail_of f = record { name = "Error"; message = "failed" }

abbrev prefs : SlotDefinition
prefs = record {
  identity = 1;
  contract_type = "gi.contracts/group";
  key = "prefs";
  resolved_default = undefined;
  schema = none;
  encryption_key_name = some "cek";
  signing_key_name = "csk";
  auto_subscribe = true;
  auto_load_on_sync = true;
  refresh_on_reconnect = true;
  has_on_update = true;
}

-- A contract "C" with one active slot, whose value has been loaded.
abbrev one_slot : KvState
one_slot = record {
  kv =
      (
        "C",
        ("prefs", record { value = number 1; etag = some "e1"; status = loaded; last_error = none })
            ∷ [],
      )
      ∷ [];
  slots = ("C", ("prefs", prefs) ∷ []) ∷ [];
  subscriptions = "C" ∷ [];
  echo_cids = [];
  pending_loads = [];
  on_update_active = [];
  calls = [];
}

abbrev frame_of : Option String → Frame
frame_of cid = record { body = ok (number 2); cid = cid }

no_cids-IsBounded : IsBounded []
unfolding bucket_of lookup
no_cids-IsBounded = record { distinct = λ k. tt; bounded = λ k. omega arith }

slot_there : find_in "C" "prefs" one_slot.slots ≡ some prefs
unfolding find_in lookup
slot_there = refl

entry_there :
    find_in "C" "prefs" one_slot.kv
    ≡ some (record { value = number 1; etag = some "e1"; status = loaded; last_error = none })
unfolding find_in lookup
entry_there = refl

named : ◌≢◌ {A = String} "e2" ""
named = ground (arith, eq_iff "e2" "")

handle_remote-record_echo_cid_example :
    (m : EchoCids) × (handle_remote detail_of 2000 "C" "prefs"
        (frame_of (some "e2"))
        (record one_slot { echo_cids = record_echo_cid 1000 "C" "prefs" (some "e2") false [] })
      ≡ (record one_slot { echo_cids = m }, settled))
    × (lookup "e2" (bucket_of (echo_key_of "C" "prefs") m) ≡ none)
handle_remote-record_echo_cid_example =
    handle_remote-record_echo_cid detail_of 2000 "C" "prefs" (frame_of (some "e2")) 1000 "e2" false
      prefs one_slot no_cids-IsBounded slot_there refl named (omega arith)

abbrev after_conflict : KvState
after_conflict = record one_slot {
  echo_cids = ("C::prefs", ("e9", record { expiry = 5000; from_conflict = true }) ∷ []) ∷ [];
}

unrecorded : lookup "e2" (bucket_of (echo_key_of "C" "prefs") after_conflict.echo_cids) ≡ none
unfolding lookup bucket_of
unrecorded = refl

marked :
    lookup "e9" (bucket_of (echo_key_of "C" "prefs") after_conflict.echo_cids)
    ≡ some (record { expiry = 5000; from_conflict = true })
unfolding lookup bucket_of
marked = refl

handle_remote-conflict_example :
    (cs : List String) × (handle_remote detail_of 2000 "C" "prefs"
        (frame_of (some "e2"))
        after_conflict
      ≡ (
        record after_conflict {
          echo_cids =
              purge_expired_echo_cids (echo_key_of "C" "prefs") 2000 after_conflict.echo_cids;
        },
        get_then (listed cs),
      ))
    × (any (λ d. str_eq d "e9") cs ≡ true)
handle_remote-conflict_example =
    handle_remote-conflict detail_of 2000 "C" "prefs" (frame_of (some "e2")) prefs "e2" "e9"
      (record { expiry = 5000; from_conflict = true }) after_conflict slot_there refl named
      unrecorded marked refl (omega arith)

-- { "a": [1, {}] }.
abbrev shape : Value
shape = object (field "a" (array (cons (number 1) (cons (object end) nil))) end)

assert_json_shape-eq-ok_iff_example : (assert_json_shape shape ≡ ok shape) ↔ IsStorable shape
assert_json_shape-eq-ok_iff_example = assert_json_shape-eq-ok_iff shape

one_slot-IsSound : IsSound one_slot
unfolding find_in lookup is_finite
one_slot-IsSound = (at_slot, no_cids-IsBounded)
  where
    at_slot : (c k : String) → ContentKept (content_at c k one_slot)
    at_slot c k = elim (Bool-cases (str_eq "C" c)) [
      | inr other ↦ rw (other, find_in, lookup) tt
      | inl same ↦ elim (Bool-cases (str_eq "prefs" k)) [
        | inr other ↦ rw (same, other, find_in, lookup) tt
        | inl this ↦ rw (same, this, find_in, lookup) (inr (refl, omega arith))
      ]
    ]

abbrev the_load : Load
the_load = record {
  contract_id = "C";
  slot = prefs;
  reason = on_load;
  flags = record {
    suppress_loading_status = false;
    preserve_status_on_error = false;
    silent = false;
  };
}

abbrev kv_steps : List KvStep
kv_steps =
    write_answered 1000 "C" prefs (output (number 2)) (some "e2") true false
    ∷ load_begun the_load
    ∷ frame_arrived 2000 "C" "prefs" (frame_of (some "e3"))
    ∷ load_answered the_load loaded (ok (some (record { body = ok (number 3); etag = some "e3" })))
    ∷ get_settled "C" "prefs" every
    ∷ []

run_kv-IsSound_example : IsSound (run_kv detail_of kv_steps one_slot)
run_kv-IsSound_example = run_kv-IsSound detail_of kv_steps one_slot one_slot-IsSound

-- Two filters change, the first `setFilter` fails, and one changes again while it is awaited.
abbrev filter_events : List FilterEvent
filter_events =
    changed "C" (some ("prefs" ∷ []))
    ∷ changed "D" (some [])
    ∷ microtask false
    ∷ changed "C" none
    ∷ dropped "E"
    ∷ cleaned "F"
    ∷ []

run-no_filters-IsFlushed_example :
    FlushedBut (exempt_in filter_events no_filters (λ c. false)) (run filter_events no_filters)
run-no_filters-IsFlushed_example = run-no_filters-IsFlushed filter_events

-- The state while the first `setFilter` is awaited.
abbrev in_flight : Filters
in_flight = record {
  active = ("D", []) ∷ [];
  dirty = "D" ∷ "C" ∷ [];
  retry = [];
  retry_timer = false;
  flush_in_flight = true;
  microtasks = 0;
  awaited = some ("C", false);
  handed = [];
}

in_flight_lem : run filter_events no_filters ≡ in_flight
unfolding step queue_filter_flush cleanup_filters put_filter add remove flush_dirty_filters
    next_filter lookup insert erase
in_flight_lem = refl

run-settle_all-ends_example : IsIdle (run (settle_all (true ∷ false ∷ true ∷ [])) in_flight)
run-settle_all-ends_example =
    run-settle_all-ends (true ∷ false ∷ true ∷ []) in_flight refl refl (omega arith)

-- Where "C" waits for the timer.
abbrev to_retry : Filters
to_retry = record {
  active = ("C", "prefs" ∷ []) ∷ [];
  dirty = [];
  retry = "C" ∷ [];
  retry_timer = true;
  flush_in_flight = false;
  microtasks = 0;
  awaited = none;
  handed = [];
}

to_retry-IsFlushed : FlushedBut (str_eq "E") to_retry
unfolding lookup
to_retry-IsFlushed = record {
  one = refl;
  woken = refl;
  timed = refl;
  synced = λ c. ground (arith, eq_iff "C" c);
}

timer-converges_example :
    IsIdle (run (timer true ∷ all_dispatched 1) to_retry)
    × ((c : String)
        → (str_eq "E" c ≡ true)
          ⊎ (lookup c (run (timer true ∷ all_dispatched 1) to_retry).handed
              ≡ lookup c (run (timer true ∷ all_dispatched 1) to_retry).active))
timer-converges_example =
    timer-converges (str_eq "E") 1 to_retry to_retry-IsFlushed
      (record { clean = refl; unawaited = refl; landed = refl }) (omega arith)

-- "C" has one active slot, of local use alone, and `setFilter` has been given an empty filter.
abbrev local_slot : SlotDefinition
local_slot = record prefs { auto_subscribe = false }

abbrev local_only : Runtime
local_only = record {
  store = record one_slot { slots = ("C", ("prefs", local_slot) ∷ []) ∷ [] };
  filters = record no_filters { active = ("C", []) ∷ []; handed = ("C", []) ∷ [] };
}

abbrev type_of : String → Option String
type_of c = some "gi.contracts/group"

local_there : find_in "C" "prefs" local_only.store.slots ≡ some local_slot
unfolding find_in lookup
local_there = refl

only_there :
    (c k : String) (s : SlotDefinition)
    → find_in c k local_only.store.slots ≡ some s
    → (local_slot ≡ s) × (◌≡◌ {A = String} "C" c) × (◌≡◌ {A = String} "prefs" k)
unfolding find_in lookup
only_there c k s h = elim (Bool-cases (str_eq "C" c)) [
  | inr other ↦ absurd (ground (arith, other, h))
  | inl same ↦ elim (Bool-cases (str_eq "prefs" k)) [
    | inr other ↦ absurd (ground (arith, same, other, h))
    | inl this ↦ (ground (arith, same, this, h), (eq_iff "C" c).0 same, (eq_iff "prefs" k).0 this)
  ]
]

local_only-IsIndexed : IsIndexed type_of local_only
unfolding find_in lookup
local_only-IsIndexed = record {
  keyed = λ c k s h.
      let (slot, contract, key) = only_there c k s h in
      rw (← slot, ← contract, ← key) (refl, refl, refl);
  filtered = λ c k s h.
      let (slot, contract, key) = only_there c k s h in rw (← slot, ← contract) (refl, refl);
  owned = λ c k h. ground (arith, h, eq_iff "C" c);
}

told : lookup "C" local_only.filters.handed ≡ some []
unfolding lookup
told = refl

last : is_emptied "C" "prefs" local_only.store.slots ≡ true
unfolding lookup erase
last = refl

reconcile_for_slot-unflushed_example :
    let f = (reconcile_for_slot type_of (some (ok false)) local_slot "C" local_only).0.filters in
    (lookup "C" f.active ≡ none) × (pending "C" f ≡ false) × (lookup "C" f.handed ≡ some [])
reconcile_for_slot-unflushed_example =
    reconcile_for_slot-unflushed type_of (some (ok false)) local_slot "C" local_only
      local_only-IsIndexed local_there refl last refl refl told

abbrev runtime_steps : List RuntimeStep
runtime_steps =
    subscribed "D"
    ∷ reconciled none prefs "C"
    ∷ reconciled none prefs "D"
    ∷ reconciled (some (ok false)) prefs "C"
    ∷ released "D"
    ∷ []

run_runtime-IsIndexed_example : IsIndexed type_of (run_runtime type_of runtime_steps local_only)
run_runtime-IsIndexed_example =
    run_runtime-IsIndexed type_of runtime_steps local_only local_only-IsIndexed

-- A schema that keeps every value but the two sentinels.
abbrev keep : Value → Outcome Thrown Parsed
keep null = throw (thrown "null")
keep undefined = throw (thrown "undefined")
keep v = ok (parsed v)

abbrev with_schema : SlotDefinition
with_schema = record prefs { schema = some keep; resolved_default = number 1 }

guards_pass : assert_schema_guards strict_eq with_schema ≡ ok with_schema
unfolding assert_schema_guards round_trip_default check_parsed assert_json_shape visit is_finite
    strict_eq number_eq is_nan
guards_pass = refl

assert_schema_guards-IsGuarded_example : IsGuarded strict_eq keep with_schema
assert_schema_guards-IsGuarded_example =
    assert_schema_guards-IsGuarded strict_eq keep with_schema with_schema refl guards_pass

-- The slot whose load has failed.
abbrev failed_slot : KvState
failed_slot = record one_slot {
  kv =
      (
        "C",
        ("prefs", record { value = number 1; etag = some "e1"; status = failed; last_error = none })
            ∷ [],
      )
      ∷ [];
}

written_is_valid : validate_reducer_output prefs (output (number 2)) ≡ ok (validated (number 2))
unfolding validate_reducer_output read_value assert_json_shape visit is_finite
written_is_valid = refl

prefs_active : resolve_active_slot (str_eq "C") type_of "C" "prefs" failed_slot ≡ ok prefs
unfolding resolve_active_slot find_in lookup
prefs_active = refl

failed_there :
    find_in "C" "prefs" failed_slot.kv
    ≡ some (record { value = number 1; etag = some "e1"; status = failed; last_error = none })
unfolding find_in lookup
failed_there = refl

read-answer_write_example :
    let r = answer_write 1000 "C" prefs (output (number 2)) (some "e2") false false failed_slot in
    (read (str_eq "C") type_of "C" "prefs" r.0 ≡ ok (number 2)) × (r.1 ≡ committed (number 2))
read-answer_write_example =
    read-answer_write (str_eq "C") type_of 1000 "C" prefs (output (number 2)) (number 2) (some "e2")
      false (record { value = number 1; etag = some "e1"; status = failed; last_error = none })
      failed_slot written_is_valid prefs_active failed_there
