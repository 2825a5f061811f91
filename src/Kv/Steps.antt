-- ===== src/Kv/Steps.antt =====
-- src/kv.ts: the slots' state under its events, in any order. A GET is begun and answered in two
-- events, between which any others may come; the answer of a write ends an update.
use libcheloniajs.Base.{
  ℕ, ◌≡◌, refl, Bool, List, [], ◌∷◌, Option, none, String, length, lookup, arith, Option-cases, inl,
  inr,
}
use libcheloniajs.Base.Throws.{Outcome}
use libcheloniajs.Journal.Log.{ErrorDetail}
use libcheloniajs.Journal.Redact.{Thrown}
use libcheloniajs.Kv.{SlotDefinition, KvLoadStatus}
use libcheloniajs.Kv.Values.{KvFailure, Output}
use libcheloniajs.Kv.Echo.{Bucket, bucket_of, echo_key_of}
use libcheloniajs.Kv.Echo.Laws.{Distinct}
use libcheloniajs.Kv.Echo.Record.{store-IsBounded}
use libcheloniajs.Kv.Mirror.{KvState}
use libcheloniajs.Kv.Mirror.Kept.{IsSound}
use libcheloniajs.Kv.Load.{Load, GetResult, begin_load, finish_load}
use libcheloniajs.Kv.Load.Storable.{begin_load-IsSound, finish_load-IsSound}
use libcheloniajs.Kv.Remote.{Frame, Demotion, demote, demote_conflict_markers, handle_remote}
use libcheloniajs.Kv.Remote.Storable.{handle_remote-IsSound}
use libcheloniajs.Kv.Write.{answer_write}
use libcheloniajs.Kv.Write.Storable.{answer_write-IsSound}

pub data KvStep : Type 0 where
  frame_arrived : ℕ → String → String → Frame → KvStep
  load_begun : Load → KvStep
  load_answered : Load → KvLoadStatus → Outcome Thrown (Option GetResult) → KvStep
  write_answered : ℕ → String → SlotDefinition → Output → Option String → Bool → Bool → KvStep
  get_settled : String → String → Demotion → KvStep

unfoldable pub kv_step : (KvFailure → ErrorDetail) → KvStep → KvState → KvState
kv_step detail (frame_arrived now c k frame) st = (handle_remote detail now c k frame st).0
kv_step detail (load_begun l) st = (begin_load l st).0
kv_step detail (load_answered l prior answer) st = (finish_load detail l prior answer st).0
kv_step detail (write_answered now c slot out etag conflict is_aborted) st =
    (answer_write now c slot out etag conflict is_aborted st).0
kv_step detail (get_settled c k d) st = demote_conflict_markers (echo_key_of c k) d st

abbrev pub run_kv : (KvFailure → ErrorDetail) → List KvStep → KvState → KvState
run_kv detail [] st = st
run_kv detail (e ∷ es) st = run_kv detail es (kv_step detail e st)

lookup-demote :
    (d : Demotion) (cid : String) (cids : Bucket)
    → lookup cid cids ≡ none
    → lookup cid (demote d cids) ≡ none
unfolding lookup demote
lookup-demote d cid [] h = refl
lookup-demote d cid ((x, e) ∷ cids) h = ground (arith, h, lookup-demote d cid cids)

Distinct-demote : (d : Demotion) (cids : Bucket) → Distinct cids → Distinct (demote d cids)
unfolding demote
Distinct-demote d [] h = tt
Distinct-demote d ((x, e) ∷ cids) h = (lookup-demote d x cids h.0, Distinct-demote d cids h.1)

length-demote : (d : Demotion) (cids : Bucket) → length (demote d cids) ≡ length cids
unfolding demote
length-demote d [] = refl
length-demote d ((x, e) ∷ cids) = rw (length-demote d cids)

demote-IsSound :
    (k : String) (d : Demotion) (st : KvState)
    → IsSound st
    → IsSound (demote_conflict_markers k d st)
unfolding demote_conflict_markers bucket_of
demote-IsSound k d st (kept, b) = elim (Option-cases (lookup k st.echo_cids)) [
  | inl gone ↦ rw (gone, demote_conflict_markers) (kept, b)
  | inr (cids, found) ↦
      let same : bucket_of k st.echo_cids ≡ cids = rw (found, bucket_of) in
      rw (found, demote_conflict_markers)
        (
          kept,
          store-IsBounded k (demote d cids) st.echo_cids
              (Distinct-demote d cids (rw same at (b.distinct k)))
              (rw (length-demote d cids) (rw same at (b.bounded k))) b,
        )
]

-- However frames, loads, the answers of GETs and the ends of updates follow on each other, if every value of
-- the mirror is absent or storable at first, and no bucket of echo CIDs has more than 128 entries
-- or one twice, then so it stays.
pub run_kv-IsSound :
    (detail : KvFailure → ErrorDetail) (es : List KvStep) (st : KvState)
    → IsSound st
    → IsSound (run_kv detail es st)
unfolding kv_step
run_kv-IsSound detail [] st sound = sound
run_kv-IsSound detail (e ∷ es) st sound = run_kv-IsSound detail es (kv_step detail e st) (stepped e)
  where
    stepped : (e : KvStep) → IsSound (kv_step detail e st)
    stepped (frame_arrived now c k frame) = handle_remote-IsSound detail now c k frame st sound
    stepped (load_begun l) = begin_load-IsSound l st sound
    stepped (load_answered l prior answer) = finish_load-IsSound detail l prior answer st sound
    stepped (write_answered now c slot out etag conflict is_aborted) =
        answer_write-IsSound now c slot out etag conflict is_aborted st sound
    stepped (get_settled c k d) = demote-IsSound (echo_key_of c k) d st sound
