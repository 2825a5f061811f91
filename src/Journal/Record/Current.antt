-- ===== src/Journal/Record/Current.antt =====
-- src/journal.ts: what `reconstruct` gives after `recordEvent`, with the default diff and applier.
use libcheloniajs.Base.{
  ◌≡◌, refl, sym, Bool, true, false, List, [], ◌∷◌, Option, some, String, Bool-cases, ◌⊎◌, inl, inr,
  if◌then◌else◌, subst,
}
use libcheloniajs.Base.Throws.{ok}
use libcheloniajs.Journal.Json.{Value, undefined, null, clone_value_lem}
use libcheloniajs.Journal.Same.{IsJson, Same, Same-refl}
use libcheloniajs.Journal.Unpack.{Same-trans}
use libcheloniajs.Journal.Diff.{Patch, default_diff}
use libcheloniajs.Journal.Turtledash.{Turtledash}
use libcheloniajs.Journal.Apply.{default_apply_patch, apply_all}
use libcheloniajs.Journal.Apply.Respects.{default_apply_patch-Same}
use libcheloniajs.Journal.RoundTrip.Main.{default_apply_patch-default_diff}
use libcheloniajs.Journal.Config.{
  Resolved, Throwable, error_detail, default_differ, default_patcher,
}
use libcheloniajs.Journal.Log.{
  snapshot, patches, JournalEntry, append_and_trim, reconstruct, replay, index_of_last_snapshot,
}
use libcheloniajs.Journal.Log.Replay.{reconstruct-append_and_trim}
use libcheloniajs.Journal.Record.{
  Event, last_entry, is_first_or_resync, redacted, or_no_patch, entry_of, next_entries,
}

module _ (t : Turtledash) where
  abbrev pub with_defaults : Resolved → Resolved
  with_defaults cfg = record cfg { diff = default_differ t; apply_patch = default_patcher t }

  -- The journal reconstructs a value equal to `v`.
  abbrev pub Current : List JournalEntry → Value → Type 0
  Current es v = (w : Value) × (reconstruct (default_patcher t) es ≡ ok (some w)) × Same w v

  first_Current : (v : Value) (e : JournalEntry) → e.body ≡ snapshot v → Current (e ∷ []) v
  unfolding reconstruct index_of_last_snapshot replay
  first_Current v e h = (v, rw h, Same-refl v)

  -- The patches between two values, applied to a value equal to the first.
  patched :
      (s b a : Value)
      → IsJson b
      → IsJson a
      → Same s b
      → (u : Value) × (default_patcher t s (default_diff b a) ≡ ok u) × Same u a
  patched s b a json_b json_a like =
      let (r, done, same) = default_apply_patch-default_diff t b a json_b json_a in
      let (u, done', like') = default_apply_patch-Same t s b r (default_diff b a) like done in
      (u, rw done', Same-trans u r a like' same)

  unpatched : (s : Value) → default_patcher t s [] ≡ ok s
  unfolding default_apply_patch apply_all
  unpatched s = rw (clone_value_lem s)

  module _ (cfg : Resolved) where
    appended_Current :
        (es : List JournalEntry) (e : JournalEntry) (r u v : Value) (ps : List Patch)
        → e.body ≡ patches ps
        → reconstruct (default_patcher t) es ≡ ok (some r)
        → default_patcher t r ps ≡ ok u
        → Same u v
        → Current (append_and_trim es e cfg.snapshot_interval (some v)) v
    appended_Current es e r u v ps eb h k like =
        let (w, done, which) =
          reconstruct-append_and_trim (default_patcher t) es e cfg.snapshot_interval v r u ps eb h
            k in
        (w, done, either w which)
      where
        either : (w : Value) → (w ≡ u) ⊎ (w ≡ v) → Same w v
        either w (inl same) = subst (λ x. Same x v) (sym same) like
        either w (inr same) = subst (λ x. Same x v) (sym same) (Same-refl v)

    -- With the default diff and applier: if, unless the event starts a new window, the redacted
    -- states before and after the event are JSON, and the journal reconstructs the one before it,
    -- and a failed event leaves the redacted state as it was, then the journal after the event
    -- reconstructs the redacted state after it, each up to the order of keys, NaN and the sign of
    -- zero.
    pub next_entries-Current :
        (name : String) (es : List JournalEntry) (ev : Event) (before after : Option Value)
        (errored : Bool) (error : Throwable)
        → (is_first_or_resync ev (last_entry es) ≡ false
            → IsJson (redacted t cfg name undefined before)
              × IsJson (redacted t cfg name null after)
              × Current es (redacted t cfg name undefined before))
        → (errored ≡ true → redacted t cfg name undefined before ≡ redacted t cfg name null after)
        → Current
            (next_entries t (with_defaults cfg) name es ev before after errored error)
            (redacted t cfg name null after)
    unfolding next_entries
    next_entries-Current name es ev before after errored error current failed =
        elim (Bool-cases (is_first_or_resync ev (last_entry es))) [
          | inl first ↦ rw first (first_Current _ _ refl)
          | inr later ↦
              let (json_b, json_a, now) = current later in
              rw later (kept errored failed json_b json_a now)
        ]
      where
        kept :
            (b : Bool)
            → (b ≡ true → redacted t cfg name undefined before ≡ redacted t cfg name null after)
            → IsJson (redacted t cfg name undefined before)
            → IsJson (redacted t cfg name null after)
            → Current es (redacted t cfg name undefined before)
            → Current
                (append_and_trim es
                  (entry_of ev
                    (patches (
                      if b
                      then []
                      else or_no_patch (
                          default_differ t
                            (redacted t cfg name undefined before)
                            (redacted t cfg name null after))))
                    (error_detail errored error))
                  cfg.snapshot_interval
                  (some (redacted t cfg name null after)))
                (redacted t cfg name null after)
        kept true same json_b json_a (r, done, like) =
            appended_Current es _ r r _ [] refl done (unpatched r) (subst (Same r) (same refl) like)
        kept false same json_b json_a (r, done, like) =
            let (u, applied, like') = patched r _ _ json_b json_a like in
            appended_Current es _ r u _ _ refl done applied like'
