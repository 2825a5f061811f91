-- ===== src/Journal/Log/Replay.antt =====
-- src/journal.ts: what `reconstruct` reads back from the journal that `appendAndTrim` keeps.
use libcheloniajs.Base.{
  ℕ, zero, suc, ◌*◌, ◌≤◌, ◌≡◌, refl, ap, ◌∙◌, sym, not, List, [], ◌∷◌, ◌++◌, Option, none, some,
  arith, length, Option-cases, Bool-cases, ◌⊎◌, inl, inr, leb, ltb, ◌&&◌,
}
use libcheloniajs.Base.Throws.{Outcome, ok, throw, >>=-eq-ok}
use libcheloniajs.Journal.Json.{Value, is_undefined}
use libcheloniajs.Journal.Diff.{Patch}
use libcheloniajs.Journal.Log.{
  JournalEntry, Body, snapshot, patches, is_snapshot, index_of_last_snapshot, patches_since,
  auto_snapshot, push_snapshot, drop_entries, trim, append_and_trim, corrupt, replay_body,
  start_from, replay, replay_from, resume, reconstruct,
}
use libcheloniajs.Journal.Log.Window.{index_of_last_snapshot-lt, index_of_last_snapshot-concat}

drop_entries-concat :
    (n : ℕ) (es : List JournalEntry) (e : JournalEntry)
    → n ≤ length es
    → drop_entries n (es ++ e ∷ []) ≡ drop_entries n es ++ e ∷ []
drop_entries-concat zero es e h = refl
drop_entries-concat (suc n) [] e h = absurd (omega arith)
drop_entries-concat (suc n) (x ∷ es) e h = drop_entries-concat n es e (omega arith)

drop_entries_all :
    (es : List JournalEntry) (e : JournalEntry) → drop_entries (length es) (es ++ e ∷ []) ≡ e ∷ []
drop_entries_all [] e = refl
drop_entries_all (x ∷ es) e = drop_entries_all es e

-- Behind the last snapshot there is no other.
index_of_last_snapshot-drop_entries :
    (es : List JournalEntry) (i : ℕ)
    → index_of_last_snapshot es ≡ some i
    → index_of_last_snapshot (drop_entries i es) ≡ some 0
unfolding index_of_last_snapshot
index_of_last_snapshot-drop_entries [] i h = cc
index_of_last_snapshot-drop_entries (e ∷ es) zero h = ground (arith, h)
index_of_last_snapshot-drop_entries (e ∷ es) (suc i) h =
    index_of_last_snapshot-drop_entries es i (ground (arith, h))

corrupt_index :
    {E : Type 0} (o : Outcome E Value) (i j : ℕ) {r : Value}
    → corrupt i o ≡ ok r
    → corrupt j o ≡ ok r
corrupt_index (ok a) i j h = h
corrupt_index (throw e) i j h = cc

module _ {E : Type 0} (apply_patch : Value → List Patch → Outcome E Value) where
  replay_body_index :
      (b : Body) (i j : ℕ) (s : Value) {r : Value}
      → replay_body apply_patch b i s ≡ ok r
      → replay_body apply_patch b j s ≡ ok r
  unfolding replay_body
  replay_body_index (snapshot v) i j s h = h
  replay_body_index (patches ps) i j s h = corrupt_index (apply_patch s ps) i j h

  -- A result does not depend on the index that errors would carry.
  replay_index :
      (es : List JournalEntry) (i j : ℕ) (s r : Value)
      → replay apply_patch es i s ≡ ok r
      → replay apply_patch es j s ≡ ok r
  unfolding replay
  replay_index [] i j s r h = h
  replay_index (e ∷ es) i j s r h =
      let (u, first, rest) = >>=-eq-ok (replay_body apply_patch e.body i s) _ h in
      rw (replay_body_index e.body i j s first) (replay_index es (suc i) (suc j) u r rest)

  start_index :
      (b : Body) (es : List JournalEntry) (i j : ℕ) (r : Value)
      → start_from apply_patch b es i ≡ ok (some r)
      → start_from apply_patch b es j ≡ ok (some r)
  start_index (snapshot v) es i j r h =
      let (s, done, same) = >>=-eq-ok (replay apply_patch es (suc i) v) _ h in
      rw (replay_index es (suc i) (suc j) v s done) same
  start_index (patches ps) es i j r h = cc

  from_index :
      (es : List JournalEntry) (i j : ℕ) (r : Value)
      → replay_from apply_patch es i ≡ ok (some r)
      → replay_from apply_patch es j ≡ ok (some r)
  from_index [] i j r h = cc
  from_index (e ∷ es) i j r h = start_index e.body es i j r h

  reconstruct_at :
      (es : List JournalEntry) (o : Option ℕ)
      → index_of_last_snapshot es ≡ o
      → reconstruct apply_patch es ≡ resume apply_patch o es
  unfolding reconstruct
  reconstruct_at es o e = ap (λ k. resume apply_patch k es) e

  -- Trimming keeps what the journal reconstructs.
  reconstruct-trim :
      (es : List JournalEntry) (interval : ℕ) (r : Value)
      → reconstruct apply_patch es ≡ ok (some r)
      → reconstruct apply_patch (trim es interval) ≡ ok (some r)
  unfolding trim
  reconstruct-trim es interval r h = elim (Bool-cases (ltb (2 * interval) (length es))) [
    | inr short ↦ rw short h
    | inl long ↦ elim (Option-cases (index_of_last_snapshot es)) [
      | inl e ↦ rw (long, e) h
      | inr (i, e) ↦
          rw (long, e)
            (reconstruct_at (drop_entries i es) (some 0)
                (index_of_last_snapshot-drop_entries es i e)
              ∙ from_index (drop_entries i es) i 0 r (sym (reconstruct_at es (some i) e) ∙ h))
    ]
  ]

  replay-concat :
      (es : List JournalEntry) (e : JournalEntry) (i : ℕ) (s r : Value) (ps : List Patch)
      {u : Value}
      → e.body ≡ patches ps
      → replay apply_patch es i s ≡ ok r
      → apply_patch r ps ≡ ok u
      → replay apply_patch (es ++ e ∷ []) i s ≡ ok u
  unfolding replay replay_body
  replay-concat [] e i s r ps b h k = ground (arith, b, h, k)
  replay-concat (x ∷ es) e i s r ps b h k =
      let (u, first, rest) = >>=-eq-ok (replay_body apply_patch x.body i s) _ h in
      rw first (replay-concat es e (suc i) u r ps b rest k)

  start-concat :
      (b : Body) (es : List JournalEntry) (e : JournalEntry) (i : ℕ) (r u : Value) (ps : List Patch)
      → e.body ≡ patches ps
      → start_from apply_patch b es i ≡ ok (some r)
      → apply_patch r ps ≡ ok u
      → start_from apply_patch b (es ++ e ∷ []) i ≡ ok (some u)
  start-concat (snapshot v) es e i r u ps eb h k =
      let (s, done, same) = >>=-eq-ok (replay apply_patch es (suc i) v) _ h in
      let next : apply_patch s ps ≡ ok u = ground (arith, same, k) in
      rw (replay-concat es e (suc i) v s ps {u = u} eb done next)
  start-concat (patches qs) es e i r u ps eb h k = cc

  from-concat :
      (es : List JournalEntry) (e : JournalEntry) (i : ℕ) (r u : Value) (ps : List Patch)
      → e.body ≡ patches ps
      → replay_from apply_patch es i ≡ ok (some r)
      → apply_patch r ps ≡ ok u
      → replay_from apply_patch (es ++ e ∷ []) i ≡ ok (some u)
  from-concat [] e i r u ps eb h k = cc
  from-concat (x ∷ es) e i r u ps eb h k = start-concat x.body es e i r u ps eb h k

  -- A patch entry at the end applies its patches to what the journal reconstructs.
  reconstruct-concat :
      (es : List JournalEntry) (e : JournalEntry) (r u : Value) (ps : List Patch)
      → e.body ≡ patches ps
      → reconstruct apply_patch es ≡ ok (some r)
      → apply_patch r ps ≡ ok u
      → reconstruct apply_patch (es ++ e ∷ []) ≡ ok (some u)
  reconstruct-concat es e r u ps eb h k = elim (Option-cases (index_of_last_snapshot es)) [
    | inl gone ↦ cc (reconstruct_at es none gone)
    | inr (i, found) ↦
        reconstruct_at (es ++ e ∷ []) (some i)
          (ground (arith, index_of_last_snapshot-concat es e, eb, found))
        ∙ ap (λ fs. replay_from apply_patch fs i)
            (drop_entries-concat i es e (omega (arith, index_of_last_snapshot-lt es i found)))
        ∙ from-concat (drop_entries i es) e i r u ps eb (sym (reconstruct_at es (some i) found) ∙ h)
            k
  ]

  -- A snapshot at the end is what the journal reconstructs.
  reconstruct-snapshot :
      (es : List JournalEntry) (e : JournalEntry) (state : Value)
      → e.body ≡ snapshot state
      → reconstruct apply_patch (es ++ e ∷ []) ≡ ok (some state)
  unfolding replay
  reconstruct-snapshot es e state eb =
      reconstruct_at (es ++ e ∷ []) (some (length es))
        (ground (arith, index_of_last_snapshot-concat es e, eb))
      ∙ ap (λ fs. replay_from apply_patch fs (length es)) (drop_entries_all es e)
      ∙ rw eb

  -- If the journal reconstructs a state and the patches of a new entry apply to it, then the
  -- journal that `appendAndTrim` makes reconstructs the patched state, or the state that it was
  -- given for the snapshot, whatever it trims.
  pub reconstruct-append_and_trim :
      (es : List JournalEntry) (e : JournalEntry) (interval : ℕ) (state r u : Value)
      (ps : List Patch)
      → e.body ≡ patches ps
      → reconstruct apply_patch es ≡ ok (some r)
      → apply_patch r ps ≡ ok u
      → (w : Value) × (reconstruct apply_patch (append_and_trim es e interval (some state))
          ≡ ok (some w))
        × ((w ≡ u) ⊎ (w ≡ state))
  unfolding append_and_trim push_snapshot
  reconstruct-append_and_trim es e interval state r u ps eb h k =
      elim (Bool-cases (
        not (is_undefined state)
        && (not (is_snapshot e) && leb interval (patches_since (es ++ e ∷ []))))) [
          | inl full ↦ (
            state,
            rw full (
                reconstruct-trim _ interval state
                  (reconstruct-snapshot (es ++ e ∷ []) (auto_snapshot e state) state refl)),
            inr refl,
          )
          | inr few ↦ (
            u,
            rw few (reconstruct-trim _ interval u (reconstruct-concat es e r u ps eb h k)),
            inl refl,
          )
        ]
