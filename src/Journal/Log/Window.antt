-- ===== src/Journal/Log/Window.antt =====
-- src/journal.ts, `appendAndTrim`: the length of the journal's window.
use libcheloniajs.Base.{
  ℕ, zero, suc, ◌-◌, ◌*◌, ◌<◌, ◌≤◌, ◌≡◌, false, List, [], ◌∷◌, ◌++◌, some, arith, length,
  length-append, Option-cases, Bool-cases, inl, inr, leb, if◌then◌else◌,
}
use libcheloniajs.Journal.Json.{Value, is_undefined}
use libcheloniajs.Journal.Log.{
  JournalEntry, is_snapshot, index_of_last_snapshot, patches_since, auto_snapshot, push_snapshot,
  drop_entries, trim, append_and_trim,
}

pub index_of_last_snapshot-lt :
    (es : List JournalEntry) (i : ℕ) → index_of_last_snapshot es ≡ some i → i < length es
unfolding index_of_last_snapshot
index_of_last_snapshot-lt [] i h = cc
index_of_last_snapshot-lt (e ∷ es) i h = elim (Option-cases (index_of_last_snapshot es)) [
  | inl none_later ↦ ground (arith, h, none_later)
  | inr (k, later) ↦ ground (arith, h, later, index_of_last_snapshot-lt es k later)
]

pub index_of_last_snapshot-concat :
    (es : List JournalEntry) (e : JournalEntry)
    → index_of_last_snapshot (es ++ e ∷ [])
      ≡ (if is_snapshot e then some (length es) else index_of_last_snapshot es)
unfolding index_of_last_snapshot
index_of_last_snapshot-concat [] e = ground arith
index_of_last_snapshot-concat (x ∷ es) e = ground (arith, index_of_last_snapshot-concat es e)

pub length-drop_entries :
    (n : ℕ) (es : List JournalEntry) → length (drop_entries n es) ≡ length es - n
length-drop_entries zero es = omega arith
length-drop_entries (suc n) [] = omega arith
length-drop_entries (suc n) (e ∷ es) = omega (arith, length-drop_entries n es)

-- A window with few entries behind its last snapshot is trimmed to within twice the interval.
trim_bound :
    (es : List JournalEntry) (interval : ℕ)
    → patches_since es < interval
    → length (trim es interval) ≤ 2 * interval
unfolding trim
trim_bound es interval h = elim (Option-cases (index_of_last_snapshot es)) [
  | inl e ↦ ground (arith, e, h)
  | inr (i, e) ↦ ground (arith, e, h, length-drop_entries i es, index_of_last_snapshot-lt es i e)
]

-- After a patch entry the journal holds at most twice the interval of entries, whatever it held
-- before, if the interval is not 0 and the state for a snapshot is not undefined.
pub length-append_and_trim-le :
    (es : List JournalEntry) (e : JournalEntry) (interval : ℕ) (state : Value)
    → is_snapshot e ≡ false
    → is_undefined state ≡ false
    → 1 ≤ interval
    → length (append_and_trim es e interval (some state)) ≤ 2 * interval
unfolding append_and_trim push_snapshot
length-append_and_trim-le es e interval state p d pos =
    elim (Bool-cases (leb interval (patches_since (es ++ e ∷ [])))) [
      | inl full ↦
          rw (d, p, full)
            (trim_bound ((es ++ e ∷ []) ++ auto_snapshot e state ∷ []) interval (
              ground (
                arith,
                pos,
                index_of_last_snapshot-concat (es ++ e ∷ []) (auto_snapshot e state),
                length-append (es ++ e ∷ []) (auto_snapshot e state ∷ []),
              )))
      | inr few ↦ rw (d, p, few) (trim_bound (es ++ e ∷ []) interval (ground (arith, few)))
    ]
