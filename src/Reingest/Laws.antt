-- ===== src/Reingest/Laws.antt =====
-- src/reingestTracker.ts: the tracker's operations on one contract's entries.
use libcheloniajs.Base.{
  ℕ, ◌+◌, ◌≤◌, ◌<◌, ◌≡◌, refl, inl, inr, true, false, List, [], ◌∷◌, ◌++◌, Option, none, some,
  String, str_eq, eq_iff, arith, if◌then◌else◌, leb, length, lookup, insert, lookup-insert,
  lookup-erase, Option-cases,
}
use libcheloniajs.Reingest.{
  Entry, Trackers, reingest_per_contract_cap, has_hash, ensure, note_future_event, delete_hash,
  store, note_reingest_success, keep_above, count_stale, prune_stale_entries,
}

-- The entries of a contract; a contract without a set has none.
abbrev pub or_empty : Option (List Entry) → List Entry
or_empty none = []
or_empty (some s) = s

abbrev pub entries : String → Trackers → List Entry
entries c ts = or_empty (lookup c ts)

-- What holds of a contract's entries: within the cap, hashes distinct, all above the height.
abbrev pub Fresh : ℕ → List Entry → Type 0
Fresh h [] = Unit {0}
Fresh h (e ∷ s) = (has_hash e.hash s ≡ false) × (h < e.height) × Fresh h s

pub entries-store :
    (c d : String) (s : List Entry) (ts : Trackers)
    → entries d (store c s ts) ≡ (if str_eq c d then s else entries d ts)
unfolding store
entries-store c d [] ts = ground (arith, lookup-erase c d ts)
entries-store c d (e ∷ s) ts = ground (arith, lookup-insert c d (e ∷ s) ts)

pub has_hash-concat :
    (hash : String) (s : List Entry) (e : Entry)
    → has_hash hash (s ++ e ∷ []) ≡ (if has_hash hash s then true else str_eq e.hash hash)
unfolding has_hash
has_hash-concat hash [] e = ground arith
has_hash-concat hash (x ∷ s) e = ground (arith, has_hash-concat hash s e)

pub Fresh-concat :
    (h : ℕ) (s : List Entry) (e : Entry)
    → has_hash e.hash s ≡ false
    → h < e.height
    → Fresh h s
    → Fresh h (s ++ e ∷ [])
unfolding has_hash
Fresh-concat h [] e p q f = ground arith
Fresh-concat h (x ∷ s) e p q f = ground (
  arith,
  Fresh-concat h s e,
  has_hash-concat x.hash s e,
  eq_iff x.hash e.hash,
  eq_iff e.hash x.hash,
)

has_hash-delete_hash :
    (hash k : String) (s : List Entry)
    → has_hash k s ≡ false
    → has_hash k (delete_hash hash s) ≡ false
unfolding has_hash delete_hash
has_hash-delete_hash hash k [] p = refl
has_hash-delete_hash hash k (x ∷ s) p = ground (arith, has_hash-delete_hash hash k s)

delete_hash-absent :
    (hash : String) (s : List Entry) → has_hash hash s ≡ false → delete_hash hash s ≡ s
unfolding has_hash delete_hash
delete_hash-absent hash [] p = refl
delete_hash-absent hash (x ∷ s) p = ground (arith, delete_hash-absent hash s)

pub Fresh-delete_hash :
    (h : ℕ) (hash : String) (s : List Entry) → Fresh h s → Fresh h (delete_hash hash s)
unfolding delete_hash
Fresh-delete_hash h hash [] f = tt
Fresh-delete_hash h hash (x ∷ s) f =
    ground (arith, Fresh-delete_hash h hash s, has_hash-delete_hash hash x.hash s)

-- In a set of distinct hashes the deletion leaves no entry with the hash.
pub delete_hash-gone :
    (h : ℕ) (hash : String) (s : List Entry)
    → Fresh h s
    → has_hash hash (delete_hash hash s) ≡ false
unfolding has_hash delete_hash
delete_hash-gone h hash [] f = refl
delete_hash-gone h hash (x ∷ s) f = ground (arith, delete_hash-gone h hash s, eq_iff x.hash hash)

pub has_hash-keep_above :
    (n : ℕ) (k : String) (s : List Entry)
    → has_hash k s ≡ false
    → has_hash k (keep_above n s) ≡ false
unfolding has_hash keep_above
has_hash-keep_above n k [] p = refl
has_hash-keep_above n k (x ∷ s) p = ground (arith, has_hash-keep_above n k s)

pub Fresh-keep_above : (h n : ℕ) (s : List Entry) → Fresh h s → Fresh n (keep_above n s)
unfolding keep_above
Fresh-keep_above h n [] f = tt
Fresh-keep_above h n (x ∷ s) f =
    ground (arith, Fresh-keep_above h n s, has_hash-keep_above n x.hash s)

pub length-delete_hash-le : (k : String) (s : List Entry) → length (delete_hash k s) ≤ length s
unfolding delete_hash
length-delete_hash-le k [] = omega arith
length-delete_hash-le k (x ∷ s) = ground (arith, length-delete_hash-le k s)

-- The returned number is the number of entries that are gone.
pub count_stale-keep_above :
    (n : ℕ) (s : List Entry) → length (keep_above n s) + count_stale n s ≡ length s
unfolding keep_above count_stale
count_stale-keep_above n [] = refl
count_stale-keep_above n (x ∷ s) = ground (arith, count_stale-keep_above n s)

-- The three operations through `entries`.
pub entries-note_future_event :
    (c d hash : String) (height : ℕ) (ts : Trackers)
    → entries d (note_future_event c hash height ts).0 ≡ (
        if str_eq c d
        then (if has_hash hash (entries c ts)
            then entries c ts
            else if leb reingest_per_contract_cap (length (entries c ts))
            then entries c ts
            else entries c ts ++ record { hash = hash; height = height } ∷ [])
        else entries d ts)
unfolding note_future_event ensure has_hash
entries-note_future_event c d hash height ts = elim (Option-cases (lookup c ts)) [
  | inl e ↦ ground (
    arith,
    e,
    eq_iff c d,
    lookup-insert c d [] ts,
    lookup-insert c d (record { hash = hash; height = height } ∷ []) (insert c [] ts),
  )
  | inr (s, e) ↦ ground (
    arith,
    e,
    eq_iff c d,
    lookup-insert c d (s ++ record { hash = hash; height = height } ∷ []) ts,
  )
]

pub entries-note_reingest_success :
    (c d hash : String) (ts : Trackers)
    → entries d (note_reingest_success c hash ts).0
      ≡ (if str_eq c d then delete_hash hash (entries c ts) else entries d ts)
unfolding note_reingest_success delete_hash
entries-note_reingest_success c d hash ts = elim (Option-cases (lookup c ts)) [
  | inl e ↦ ground (arith, e, eq_iff c d)
  | inr (s, e) ↦
      ground
        (arith, e, eq_iff c d, entries-store c d (delete_hash hash s) ts, delete_hash-absent hash s)
]

pub entries-prune_stale_entries :
    (c d : String) (n : ℕ) (ts : Trackers)
    → entries d (prune_stale_entries c n ts).0
      ≡ (if str_eq c d then keep_above n (entries c ts) else entries d ts)
unfolding prune_stale_entries keep_above
entries-prune_stale_entries c d n ts = elim (Option-cases (lookup c ts)) [
  | inl e ↦ ground (arith, e, eq_iff c d)
  | inr (s, e) ↦ ground (arith, e, entries-store c d (keep_above n s) ts)
]
