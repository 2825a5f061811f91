-- ===== src/Db/Refinement.antt =====
-- src/db.ts: adding an entry refines the growth of the contract's chain.
use libcheloniajs.Base.{
  ℕ, suc, ◌≡◌, ◌∙◌, ap, refl, Bool, true, false, [], ◌∷◌, ◌++◌, Option, none, some, String, str_eq,
  eq_iff, if◌then◌else◌, All, lookup, lookup-insert, arith, Bool-cases, inl, inr, ◌⊎◌,
}
use libcheloniajs.Base.Throws.{Outcome, ok, throw}
use libcheloniajs.Journal.Redact.{Thrown}
use libcheloniajs.Db.{
  Entry, Store, Key, log_head, hash_key, height_index, DbError, BadHead, no_latest_head,
  previous_head_differs, previous_key_op_differs, height_differs, head_exists, height_not_zero,
  contract_id_of, is_text, is_first_message, is_height, same_text, join, or_zero, check_head,
  head_info_of, put_entry_text, put_head, put_meta, write_meta, write_head, write_entry, set_then,
}
use libcheloniajs.Db.Chain.{
  Chain, latest_key_op, length_of, is_next, IsLinked, head_of, IsStored, IsLog,
}

-- Adding a text under a hash that has none leaves what is stored.
IsStored-put_entry_text :
    (c : String) (s : Store) (e : Entry) (es : Chain)
    → is_text (lookup e.hash s.entries) ≡ false
    → All (IsStored c s) es
    → All (IsStored c (put_entry_text e s)) es
IsStored-put_entry_text c s e [] new all = tt
IsStored-put_entry_text c s e (x ∷ es) new (here, later) = (
  record {
    of_contract = here.of_contract;
    nonempty = here.nonempty;
    stored = ground (
      arith,
      new,
      here.stored,
      here.nonempty,
      lookup-insert e.hash x.hash e.serialized s.entries,
      eq_iff e.hash x.hash,
    );
  },
  IsStored-put_entry_text c s e es new later,
)

is_next-height :
    (e : Entry) (es : Chain) → is_next e es ≡ true → is_height (length_of es) e.height ≡ true
unfolding is_next
is_next-height e [] h = ground (arith, h)
is_next-height e (p ∷ es) h = ground (arith, h)

or_zero-eq : (n : ℕ) (o : Option ℕ) → is_height n o ≡ true → or_zero o ≡ n
or_zero-eq n none h = cc
or_zero-eq n (some k) h = ground (arith, h)

-- The code's checks of the head let an entry pass exactly when it is the next one of the chain.
pub check_head-is_next :
    (e : Entry) (es : Chain)
    → ((check_head e (head_of es) ≡ ok tt) × (is_next e es ≡ true))
      ⊎ ((b : BadHead) × (check_head e (head_of es) ≡ throw b) × (is_next e es ≡ false))
unfolding check_head is_next
check_head-is_next e [] = elim (Bool-cases (is_first_message e)) [
  | inr later ↦ inr (no_latest_head, ground (arith, later), ground (arith, later))
  | inl first ↦ elim (Bool-cases (is_height 0 e.height)) [
    | inl zero ↦ inl (ground (arith, first, zero), ground (arith, first, zero))
    | inr above ↦ inr (height_not_zero, ground (arith, first, above), ground (arith, first, above))
  ]
]
check_head-is_next e (p ∷ es) = elim (Bool-cases (is_first_message e)) [
  | inl first ↦ inr (head_exists, ground (arith, first), ground (arith, first))
  | inr later ↦ elim (Bool-cases (same_text e.previous_head (some p.hash))) [
    | inr other ↦
        inr (previous_head_differs, ground (arith, later, other), ground (arith, later, other))
    | inl same ↦ elim (Bool-cases (same_text e.previous_key_op (latest_key_op (p ∷ es)))) [
      | inr other ↦ inr (
        previous_key_op_differs,
        ground (arith, later, same, other),
        ground (arith, later, same, other),
      )
      | inl same_op ↦ elim (Bool-cases (is_height (suc (length_of es)) e.height)) [
        | inl next ↦
            inl (
              ground (arith, later, same, same_op, next),
              ground (arith, later, same, same_op, next),
            )
        | inr gap ↦ inr (
          height_differs,
          ground (arith, later, same, same_op, gap),
          ground (arith, later, same, same_op, gap),
        )
      ]
    ]
  ]
]

-- An entry whose writes are done is the head of the longer chain.
pub put_head-IsLog :
    (c : String) (e : Entry) (es : Chain) (s : Store)
    → contract_id_of e ≡ c
    → is_text (some e.serialized) ≡ true
    → is_text (lookup e.hash s.entries) ≡ false
    → is_next e es ≡ true
    → IsLog c es s
    → IsLog c (e ∷ es) (put_head e (put_entry_text e s))
unfolding IsLinked head_info_of
put_head-IsLog c e es s mine text new next log = record {
  head = ground (
    arith,
    mine,
    lookup-insert (contract_id_of e) c (some (head_info_of e)) s.heads,
    eq_iff (contract_id_of e) c,
    or_zero-eq (length_of es) e.height (is_next-height e es next),
  );
  linked = (next, log.linked);
  stored = (
    record {
      of_contract = mine;
      nonempty = text;
      stored =
          ground (arith, lookup-insert e.hash e.hash e.serialized s.entries, eq_iff e.hash e.hash);
    },
    put_all es (IsStored-put_entry_text c s e es new log.stored),
  );
}
  where
    put_all :
        (xs : Chain)
        → All (IsStored c (put_entry_text e s)) xs
        → All (IsStored c (put_head e (put_entry_text e s))) xs
    put_all [] all = tt
    put_all (x ∷ xs) (here, later) = (
      record { of_contract = here.of_contract; nonempty = here.nonempty; stored = here.stored },
      put_all xs later,
    )

-- The text of an entry alone adds nothing to a log.
put_entry_text-IsLog :
    (c : String) (e : Entry) (es : Chain) (s : Store)
    → is_text (lookup e.hash s.entries) ≡ false
    → IsLog c es s
    → IsLog c es (put_entry_text e s)
put_entry_text-IsLog c e es s new log = record {
  head = log.head;
  linked = log.linked;
  stored = IsStored-put_entry_text c s e es new log.stored;
}

-- What changes no entry and not the contract's head keeps the log.
IsLog-same :
    (c : String) (es : Chain) (s s' : Store)
    → s'.entries ≡ s.entries
    → join (lookup c s'.heads) ≡ join (lookup c s.heads)
    → IsLog c es s
    → IsLog c es s'
IsLog-same c es s s' texts heads log = record {
  head = heads ∙ log.head;
  linked = log.linked;
  stored = kept es log.stored;
}
  where
    kept : (xs : Chain) → All (IsStored c s) xs → All (IsStored c s') xs
    kept [] all = tt
    kept (x ∷ xs) (here, later) = (
      record {
        of_contract = here.of_contract;
        nonempty = here.nonempty;
        stored = ap (lookup x.hash) texts ∙ here.stored;
      },
      kept xs later,
    )

-- The log of the contract, with entries that have come before it.
abbrev pub Grown : String → Chain → Store → Type 0
Grown c es s = (more : Chain) × IsLog c (more ++ es) s

module _ (saves : Bool) (is_error_db : Thrown → Bool)
    (set_error : Key → Store → Option Thrown) where
  -- What holds before a `set` and of what follows it holds of both.
  on_set :
      (P : Store → Type 0) (o : Option Thrown) (s : Store) (rest : Store × Outcome DbError String)
      → P s
      → P rest.0
      → P (set_then saves is_error_db set_error o s rest).0
  on_set P none s rest before after = after
  on_set P (some t) s rest before after = before

  pub write_meta-IsLog :
      (c : String) (e : Entry) (es : Chain) (s : Store)
      → IsLog c es s
      → IsLog c es (write_meta saves is_error_db set_error e s).0
  unfolding write_meta
  write_meta-IsLog c e es s log = at_saves saves
    where
      at_saves :
          (b : Bool)
          → IsLog c es
              (if b
                then set_then saves is_error_db set_error
                    (set_error (height_index (contract_id_of e) (or_zero e.height)) s)
                    s
                    (put_meta e s, ok e.hash)
                else (s, ok e.hash)).0
      at_saves false = log
      at_saves true =
          on_set (IsLog c es) (set_error (height_index (contract_id_of e) (or_zero e.height)) s) s
            (put_meta e s, ok e.hash) log (IsLog-same c es s (put_meta e s) refl refl log)

  pub write_entry-Grown :
      (c : String) (e : Entry) (es : Chain) (s : Store)
      → is_text (some e.serialized) ≡ true
      → is_text (lookup e.hash s.entries) ≡ false
      → (contract_id_of e ≡ c → is_next e es ≡ true)
      → IsLog c es s
      → Grown c es (write_entry saves is_error_db set_error e s).0
  unfolding write_entry write_head
  write_entry-Grown c e es s text new next log =
      on_set (Grown c es) (set_error (hash_key e.hash) s) s _ ([], log)
        (on_set (Grown c es) (set_error (log_head (contract_id_of e)) s1) s1 _ ([], log1) headed)
    where
      s1 : Store
      s1 = put_entry_text e s

      log1 : IsLog c es s1
      log1 = put_entry_text-IsLog c e es s new log

      headed : Grown c es (write_meta saves is_error_db set_error e (put_head e s1)).0
      headed = elim (Bool-cases (str_eq (contract_id_of e) c)) [
        | inl same ↦
            let mine : contract_id_of e ≡ c = (eq_iff (contract_id_of e) c).0 same in
            (
              e ∷ [],
              write_meta-IsLog c e (e ∷ es) (put_head e s1)
                  (put_head-IsLog c e es s mine text new (next mine) log),
            )
        | inr other ↦ (
          [],
          write_meta-IsLog c e es (put_head e s1) (
              IsLog-same c es s1 (put_head e s1) refl
                (ground (
                  arith,
                  other,
                  lookup-insert (contract_id_of e) c (some (head_info_of e)) s.heads,
                ))
                log1),
        )
      ]
