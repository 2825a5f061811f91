-- ===== src/Kv/Mirror/Kept.antt =====
-- src/kv.ts: the values that the mirror may hold, and what keeps them.
use libcheloniajs.Base.{
  ◌≡◌, refl, sym, Bool, true, false, ◌&&◌, Option, lookup, none, some, String, str_eq,
  if◌then◌else◌, Option-cases, ◌⊎◌, inl, inr, subst,
}
use libcheloniajs.Journal.Json.{Value, undefined}
use libcheloniajs.Journal.Log.{ErrorDetail}
use libcheloniajs.Kv.{SlotDefinition, KvLoadStatus}
use libcheloniajs.Kv.Shape.{IsStorable}
use libcheloniajs.Kv.Mirror.{
  KvMirrorEntry, KvUpdateReason, KvState, entry_at, put_entry, set_slot_status, ensure_contract_kv,
  safe_on_update_guarded, set_status_of, status_eq, same_error,
}
use libcheloniajs.Kv.Echo.Record.{IsBounded}
use libcheloniajs.Kv.Mirror.Content.{
  content, content_at, find_in-put_in, content_at-set_slot_status, content_at-ensure_contract_kv,
}

-- A property of both branches holds of the conditional.
pub on_if {ℓ ℓ'} :
    {A : Type ℓ} → (P : A → Type ℓ') (b : Bool) (x y : A) → P x → P y → P (if b then x else y)
on_if P true x y px py = px
on_if P false x y px py = py

-- The same, where each branch may use the test.
pub on_test {ℓ ℓ'} :
    {A : Type ℓ}
    → (P : A → Type ℓ') (b : Bool) (x y : A) → (b ≡ true → P x)
    → (b ≡ false → P y)
    → P (if b then x else y)
on_test P true x y px py = px refl
on_test P false x y px py = py refl

-- Nothing, or a storable value.
abbrev pub Kept : Value → Type 0
Kept v = (v ≡ undefined) ⊎ IsStorable v

abbrev pub ContentKept : Option (Value × Option String) → Type 0
ContentKept none = Unit {0}
ContentKept (some (v, etag)) = Kept v

-- Every value of the mirror is absent or storable, and the echo CIDs are within their bounds.
abbrev pub IsSound : KvState → Type 0
IsSound st = ((c k : String) → ContentKept (content_at c k st)) × IsBounded st.echo_cids

IsSound-same :
    (st st' : KvState)
    → ((c k : String) → content_at c k st' ≡ content_at c k st)
    → st'.echo_cids ≡ st.echo_cids
    → IsSound st
    → IsSound st'
IsSound-same st st' same echoes (kept, bounded) =
    (λ c k. subst ContentKept (sym (same c k)) (kept c k), subst IsBounded (sym echoes) bounded)

echo_cids-set_status_of :
    (c k : String) (s : KvLoadStatus) (err : Option ErrorDetail) (e : KvMirrorEntry) (st : KvState)
    → (set_status_of c k s err e st).echo_cids ≡ st.echo_cids
unfolding set_status_of
echo_cids-set_status_of c k s err e st =
    on_if (λ (st' : KvState). st'.echo_cids ≡ st.echo_cids)
      (status_eq e.status s && same_error err e.last_error) _ _ refl refl

echo_cids-set_slot_status :
    (c k : String) (s : KvLoadStatus) (err : Option ErrorDetail) (st : KvState)
    → (set_slot_status c k s err st).echo_cids ≡ st.echo_cids
unfolding set_slot_status
echo_cids-set_slot_status c k s err st = elim (Option-cases (entry_at c k st)) [
  | inl gone ↦ rw (gone, set_slot_status)
  | inr (e, found) ↦ rw (found, set_slot_status) (echo_cids-set_status_of c k s err e st)
]

echo_cids-ensure_contract_kv :
    (c : String) (st : KvState) → (ensure_contract_kv c st).echo_cids ≡ st.echo_cids
unfolding ensure_contract_kv
echo_cids-ensure_contract_kv c st = elim (Option-cases (lookup c st.kv)) [
  | inl gone ↦ rw (gone, ensure_contract_kv)
  | inr (inner, found) ↦ rw (found, ensure_contract_kv)
]

pub IsSound-set_slot_status :
    (c k : String) (s : KvLoadStatus) (err : Option ErrorDetail) (st : KvState)
    → IsSound st
    → IsSound (set_slot_status c k s err st)
IsSound-set_slot_status c k s err st =
    IsSound-same st (set_slot_status c k s err st)
      (λ c' k'. content_at-set_slot_status c k c' k' s err st)
      (echo_cids-set_slot_status c k s err st)

pub IsSound-ensure_contract_kv :
    (c : String) (st : KvState) → IsSound st → IsSound (ensure_contract_kv c st)
IsSound-ensure_contract_kv c st =
    IsSound-same st (ensure_contract_kv c st) (λ c' k'. content_at-ensure_contract_kv c c' k' st)
      (echo_cids-ensure_contract_kv c st)

pub IsSound-safe_on_update_guarded :
    (c : String) (slot : SlotDefinition) (v p : Value) (r : KvUpdateReason) (t : Option String)
    (st : KvState)
    → IsSound st
    → IsSound (safe_on_update_guarded c slot v p r t st)
unfolding safe_on_update_guarded
IsSound-safe_on_update_guarded c slot v p r t st sound =
    on_if IsSound slot.has_on_update _ st sound sound

pub IsSound-put_entry :
    (c k : String) (old e : KvMirrorEntry) (st : KvState)
    → entry_at c k st ≡ some old
    → Kept e.value
    → IsSound st
    → IsSound (put_entry c k e st)
IsSound-put_entry c k old e st found new (kept, bounded) = (
  λ c' k'.
      subst (λ o. ContentKept (content o)) (sym (find_in-put_in c k c' k' e st.kv old found))
        (on_if (λ o. ContentKept (content o)) (str_eq c c' && str_eq k k') _ _ new (kept c' k')),
  bounded,
)
