-- ===== src/Kv/Remote/Echo.antt =====
-- src/kv.ts, `_handleRemote`: the frames that it does not apply.
use libcheloniajs.Base.{
  ℕ, ◌+◌, ◌<◌, ◌≡◌, ◌≢◌, ◌∙◌, ap, refl, Bool, true, false, List, [], ◌∷◌, none, some, String,
  str_eq, eq_iff, if◌then◌else◌, ltb, any, lookup, arith,
}
use libcheloniajs.Journal.Log.{ErrorDetail}
use libcheloniajs.Kv.{SlotDefinition}
use libcheloniajs.Kv.Values.{KvFailure}
use libcheloniajs.Kv.Echo.{
  EchoEntry, EchoCids, kv_echo_ttl_ms, echo_key_of, keep_pending, purge_expired_echo_cids,
  bucket_of, record_echo_cid,
}
use libcheloniajs.Kv.Echo.Laws.{lookup-keep_pending, lookup-keep_pending-none}
use libcheloniajs.Kv.Echo.Record.{IsBounded, fresh, record_echo_cid-lookup}
use libcheloniajs.Kv.Mirror.{KvState, slot_at}
use libcheloniajs.Kv.Remote.{
  Frame, listed, settled, get_then, conflict_cids, drop_echo, apply_foreign, handle_cid, purge_at,
  handle_frame, handle_remote,
}
use libcheloniajs.Kv.Remote.Markers.{purged_bucket, drop_echo-same, conflict_cids-holds}

module _ (detail : KvFailure → ErrorDetail) (now : ℕ) (c k : String) (frame : Frame) where
  handle_frame-some :
      (cid : String) (slot : SlotDefinition) (st : KvState)
      → cid ≢ ""
      → handle_frame detail now c k slot frame (some cid) st
        ≡ handle_cid detail now c k slot frame cid (purge_at now c k st)
  unfolding handle_frame
  handle_frame-some cid slot st ne =
      let present : str_eq cid "" ≡ false = ground (arith, ne, eq_iff cid "") in
      rw (present, handle_frame)

  handle_remote-at_cid :
      (cid : String) (slot : SlotDefinition) (st : KvState)
      → slot_at c k st ≡ some slot
      → frame.cid ≡ some cid
      → cid ≢ ""
      → handle_remote detail now c k frame st
        ≡ handle_cid detail now c k slot frame cid (purge_at now c k st)
  unfolding handle_remote
  handle_remote-at_cid cid slot st found named ne =
      rw (found, handle_remote)
        (ap (λ o. handle_frame detail now c k slot frame o st) named
          ∙ handle_frame-some cid slot st ne)

  handle_cid-own :
      (cid : String) (slot : SlotDefinition) (e : EchoEntry) (st : KvState)
      → lookup cid (bucket_of (echo_key_of c k) st.echo_cids) ≡ some e
      → now < e.expiry
      → handle_cid detail now c k slot frame cid st
        ≡ (drop_echo (echo_key_of c k) cid e st, settled)
  unfolding handle_cid
  handle_cid-own cid slot e st found live =
      let alive : ltb now e.expiry ≡ true = ground (arith, live) in rw (found, handle_cid, alive)

  -- Where the buckets are within their bounds, a frame of an active slot with a CID that is not
  -- empty and was recorded, handled before the marker expires, changes no more than the markers:
  -- the mirror, its status, the counters and the calls stay as they are. The marker is used up,
  -- unless it is that of a conflict.
  pub handle_remote-record_echo_cid :
      (before : ℕ) (cid : String) (conflict : Bool) (slot : SlotDefinition) (st : KvState)
      → IsBounded st.echo_cids
      → slot_at c k st ≡ some slot
      → frame.cid ≡ some cid
      → cid ≢ ""
      → now < before + kv_echo_ttl_ms
      → (m : EchoCids) × (handle_remote detail now c k frame
            (record st { echo_cids = record_echo_cid before c k (some cid) conflict st.echo_cids })
          ≡ (record st { echo_cids = m }, settled))
        × (lookup cid (bucket_of (echo_key_of c k) m) ≡ (
            if conflict
            then some (record { expiry = before + kv_echo_ttl_ms; from_conflict = true })
            else none))
  handle_remote-record_echo_cid before cid conflict slot st bounded found named ne live =
      let (m, dropped, left) =
        drop_echo-same (echo_key_of c k) cid (fresh before conflict) purged pending in
      (
        m,
        handle_remote-at_cid cid slot st' found named ne
            ∙ handle_cid-own cid slot (fresh before conflict) purged pending live
            ∙ ap (λ s. (s, settled)) dropped,
        left ∙ by_kind conflict,
      )
    where
      st' : KvState
      st' = record st { echo_cids = record_echo_cid before c k (some cid) conflict st.echo_cids }

      purged : KvState
      purged = purge_at now c k st'

      pending :
          lookup cid (bucket_of (echo_key_of c k) purged.echo_cids) ≡ some (fresh before conflict)
      pending =
          ap (lookup cid) (purged_bucket (echo_key_of c k) now st'.echo_cids)
          ∙ lookup-keep_pending now _ cid (fresh before conflict)
              (record_echo_cid-lookup before c k cid conflict st.echo_cids bounded ne) live

      by_kind :
          (b : Bool)
          → (if b then some (fresh before b) else none) ≡ (
              if b
              then some (record { expiry = before + kv_echo_ttl_ms; from_conflict = true })
              else none)
      by_kind true = refl
      by_kind false = refl

  handle_cid-conflict :
      (slot : SlotDefinition) (cid other : String) (f : EchoEntry) (st : KvState)
      → lookup cid (bucket_of (echo_key_of c k) st.echo_cids) ≡ none
      → lookup other (bucket_of (echo_key_of c k) st.echo_cids) ≡ some f
      → f.from_conflict ≡ true
      → handle_cid detail now c k slot frame cid st
        ≡ (st, get_then (listed (conflict_cids (bucket_of (echo_key_of c k) st.echo_cids))))
  unfolding handle_cid
  handle_cid-conflict slot cid other f st foreign marked conflict =
      let cids = bucket_of (echo_key_of c k) st.echo_cids in
      rw (foreign, handle_cid)
        (started (conflict_cids cids) (conflict_cids-holds cids other f marked conflict))
    where
      started :
          (cs : List String)
          → any (λ d. str_eq d other) cs ≡ true
          → apply_foreign detail c k slot frame cs st ≡ (st, get_then (listed cs))
      started [] h = cc
      started (d ∷ cs) h = refl

  -- While the marker of a conflict has not expired, a frame of an active slot with a CID that is
  -- not empty and not recorded is not applied: only expired markers go, and an authoritative GET
  -- is started that will clear the markers of the conflicts that are pending, that one among them.
  pub handle_remote-conflict :
      (slot : SlotDefinition) (cid other : String) (f : EchoEntry) (st : KvState)
      → slot_at c k st ≡ some slot
      → frame.cid ≡ some cid
      → cid ≢ ""
      → lookup cid (bucket_of (echo_key_of c k) st.echo_cids) ≡ none
      → lookup other (bucket_of (echo_key_of c k) st.echo_cids) ≡ some f
      → f.from_conflict ≡ true
      → now < f.expiry
      → (cs : List String) × (handle_remote detail now c k frame st ≡ (
        record st { echo_cids = purge_expired_echo_cids (echo_key_of c k) now st.echo_cids },
        get_then (listed cs),
      ))
        × (any (λ d. str_eq d other) cs ≡ true)
  handle_remote-conflict slot cid other f st found named ne foreign marked conflict live = (
    conflict_cids (bucket_of (echo_key_of c k) purged.echo_cids),
    handle_remote-at_cid cid slot st found named ne
        ∙ handle_cid-conflict slot cid other f purged foreign' marked' conflict,
    conflict_cids-holds _ other f marked' conflict,
  )
    where
      purged : KvState
      purged = purge_at now c k st

      purge :
          bucket_of (echo_key_of c k) purged.echo_cids
          ≡ keep_pending now (bucket_of (echo_key_of c k) st.echo_cids)
      purge = purged_bucket (echo_key_of c k) now st.echo_cids

      foreign' : lookup cid (bucket_of (echo_key_of c k) purged.echo_cids) ≡ none
      foreign' = ap (lookup cid) purge ∙ lookup-keep_pending-none now _ cid foreign

      marked' : lookup other (bucket_of (echo_key_of c k) purged.echo_cids) ≡ some f
      marked' = ap (lookup other) purge ∙ lookup-keep_pending now _ other f marked live
