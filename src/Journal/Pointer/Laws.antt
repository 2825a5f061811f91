-- ===== src/Journal/Pointer/Laws.antt =====
-- src/journal.ts: pointers round trip.
use Prim.Native.Char.{Char, code}
use Prim.Native.String.{String, [], ◌∷◌, ◌++◌}
use text.Mathlib.TextLemmas.{nil-append, cons-append}
use text.Mathlib.TextEquality.{Char-path}
use mathlib.Core.List.{List}
use mathlib.Core.Path.{ap₂}
use libcheloniajs.Base.{◌≡◌, refl, ap, sym, ◌∙◌, false, ◌==◌, inl, inr, Bool-cases, ==_iff, map}
use libcheloniajs.Base.Throws.{ok}
use libcheloniajs.Journal.Pointer.{
  escape_tildes, escape_slashes, escape_pointer_segment, unescape_slashes, unescape_tildes,
  unescape_pointer_segment, join_slash, segments_to_pointer, split_slash, push_front,
  pointer_to_segments,
}

-- A character that begins no escape is kept.
unescape_slashes-other :
    (c : Char) (s : String)
    → (code c == b'~') ≡ false
    → unescape_slashes (c ∷ s) ≡ c ∷ unescape_slashes s
unfolding unescape_slashes
unescape_slashes-other c [] h = refl
unescape_slashes-other c (d ∷ s) h = rw h

unescape_tildes-other :
    (c : Char) (s : String)
    → (code c == b'~') ≡ false
    → unescape_tildes (c ∷ s) ≡ c ∷ unescape_tildes s
unfolding unescape_tildes
unescape_tildes-other c [] h = refl
unescape_tildes-other c (d ∷ s) h = rw h

unescape_slashes-tilde_zero :
    (s : String) → unescape_slashes ("~" ∷ ("0" ∷ s)) ≡ "~" ∷ ("0" ∷ unescape_slashes s)
unfolding unescape_slashes
unescape_slashes-tilde_zero s = ap (◌∷◌ "~") (unescape_slashes-other "0" s refl)

unescape_slashes-tilde_one :
    (s : String) → unescape_slashes ("~" ∷ ("1" ∷ s)) ≡ "/" ∷ unescape_slashes s
unfolding unescape_slashes
unescape_slashes-tilde_one s = refl

unescape_tildes-tilde_zero :
    (s : String) → unescape_tildes ("~" ∷ ("0" ∷ s)) ≡ "~" ∷ unescape_tildes s
unfolding unescape_tildes
unescape_tildes-tilde_zero s = refl

unescape_slashes-escape :
    (s : String) → unescape_slashes (escape_slashes (escape_tildes s)) ≡ escape_tildes s
unfolding escape_slashes escape_tildes
unescape_slashes-escape [] = unfold unescape_slashes in refl
unescape_slashes-escape (c ∷ s) =
    let ih = unescape_slashes-escape s in
    elim (Bool-cases (code c == b'~')) [
      | inl tilde ↦ rw tilde (unescape_slashes-tilde_zero _ ∙ ap (λ t. "~" ∷ ("0" ∷ t)) ih)
      | inr other ↦ elim (Bool-cases (code c == b'/')) [
        | inl slash ↦
            rw (other, slash)
              (unescape_slashes-tilde_one _
                ∙ ap₂ ◌∷◌ (sym (Char-path c "/" ((==_iff _ _).0 slash))) ih)
        | inr plain ↦ rw (other, plain) (unescape_slashes-other c _ other ∙ ap (◌∷◌ c) ih)
      ]
    ]

unescape_tildes-escape : (s : String) → unescape_tildes (escape_tildes s) ≡ s
unfolding escape_tildes
unescape_tildes-escape [] = unfold unescape_tildes in refl
unescape_tildes-escape (c ∷ s) =
    let ih = unescape_tildes-escape s in
    elim (Bool-cases (code c == b'~')) [
      | inl tilde ↦
          rw tilde (
            unescape_tildes-tilde_zero _
            ∙ ap₂ ◌∷◌ (sym (Char-path c "~" ((==_iff _ _).0 tilde))) ih)
      | inr other ↦ rw other (unescape_tildes-other c _ other ∙ ap (◌∷◌ c) ih)
    ]

-- Unescaping undoes escaping, also of a segment that holds `~`, `/` or an escape sequence.
pub unescape-escape_pointer_segment :
    (s : String) → unescape_pointer_segment (escape_pointer_segment s) ≡ s
unfolding unescape_pointer_segment escape_pointer_segment
unescape-escape_pointer_segment s =
    ap unescape_tildes (unescape_slashes-escape s) ∙ unescape_tildes-escape s

abbrev NoSlash : String → Type 0
NoSlash [] = Unit {0}
NoSlash (c ∷ s) = ((code c == b'/') ≡ false) × NoSlash s

escape_slashes-NoSlash : (s : String) → NoSlash (escape_slashes s)
unfolding escape_slashes
escape_slashes-NoSlash [] = tt
escape_slashes-NoSlash (c ∷ s) = elim (Bool-cases (code c == b'/')) [
  | inl slash ↦ rw slash (refl, (refl, escape_slashes-NoSlash s))
  | inr plain ↦ rw plain (plain, escape_slashes-NoSlash s)
]

split_slash-NoSlash : (p : String) → NoSlash p → split_slash p ≡ (p, List.[])
unfolding split_slash
split_slash-NoSlash [] h = refl
split_slash-NoSlash (c ∷ p) h = rw h.0 (ap (push_front c) (split_slash-NoSlash p h.1))

split_slash-append :
    (p s : String)
    → NoSlash p
    → split_slash (p ++ ("/" ∷ s)) ≡ (p, List.◌∷◌ (split_slash s).0 (split_slash s).1)
unfolding split_slash
split_slash-append [] s h = rw nil-append
split_slash-append (c ∷ p) s h =
    rw (cons-append, h.0) (ap (push_front c) (split_slash-append p s h.1))

unescape-escape_all :
    (ss : List String) → map unescape_pointer_segment (map escape_pointer_segment ss) ≡ ss
unescape-escape_all List.[] = refl
unescape-escape_all (List.◌∷◌ s ss) =
    ap₂ List.◌∷◌ (unescape-escape_pointer_segment s) (unescape-escape_all ss)

escape-NoSlash : (s : String) → NoSlash (escape_pointer_segment s)
unfolding escape_pointer_segment
escape-NoSlash s = escape_slashes-NoSlash (escape_tildes s)

split_slash-join_slash :
    (s : String) (ss : List String)
    → split_slash (join_slash (escape_pointer_segment s) (map escape_pointer_segment ss))
      ≡ (escape_pointer_segment s, map escape_pointer_segment ss)
unfolding join_slash
split_slash-join_slash s List.[] = split_slash-NoSlash _ (escape-NoSlash s)
split_slash-join_slash s (List.◌∷◌ t ss) =
    split_slash-append _ _ (escape-NoSlash s)
    ∙ ap (λ r. (escape_pointer_segment s, List.◌∷◌ r.0 r.1)) (split_slash-join_slash t ss)

-- Reading a pointer gives back the segments that it was written from, whatever they hold.
pub pointer_to_segments_to_pointer :
    (segments : List String) → pointer_to_segments (segments_to_pointer segments) ≡ ok segments
unfolding pointer_to_segments segments_to_pointer
pointer_to_segments_to_pointer List.[] = refl
pointer_to_segments_to_pointer (List.◌∷◌ s ss) =
    ap (λ r. ok (map unescape_pointer_segment (List.◌∷◌ r.0 r.1))) (split_slash-join_slash s ss)
    ∙ ap ok (unescape-escape_all (List.◌∷◌ s ss))
