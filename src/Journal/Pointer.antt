-- ===== src/Journal/Pointer.antt =====
-- src/journal.ts, "JSON-Pointer helpers": escaping, joining and splitting. A text is a sequence of
-- characters; each pass of `replace` is a function of its own.
pub mod Laws
use Prim.Native.Char.{Char, code}
use Prim.Native.String.{String, [], ◌∷◌, ◌++◌}
use libcheloniajs.Base.{ℕ, Bool, true, false, ◌&&◌, ◌==◌, if◌then◌else◌, str_eq, map}
use libcheloniajs.Base.Throws.{Outcome, ok, throw}
use mathlib.Core.List.{List}

-- `replace(/~/g, '~0')` and `replace(/\//g, '~1')`.
unfoldable pub escape_tildes : String → String
escape_tildes [] = []
escape_tildes (c ∷ s) = if code c == b'~' then "~" ∷ "0" ∷ escape_tildes s else c ∷ escape_tildes s

unfoldable pub escape_slashes : String → String
escape_slashes [] = []
escape_slashes (c ∷ s) =
    if code c == b'/' then "~" ∷ "1" ∷ escape_slashes s else c ∷ escape_slashes s

unfoldable pub escape_pointer_segment : String → String
escape_pointer_segment segment = escape_slashes (escape_tildes segment)

-- `replace(/~1/g, '/')` and `replace(/~0/g, '~')`.
unfoldable pub unescape_slashes : String → String
unescape_slashes [] = []
unescape_slashes (c ∷ []) = c ∷ []
unescape_slashes (c ∷ (d ∷ s)) =
    let replaced = "/" ∷ unescape_slashes s in
    let kept = c ∷ unescape_slashes (d ∷ s) in
    if code c == b'~' && code d == b'1' then replaced else kept

unfoldable pub unescape_tildes : String → String
unescape_tildes [] = []
unescape_tildes (c ∷ []) = c ∷ []
unescape_tildes (c ∷ (d ∷ s)) =
    let replaced = "~" ∷ unescape_tildes s in
    let kept = c ∷ unescape_tildes (d ∷ s) in
    if code c == b'~' && code d == b'0' then replaced else kept

unfoldable pub unescape_pointer_segment : String → String
unescape_pointer_segment segment = unescape_tildes (unescape_slashes segment)

-- `parts.join('/')`, one part before the others.
unfoldable pub join_slash : String → List String → String
join_slash part List.[] = part
join_slash part (List.◌∷◌ next parts) = part ++ ("/" ∷ join_slash next parts)

unfoldable pub segments_to_pointer : List String → String
segments_to_pointer List.[] = ""
segments_to_pointer (List.◌∷◌ segment segments) =
    "/" ∷ join_slash (escape_pointer_segment segment) (map escape_pointer_segment segments)

-- `s.split('/')`: the first part and the others.
abbrev pub push_front : Char → String × List String → String × List String
push_front c (part, parts) = (c ∷ part, parts)

unfoldable pub split_slash : String → String × List String
split_slash [] = ("", List.[])
split_slash (c ∷ s) =
    let rest = split_slash s in
    if code c == b'/' then ("", List.◌∷◌ rest.0 rest.1) else push_front c rest

-- The only error of the helpers.
pub data PointerError : Type 0 where
  invalid_pointer : PointerError

abbrev pub split_segments : String → List String
split_segments s =
    let parts = split_slash s in map unescape_pointer_segment (List.◌∷◌ parts.0 parts.1)

unfoldable pub pointer_to_segments : String → Outcome PointerError (List String)
pointer_to_segments [] = ok List.[]
pointer_to_segments (c ∷ s) =
    if code c == b'/' then ok (split_segments s) else throw invalid_pointer

-- `parseDottedPath`.
unfoldable pub split_dots : String → String × List String
split_dots [] = ("", List.[])
split_dots (c ∷ s) =
    let rest = split_dots s in
    if code c == b'.' then ("", List.◌∷◌ rest.0 rest.1) else push_front c rest

unfoldable pub parse_dotted_path : String → List String
parse_dotted_path [] = List.[]
parse_dotted_path (c ∷ s) = let parts = split_dots (c ∷ s) in List.◌∷◌ parts.0 parts.1
