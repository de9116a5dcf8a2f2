-- ===== src/Examples/Streams.antt =====
-- The theorem about the stream of changes, where an event is cut between two chunks.
use Prim.Native.String.{String, ◌++◌ as append}
use enseada.Prelude.{
  ℕ, nat_eq, Option, none, some, List, [], ◌∷◌, ◌≡◌, refl, ◌↔◌, ◌==◌, if◌then◌else◌,
}
use enseada.Prelude.Exec.{Outcome, ok, err, panic}
use enseada.Platform.{Platform}
use enseada.Couch.Error.{TransportError}
use enseada.Couch.Changes.{ChangeEvent, end, read_stream}
use enseada.Couch.Changes.Panics.{Some, Broken, read_stream_panics_iff}
use enseada.Examples.Demo.{demo}

abbrev onto : String → Outcome String String → Outcome String String
onto text (ok rest) = ok (append text rest)
onto text (err e) = err e
onto text panic = panic

-- Texts of braces and newlines.
abbrev decode : List ℕ → Outcome String String
decode [] = ok ""
decode (byte ∷ bytes) =
    let rest = decode bytes in
    if nat_eq byte 10
    then onto "\n" rest
    else if nat_eq byte 123
    then onto "{" rest
    else if nat_eq byte 125
    then onto "}" rest
    else err "invalid utf-8 sequence"

abbrev braces : Platform
braces = record demo { from_utf8 = decode }

abbrev parse : String → Option ChangeEvent
parse line = if line == "{}" then some (end "1" 0) else none

abbrev whole : List (Outcome TransportError (List ℕ))
whole = ok (123 ∷ 125 ∷ 10 ∷ []) ∷ ok (10 ∷ []) ∷ []

abbrev divided : List (Outcome TransportError (List ℕ))
divided = ok (123 ∷ []) ∷ ok (125 ∷ 10 ∷ []) ∷ []

whole_reads : read_stream braces parse whole ≡ some (end "1" 0 ∷ [])
unfolding read_stream enseada.Prelude.Text.split
whole_reads = refl

divided_panics : read_stream braces parse divided ≡ none
unfolding read_stream enseada.Prelude.Text.split
divided_panics = refl

read_stream_panics_iff_example :
    (read_stream braces parse divided ≡ none) ↔ Some (Broken braces parse) divided
read_stream_panics_iff_example = read_stream_panics_iff braces parse divided
