-- ===== src/Couch/Changes.antt =====
-- couchdb/src/changes.rs, and what `Database::changes` of couchdb/src/db.rs makes of the chunks of its
-- stream.
pub mod Panics
use Prim.Native.Char.{Char, char}
use Prim.Native.String.{String}
use enseada.Prelude.{ℕ, Bool, Option, none, some, List, [], ◌∷◌, ◌++◌, ◌==◌, if◌then◌else◌}
use enseada.Prelude.Text.{split, same}
use enseada.Prelude.Exec.{Outcome, ok, err, panic}
use enseada.Platform.{Platform}
use enseada.Couch.Error.{TransportError}

-- A change is its `rev`.
pub record Change : Type 0 where
  pub rev : String

pub data ChangeEvent : Type 0 where
  next : String → String → List Change → Option Bool → ChangeEvent
  end : String → ℕ → ChangeEvent

abbrev newline : Char
newline = char 10 tt

abbrev carriage_return : Char
carriage_return = char 13 tt

unfoldable pub strip : String → String
strip String.[] = String.[]
strip (String.◌∷◌ x String.[]) =
    if same x carriage_return then String.[] else String.◌∷◌ x String.[]
strip (String.◌∷◌ x (String.◌∷◌ y s)) = String.◌∷◌ x (strip (String.◌∷◌ y s))

-- The last line has no newline behind it, and keeps what it has.
unfoldable pub line_ends : List String → List String
unfolding strip
line_ends [] = []
line_ends (line ∷ []) = line ∷ []
line_ends (line ∷ after ∷ rest) = strip line ∷ line_ends (after ∷ rest)

-- BufRead::lines
unfoldable pub lines : String → List String
unfolding line_ends
lines payload = line_ends (split newline payload)

abbrev with_event : Option ChangeEvent → Option (List ChangeEvent) → Option (List ChangeEvent)
with_event none rest = none
with_event (some event) none = none
with_event (some event) (some rest) = some (event ∷ rest)

module _ (p : Platform) (parse : String → Option ChangeEvent) where
  -- The events of the lines, of which empty ones are passed over; `none` is the panic of `unwrap`
  -- on a line that is no event.
  unfoldable pub read_lines : List String → Option (List ChangeEvent)
  read_lines [] = some []
  read_lines (line ∷ rest) =
      let events = read_lines rest in if line == "" then events else with_event (parse line) events

  -- The events of a chunk of the stream; an error of the transport and bytes that are no text make
  -- it panic, too.
  unfoldable pub read_chunk : Outcome TransportError (List ℕ) → Option (List ChangeEvent)
  unfolding read_lines lines
  read_chunk (ok bytes) = elim (p.from_utf8 bytes) [
    | ok payload ↦ read_lines (lines payload)
    | err e ↦ none
    | panic ↦ none
  ]
  read_chunk (err e) = none
  read_chunk panic = none

  abbrev joined : Option (List ChangeEvent) → Option (List ChangeEvent) → Option (List ChangeEvent)
  joined none rest = none
  joined (some events) none = none
  joined (some events) (some rest) = some (events ++ rest)

  -- The events of the chunks, one after another.
  unfoldable pub read_stream : List (Outcome TransportError (List ℕ)) → Option (List ChangeEvent)
  unfolding read_chunk
  read_stream [] = some []
  read_stream (chunk ∷ rest) = joined (read_chunk chunk) (read_stream rest)
