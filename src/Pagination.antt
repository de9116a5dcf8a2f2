-- ===== src/Pagination.antt =====
-- libenseada/src/pagination.rs: pages of a listing, and the cursors that lead to the next one.
pub mod Pages
use enseada.Prelude.{
  ℕ, String, Option, none, some, List, [], ◌∷◌, map, ltb, leb, if◌then◌else◌, length,
}
use enseada.Prelude.Exec.{Outcome, ok, err, panic}
use enseada.Platform.{Platform}
use enseada.Error
use enseada.Error.{Error}
use enseada.Couch.Responses.{FindResponse, RawDocResponse, RowsResponse}

pub record Cursor : Type 0 where
  pub text : String

pub record Page (T : Type 0) : Type 0 where
  pub count : ℕ
  pub next_cursor : Option Cursor
  pub items : List T

-- The entries before the last one, and the last one.
unfoldable pub split_last : {A : Type 0} → List A → Option (List A × A)
split_last [] = none
split_last (x ∷ []) = some ([], x)
split_last (x ∷ y ∷ r) = elim (split_last (y ∷ r)) [
  | none ↦ none
  | some (front, last) ↦ some (x ∷ front, last)
]

abbrev pub docs : {T : Type 0} → List (RawDocResponse T) → List T
docs = map (λ raw. raw.doc)

unfoldable pub from_slice : {T : Type 0} → List T → Option Cursor → Page T
from_slice items next_cursor = record {
  count = length items;
  next_cursor = next_cursor;
  items = items;
}

unfoldable pub map_page : {A B : Type 0} → (A → B) → Page A → Page B
map_page f page = record {
  count = page.count;
  next_cursor = page.next_cursor;
  items = map f page.items;
}

module _ (p : Platform) where
  open p use {base64_encode, base64_decode, from_utf8, json_text}

  unfoldable pub b64_encoded : String → Cursor
  b64_encoded input = record { text = base64_encode input }

  -- The two kinds of error carry the message of the library that raised them.
  unfoldable pub from_b64 : String → Outcome Error Cursor
  from_b64 input = elim (base64_decode input) [
    | ok decoded ↦ elim (from_utf8 decoded) [
      | ok text ↦ ok (record { text = text })
      | err e ↦ err (Error.from_utf8 e)
      | panic ↦ panic
    ]
    | err e ↦ err (Error.base64_decode e)
    | panic ↦ panic
  ]

  -- More rows than the limit: the last row is taken off, and its key leads to the next page.
  abbrev pub cut_page : {T : Type 0} → Option (List (RawDocResponse T) × RawDocResponse T) → Page T
  cut_page none = from_slice [] none
  cut_page (some (rows, last)) = from_slice (docs rows) (some (b64_encoded (json_text last.key)))

  unfoldable pub from_rows_response : {T : Type 0} → RowsResponse T → ℕ → Page T
  unfolding from_slice b64_encoded
  from_rows_response res limit =
      if leb (length res.rows) limit
      then from_slice (docs res.rows) none
      else cut_page (split_last res.rows)

  unfoldable pub from_find_response : {T : Type 0} → FindResponse T → ℕ → Page T
  unfolding from_slice b64_encoded
  from_find_response res limit =
      from_slice res.docs
        (if ltb (length res.docs) limit then none else some (b64_encoded res.bookmark))
