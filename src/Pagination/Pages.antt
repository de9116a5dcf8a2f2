-- ===== src/Pagination/Pages.antt =====
-- What a page holds of the rows that it was made from.
use enseada.Prelude.{
  ℕ, ◌+◌, ◌≤◌, ◌<◌, ◌≡◌, refl, ap, ◌↔◌, inl, inr, ◌∙◌, none, some, List, [], ◌∷◌, ◌++◌, arith,
  length, length-map, leb, Bool-cases,
}
use enseada.Platform.{Platform}
use enseada.Couch.Responses.{RawDocResponse, RowsResponse}
use enseada.Pagination.{Page, split_last, docs, from_slice, b64_encoded, from_rows_response}

-- A list with an entry splits into the entries before the last one and the last one.
split_last_lem :
    {A : Type 0} (x : A) (xs : List A)
    → (front : List A) × (last : A) × (split_last (x ∷ xs) ≡ some (front, last))
      × (x ∷ xs ≡ front ++ last ∷ [])
      × (length front ≡ length xs)
unfolding split_last
split_last_lem x [] = ([], x, refl, refl, refl)
split_last_lem x (y ∷ r) =
    let (front, last, e, f, g) = split_last_lem y r in
    (x ∷ front, last, rw (e, split_last), ap (◌∷◌ x) f, omega arith)

-- What a page shows of rows: all of them, or all but a last one to whose key the cursor leads.
pub data Shows (p : Platform) {T : Type 0} (rows : List (RawDocResponse T)) (page : Page T)
    : Type 0 where
  whole : page.items ≡ docs rows → page.next_cursor ≡ none → Shows p rows page
  part :
      (front : List (RawDocResponse T)) (last : RawDocResponse T)
      → rows ≡ front ++ last ∷ []
      → page.items ≡ docs front
      → page.next_cursor ≡ some (b64_encoded p (p.json_text last.key))
      → Shows p rows page

module _ (p : Platform) {T : Type 0} (limit : ℕ) where
  -- A page of at most one row more than the limit
  abbrev pub IsPageOf : RowsResponse T → Page T → Type 0
  IsPageOf res page =
      (page.count ≡ length page.items)
      × (length page.items ≤ limit)
      × Shows p res.rows page
      × ((page.next_cursor ≡ none) ↔ (length res.rows ≤ limit))

  small_page :
      (res : RowsResponse T)
      → length res.rows ≤ limit
      → from_rows_response p res limit ≡ from_slice (docs res.rows) none
  unfolding from_rows_response
  small_page res small = ground arith

  large_page :
      (res : RowsResponse T) (front : List (RawDocResponse T)) (last : RawDocResponse T)
      → split_last res.rows ≡ some (front, last)
      → limit < length res.rows
      → from_rows_response p res limit
        ≡ from_slice (docs front) (some (b64_encoded p (p.json_text last.key)))
  unfolding from_rows_response
  large_page res front last e over = ground arith

  too_long :
      (res : RowsResponse T) (rows : List (RawDocResponse T))
      → res.rows ≡ rows
      → limit < length rows
      → ¬ (length res.rows ≤ limit)
  too_long res rows e over h = absurd (omega (arith, ap (length {A = RawDocResponse T}) e))

  large_IsPageOf :
      (res : RowsResponse T) (rows : List (RawDocResponse T))
      → res.rows ≡ rows
      → limit < length rows
      → length rows ≤ limit + 1
      → IsPageOf res (from_rows_response p res limit)
  unfolding from_slice
  large_IsPageOf res [] e over fits = absurd (omega arith)
  large_IsPageOf res (x ∷ xs) e over fits =
      let (front, last, s, f, n) = split_last_lem x xs in
      rw (large_page res front last (rw e s) (rw e over)) (
        refl,
        rw (length-map (λ (r : RawDocResponse T). r.doc) front) (omega arith),
        part front last (e ∙ f) refl refl,
        ((λ h. absurd (cc)), λ h. absurd (too_long res (x ∷ xs) e over h)),
      )

  -- From at most one row more than the limit a page is made that has at most `limit` items and
  -- counts them. It has no cursor exactly if the rows fit the limit. It shows all rows, or, with a cursor to
  -- the last row, all the rows before that.
  pub from_rows_response_lem :
      (res : RowsResponse T)
      → length res.rows ≤ limit + 1
      → IsPageOf res (from_rows_response p res limit)
  unfolding from_slice
  from_rows_response_lem res fits = elim (Bool-cases (leb (length res.rows) limit)) [
    | inl small ↦ rw (small_page res (ground arith)) (
      refl,
      rw (length-map (λ (r : RawDocResponse T). r.doc) res.rows) (ground arith),
      whole refl refl,
      ((λ _. ground arith), λ _. refl),
    )
    | inr over ↦ large_IsPageOf res res.rows refl (ground arith) fits
  ]
