-- ===== src/Users/Repository/Listing.antt =====
-- The pages that a repository lists.
use enseada.Prelude.{ℕ, ◌+◌, ◌≤◌, Option, ◌≡◌, arith, length, inl, inr, subst}
use enseada.Prelude.Exec.{Outcome-cases, ok}
use enseada.Platform.{Platform}
use enseada.Couch.Database.{Database}
use enseada.Couch.Responses.{RowsResponse}
use enseada.Pagination.{Cursor, Page}
use enseada.Pagination.Pages.{IsPageOf, from_rows_response_lem}
use enseada.Users.Repository.{Entity, Codecs, cursor_text, list_rows, list, one_more}

bounded : (limit n : ℕ) → n ≤ one_more limit → n ≤ limit + 1
unfolding one_more
bounded limit n h = omega arith

module _ (p : Platform) {T : Type 0} (entity : Entity T) (c : Codecs p entity) (db : Database) where
  -- The database answers a listing with at most as many rows as it is asked for.
  abbrev pub AtMost : ℕ → Option Cursor → p.World → Type 0
  AtMost limit cursor w =
      (res : RowsResponse T)
      → (list_rows p entity c db (entity.build_guid "").partition (one_more limit)
          (cursor_text cursor) w).0
        ≡ ok res
      → length res.rows ≤ one_more limit

  -- A listing that succeeds is a page of rows that the database answered with, if it answers with at
  -- most as many rows as it is asked for: the page has at most `limit` items, and leads on exactly if
  -- there were more rows. That is so, too, at the greatest limit, where no row is asked for.
  pub list-IsPageOf :
      (limit : ℕ) (cursor : Option Cursor) (w w' : p.World) (page : Page T)
      → AtMost limit cursor w
      → list p entity c db limit cursor w ≡ (ok page, w')
      → (res : RowsResponse T) × ((list_rows p entity c db
            (entity.build_guid "").partition
            (one_more limit)
            (cursor_text cursor)
            w)
          ≡ (ok res, w'))
        × IsPageOf p limit res page
  unfolding list
  list-IsPageOf limit cursor w w' page bound e =
      elim (Outcome-cases
        (list_rows p entity c db (entity.build_guid "").partition (one_more limit)
          (cursor_text cursor) w).0) [
            | inl (res, read) ↦ (
              res,
              ground arith,
              subst (IsPageOf p limit res) (ground arith) (
                  from_rows_response_lem p limit res
                    (bounded limit (length res.rows) (bound res read))),
            )
            | inr (inl (x, failed)) ↦ absurd (ground arith)
            | inr (inr panics) ↦ absurd (ground arith)
          ]
