-- ===== src/Examples/Store.antt =====
-- A platform whose database keeps documents of one type under their paths, with the promises of the
-- database. A document is answered as it stands under its path, and stamped when it is put.
use Prim.Native.Char.{Char}
use text.Mathlib.TextLemmas.{nil-append, cons-append}
use enseada.Prelude.Text.{contains, after, after-append}
use enseada.Couch.Database.{Database, path}
use enseada.Prelude.{
  append, ◌∙◌, false, ℕ, suc, ◌+◌, ◌-◌, String, true, Option, none, some, [], ◌∷◌, ◌≡◌, ◌≢◌, refl,
  sym, ap, subst, arith, inl, inr, ltb, ◌==◌, eq_iff, eq_refl, if◌then◌else◌, Bool-cases,
}
use enseada.Prelude.Exec.{Outcome, ok, err}
use enseada.Platform.{Platform, Method, Query, pos}
use enseada.Couch.Error.{TransportError}
use enseada.Couch.Documents.{Missing, DocumentLaws}
use enseada.Examples.Demo.{count, strokes}

abbrev pub with_status : ℕ → TransportError
with_status n = record { message = "no"; status = some n }

abbrev pub slash : Char
slash = "/"

-- A path without its database is the id.
pub after_slash :
    (db : Database) (id : String) → contains slash db.name ≡ false → after slash (path db id) ≡ id
unfolding contains
after_slash db id plain =
    ap (after slash)
      (ap (append db.name) (cons-append slash String.[] id ∙ ap (String.◌∷◌ slash) (nil-append id)))
    ∙ after-append slash db.name id plain

module _ (D : Type 0) where
  pub record Store : Type 0 where
    pub clock : ℕ
    pub drawn : ℕ
    pub docs : String → Option D

  abbrev pub set : String → Option D → (String → Option D) → String → Option D
  set k v m x = if x == k then v else m x

  module _ (blank : D) (at : String → D → D) (stamped : D → D) where
    abbrev pub read : String → Option D → Outcome TransportError D
    read doc none = err (with_status 404)
    read doc (some d) = ok (at doc d)

    abbrev read_body : Option D → D
    read_body none = blank
    read_body (some d) = stamped d

    abbrev pub write : String → D → Option D → Store → Outcome TransportError D × Store
    write doc d (some old) w = (err (with_status 409), w)
    write doc d none w = (ok d, record w { docs = set doc (some d) w.docs })

    abbrev drop : String → Option D → Store → Outcome TransportError D × Store
    drop doc none w = (err (with_status 404), w)
    drop doc (some d) w = (ok d, record w { docs = set doc none w.docs })

    abbrev answer :
        Method → String → Option D → Option Query → Store → Outcome TransportError D × Store
    answer Method.get doc body (some query) w = (ok blank, w)
    answer Method.get doc body none w = (read doc (w.docs doc), w)
    answer Method.put doc body query w = write doc (read_body body) (w.docs doc) w
    answer Method.post doc body query w = (err (with_status 404), w)
    answer Method.delete doc body query w = drop doc (w.docs doc) w

    -- A HEAD request is answered by whether the document is there.
    abbrev pub seen : Option D → Outcome TransportError (Unit {0})
    seen none = err (with_status 404)
    seen (some d) = ok tt

    abbrev pub store : Platform
    store = record {
      World = Store;
      Time = ℕ;
      Span = ℕ;
      utc_now = λ w. (w.clock, w);
      plus = λ a b. a + b;
      signed_duration_since = λ a b. a - b;
      num_seconds = pos;
      lt = ltb;
      minutes = λ n. n;
      days = λ n. n;
      fill = λ n w. (ok (w.drawn ∷ []), record w { drawn = suc w.drawn });
      hmac = λ key text. count text ∷ [];
      hex = strokes;
      verify_encoded = λ hash secret. ok (hash == secret);
      hash_encoded = λ secret salt. ok secret;
      Url = String;
      parse_url = λ text. ok text;
      url_eq = λ a b. a == b;
      base64_encode = λ text. text;
      base64_decode = λ text. ok [];
      from_utf8 = λ bytes. ok "";
      Json = D;
      json_text = λ text. text;
      request = answer;
      head = λ path w. (seen (w.docs path), w);
      find_body = λ selector limit bookmark. selector;
      field_equals = λ name text. blank;
      Pattern = String;
      parse_pattern = λ text. if text == "[" then none else some text;
      pattern_matches = λ pattern text. if pattern == "*" then true else pattern == text;
      secret_key = "";
    }

    none_of_read :
        (doc : String) (o : Option D) (e : TransportError) → read doc o ≡ err e → o ≡ none
    none_of_read doc none e h = refl
    none_of_read doc (some d) e h = absurd (ground arith)

    none_of_Missing : (w : Store) (doc : String) → Missing store w doc → w.docs doc ≡ none
    none_of_Missing w doc (e, status, h) = none_of_read doc (w.docs doc) e h

    docs-Missing : (w : Store) (doc : String) → w.docs doc ≡ none → Missing store w doc
    docs-Missing w doc h = (with_status 404, refl, ap (read doc) h)

    pub set_self : (k : String) (o : Option D) (m : String → Option D) → set k o m k ≡ o
    set_self k o m = ground (arith, eq_refl k)

    set_keeps : (k doc : String) (m : String → Option D) → m doc ≡ none → set k none m doc ≡ none
    set_keeps k doc m h = ground arith

    set_away :
        (k doc : String) (o : Option D) (m : String → Option D)
        → k ≢ doc
        → m doc ≡ none
        → set k o m doc ≡ none
    set_away k doc o m away h = elim (Bool-cases (doc == k)) [
      | inl same ↦ absurd (away (sym ((eq_iff doc k).0 same)))
      | inr other ↦ ground arith
    ]

    dropped :
        (doc : String) (o : Option D) (json : D) (w w' : Store)
        → drop doc o w ≡ (ok json, w')
        → w'.docs doc ≡ none
    dropped doc none json w w' e = absurd (ground arith)
    dropped doc (some d) json w w' e =
        subst (λ (x : Store). x.docs doc ≡ none) (ap (λ r. r.1) e) (set_self doc none w.docs)

    drop_keeps :
        (doc other : String) (o : Option D) (w : Store)
        → w.docs doc ≡ none
        → (drop other o w).1.docs doc ≡ none
    drop_keeps doc other none w h = h
    drop_keeps doc other (some d) w h = set_keeps other doc w.docs h

    write_keeps :
        (doc other : String) (body : D) (o : Option D) (w : Store)
        → other ≢ doc
        → w.docs doc ≡ none
        → (write other body o w).1.docs doc ≡ none
    write_keeps doc other body none w away h = set_away other doc (some body) w.docs away h
    write_keeps doc other body (some d) w away h = h

    pub laws : DocumentLaws store
    laws = record {
      deleted = λ doc rev json w w' e. docs-Missing w' doc (dropped doc (w.docs doc) json w w' e);
      after_get = λ doc other w m. m;
      after_put = λ doc other body w away m.
          docs-Missing (write other (read_body (some body)) (w.docs other) w).1 doc (
            write_keeps doc other (read_body (some body)) (w.docs other) w away
              (none_of_Missing w doc m));
      after_delete = λ doc other rev w m.
          docs-Missing (drop other (w.docs other) w).1 doc
            (drop_keeps doc other (w.docs other) w (none_of_Missing w doc m));
      after_clock = λ doc w m. m;
      after_fill = λ doc n w m. docs-Missing (store.fill n w).1 doc (none_of_Missing w doc m);
    }
