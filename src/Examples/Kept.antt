-- ===== src/Examples/Kept.antt =====
-- The platform whose documents are answered as they were put, and its promises about what it stores.
use enseada.Prelude.{
  String, Option, none, some, ◌≡◌, ◌≢◌, sym, ap, subst, ◌∙◌, arith, inl, inr, ◌==◌, eq_iff,
  Bool-cases,
}
use enseada.Prelude.Exec.{ok}
use enseada.Platform.{Platform}
use enseada.Couch.Database.{Codec}
use enseada.Couch.Stored.{Holds, StoringLaws, PresenceLaws}
use enseada.Examples.Store.{Store, store, read, write, seen, set_self}

module _ (D : Type 0) (blank : D) (set_rev : D → String → D) where
  abbrev same_document : String → D → D
  same_document doc d = d

  abbrev stamped : D → D
  stamped d = set_rev d "1"

  abbrev pub kept : Platform
  kept = store D blank same_document stamped

  there_of_read :
      (doc : String) (o : Option D) (d : D)
      → read D blank same_document stamped doc o ≡ ok d
      → o ≡ some d
  there_of_read doc none d h = absurd (ground arith)
  there_of_read doc (some x) d h = ground arith

  -- A type that is written as such documents, of which `reread` is read back.
  pub record Format {A : Type 0} (revise : A → String → A) (reread : A → A) : Type 0 where
    pub enc : A → D
    pub dec : D → A
    pub back : (a : A) → dec (enc a) ≡ reread a
    pub commutes : (a : A) (rev : String) → reread (revise a rev) ≡ revise (reread a) rev
    pub revised : (a : A) (rev : String) → enc (revise a rev) ≡ set_rev (enc a) rev

  module _ {A : Type 0} (revise : A → String → A) (reread : A → A) (f : Format revise reread) where
    abbrev pub coded : Codec kept A
    coded = record { encode = f.enc; decode = λ d. ok (f.dec d) }

    -- The document stands under its path, and is read as the value.
    abbrev Stands : Store D → String → A → Type 0
    Stands w doc a = (rev : String) × (d : D) × (w.docs doc ≡ some d) × (f.dec d ≡ revise a rev)

    Holds-Stands :
        (w : Store D) (doc : String) (a : A) → Holds kept coded revise w doc a → Stands w doc a
    Holds-Stands w doc a (rev, json, answered, decoded) =
        (rev, json, there_of_read doc (w.docs doc) json answered, ground (arith, decoded))

    Stands-Holds :
        (w : Store D) (doc : String) (a : A) → Stands w doc a → Holds kept coded revise w doc a
    Stands-Holds w doc a (rev, d, there, reads) =
        (rev, d, ap (read D blank same_document stamped doc) there, ap ok reads)

    written :
        (doc : String) (a : A) (json : D) (o : Option D) (w w' : Store D)
        → write D blank same_document stamped doc (stamped (f.enc a)) o w ≡ (ok json, w')
        → Stands w' doc (reread a)
    written doc a json none w w' h =
        subst (λ (x : Store D). Stands x doc (reread a)) (ap (λ r. r.1) h)
          (
            "1",
            stamped (f.enc a),
            set_self D blank same_document stamped doc (some (stamped (f.enc a))) w.docs,
            ap f.dec (sym (f.revised a "1")) ∙ f.back (revise a "1") ∙ f.commutes a "1",
          )
    written doc a json (some d) w w' h = absurd (ground arith)

    write-Stands :
        (doc other : String) (a : A) (body : D) (o : Option D) (w : Store D)
        → other ≢ doc
        → Stands w doc a
        → Stands (write D blank same_document stamped other body o w).1 doc a
    write-Stands doc other a body (some d) w apart there = there
    write-Stands doc other a body none w apart (rev, d, there, reads) =
        elim (Bool-cases (doc == other)) [
          | inl same ↦ absurd (apart (sym ((eq_iff doc other).0 same)))
          | inr differs ↦ (rev, d, ground arith, reads)
        ]

    pub storing : StoringLaws kept coded revise reread
    storing = record {
      stored = λ doc a json w w' h.
          Stands-Holds w' doc (reread a) (written doc a json (w.docs doc) w w' h);
      after_put = λ doc other body a w apart there.
          Stands-Holds (write D blank same_document stamped other (stamped body) (w.docs other) w).1
            doc a
            (write-Stands doc other a (stamped body) (w.docs other) w apart
              (Holds-Stands w doc a there));
    }

    seen_of_Stands :
        (w : Store D) (doc : String) (a : A)
        → Stands w doc a
        → seen D blank same_document stamped (w.docs doc) ≡ ok tt
    seen_of_Stands w doc a (rev, d, there, reads) = ap (seen D blank same_document stamped) there

    pub presence : PresenceLaws kept coded revise
    presence = record {
      present = λ doc a w there. seen_of_Stands w doc a (Holds-Stands w doc a there);
      after_head = λ doc other a w there. there;
      after_fill =
          λ doc n a w there. Stands-Holds (kept.fill n w).1 doc a (Holds-Stands w doc a there);
    }
