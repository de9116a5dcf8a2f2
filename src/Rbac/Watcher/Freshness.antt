-- ===== src/Rbac/Watcher/Freshness.antt =====
-- Which rules the enforcer holds while the watcher runs.
use enseada.Prelude.{
  List, [], ◌∷◌, ◌≡◌, ◌≢◌, refl, sym, ◌∙◌, inl, inr, arith, ap, map, Option-cases,
}
use enseada.Prelude.Exec.{Outcome, Outcome-cases, ok, err, panic, map_err}
use enseada.Platform.{Platform}
use enseada.Error.{Error, database}
use enseada.Couch.Changes.{ChangeEvent, next, end}
use enseada.Rbac.Model
use enseada.Rbac.Model.{set_principals}
use enseada.Couch.Database.{list_all_partitioned}
use enseada.Rbac.Enforcer
use enseada.Rbac.Enforcer.{Enforcer, Codecs, load_rules, load_rows, no_rules}
use enseada.Rbac.Watcher.{react, watch, Runs, stay, reacts, elsewhere}

module _ (p : Platform) (c : Codecs p) where
  open p use {World}

  -- What a new enforcer, with an empty model, loads, if it does; the given one if it does not.
  abbrev loaded_or : Enforcer p → Outcome Error (Unit {0}) → Enforcer p → Enforcer p
  loaded_or e (ok _) fresh = fresh
  loaded_or e (err x) fresh = e
  loaded_or e panic fresh = e

  abbrev pub reloaded : Enforcer p → World → Enforcer p
  reloaded e w =
      let (r, (fresh, w')) = load_rules p c (Enforcer.new p e.db, w) in loaded_or e r fresh

  -- The last change whose load succeeds says what the enforcer is.
  abbrev pub latest : Enforcer p → List (ChangeEvent × World) → Enforcer p
  latest e [] = e
  latest e ((next id seq changes deleted, w) ∷ later) = latest (reloaded e w) later
  latest e ((end last_seq pending, w) ∷ later) = latest e later

  -- A load leaves what a new enforcer would load, or the enforcer as it was.
  load_rules_lem : (e : Enforcer p) (w : World) → (load_rules p c (e, w)).1.0 ≡ reloaded e w
  unfolding load_rules set_principals Enforcer.new Model.empty
  load_rules_lem e w =
      let rules = map_err database (list_all_partitioned p c.rules e.db "rule") w in
      let assignments =
        map_err database (list_all_partitioned p c.assignments e.db "role") rules.1 in
      elim (Outcome-cases rules.0) [
        | inl (rows, read) ↦
            elim (Option-cases (load_rows p (no_rules p) (map (λ row. row.doc) rows.rows))) [
              | inl bad ↦ ground arith
              | inr (loaded, fine) ↦ elim (Outcome-cases assignments.0) [
                | inl (assigned, listed) ↦ ground arith
                | inr (inl (x, failed)) ↦ ground arith
                | inr (inr panics) ↦ ground arith
              ]
            ]
        | inr (inl (x, failed)) ↦ ground arith
        | inr (inr panics) ↦ ground arith
      ]

  reacted :
      (e : Enforcer p) (w : World) (s : Enforcer p × World) (event : ChangeEvent)
      → react p c event (e, w) ≡ (ok tt, s)
      → s.0 ≡ latest e ((event, w) ∷ [])
  unfolding react
  reacted e w s (end last_seq pending) h = ap (λ r. r.1.0) (sym h)
  reacted e w s (next id seq changes deleted) h = ap (λ r. r.1.0) (sym h) ∙ load_rules_lem e w

  latest-cons :
      (e : Enforcer p) (w : World) (event : ChangeEvent) (later : List (ChangeEvent × World))
      → latest (latest e ((event, w) ∷ [])) later ≡ latest e ((event, w) ∷ later)
  latest-cons e w (end last_seq pending) later = refl
  latest-cons e w (next id seq changes deleted) later = refl

  run_latest :
      (s t : Enforcer p × World) (events : List (ChangeEvent × World))
      → Runs p c s events t
      → t.0 ≡ latest s.0 events
  run_latest s t [] stay = refl
  run_latest s t events (elsewhere {e = e} {w' = w'} rest) = run_latest (e, w') t events rest
  run_latest s t events (reacts {e = e} {w = w} {s = m} {later = later} event h rest) =
      run_latest m t later rest
      ∙ ap (λ x. latest x later) (reacted e w m event h)
      ∙ latest-cons e w event later

  -- At every moment of a run, whatever else happens to the world meanwhile, the enforcer that
  -- requests read is what a new one, with an empty model, would have loaded from the world at the
  -- last of the taken changes at which a load succeeds; it is the one that the run began with if
  -- there is no such change.
  pub run_holds_latest :
      (e now : Enforcer p) (w w' : World) (events : List (ChangeEvent × World))
      → Runs p c (e, w) events (now, w')
      → now ≡ latest e events
  run_holds_latest e now w w' events r = run_latest (e, w) (now, w') events r

  react_no_error :
      (event : ChangeEvent) (x : Error) (s : Enforcer p × World) → (react p c event s).0 ≢ err x
  unfolding react
  react_no_error (end last_seq pending) x s = λ h. absurd (ground arith)
  react_no_error (next id seq changes deleted) x s = λ h.
      elim (Outcome-cases (load_rules p c s).0) [
        | inl (_, made) ↦ absurd (ground arith)
        | inr (inl (y, failed)) ↦ absurd (ground arith)
        | inr (inr panics) ↦ absurd (ground arith)
      ]

  -- No error ends the watching of a stream.
  pub watch_no_error :
      (events : List ChangeEvent) (x : Error) (s : Enforcer p × World)
      → (watch p c events s).0 ≢ err x
  unfolding watch
  watch_no_error [] x s = λ h. absurd (ground arith)
  watch_no_error (event ∷ rest) x s = λ h. elim (Outcome-cases (react p c event s).0) [
    | inl (_, made) ↦ watch_no_error rest x (react p c event s).1 (ground arith)
    | inr (inl (y, failed)) ↦ react_no_error event y s failed
    | inr (inr panics) ↦ absurd (ground arith)
  ]
