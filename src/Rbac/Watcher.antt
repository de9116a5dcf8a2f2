-- ===== src/Rbac/Watcher.antt =====
-- server/src/rbac/watcher.rs: the task that reloads the rules at each change of their database.
pub mod Freshness
use enseada.Prelude.{List, [], ◌∷◌, ◌≡◌}
use enseada.Prelude.Exec.{Outcome, ok, err, panic, Exec, pure, ◌>>=◌, ◌>>◌}
use enseada.Platform.{Platform}
use enseada.Error.{Error}
use enseada.Couch.Changes.{ChangeEvent, next, end}
use enseada.Rbac.Enforcer.{Enforcer, Codecs, load_rules}

module _ (p : Platform) (c : Codecs p) where
  open p use {World}

  -- The error of a load is logged.
  abbrev logged : Outcome Error (Unit {0}) → Outcome Error (Unit {0})
  logged (ok _) = ok tt
  logged (err x) = ok tt
  logged panic = panic

  -- What the task does with an event.
  unfoldable pub react : ChangeEvent → Exec (Enforcer p × World) Error (Unit {0})
  react (next id seq changes deleted) s = let (loaded, s') = load_rules p c s in (logged loaded, s')
  react (end last_seq pending) s = (ok tt, s)

  -- The loop over the events of one stream.
  unfoldable pub watch : List ChangeEvent → Exec (Enforcer p × World) Error (Unit {0})
  unfolding react
  watch [] = pure tt
  watch (event ∷ rest) = do react event; watch rest

  -- A run of the task, beside which requests read the enforcer and anything may change the world,
  -- with the events that it took, each with the world that it found.
  pub data Runs
      : Enforcer p × World → List (ChangeEvent × World) → Enforcer p × World → Type 0 where
    stay : {s : Enforcer p × World} → Runs s [] s
    reacts :
        {e : Enforcer p} {w : World} {s t : Enforcer p × World} {later : List (ChangeEvent × World)}
        (event : ChangeEvent)
        → react event (e, w) ≡ (ok tt, s)
        → Runs s later t
        → Runs (e, w) ((event, w) ∷ later) t
    elsewhere :
        {e : Enforcer p} {w w' : World} {t : Enforcer p × World}
        {events : List (ChangeEvent × World)}
        → Runs (e, w') events t
        → Runs (e, w) events t
