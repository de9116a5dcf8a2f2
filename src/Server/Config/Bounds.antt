-- ===== src/Server/Config/Bounds.antt =====
-- What a configuration that loads is known to have, and how the load fails.
use Prim.Native.String.{String, len}
use enseada.Prelude.{◌≤◌, ◌<◌, ◌≡◌, arith, ltb, not, inl, inr, Bool-cases}
use enseada.Prelude.Exec.{ok, err, lift, ensure, ok_of_bind}
use enseada.Platform.{Platform}
use enseada.Server.Config.{
  Configuration, Settings, secret_key, root_password, short_key, short_password, with_defaults,
  validate, new,
}

module _ (p : Platform) (s : Settings p) where
  open p use {World}
  open s use {Table, environment, get_str, try_into}

  -- What a configuration is read as is what the look-ups of its parts find.
  pub record LookupLaws : Type 0 where
    pub key_read :
        (table : Table) (cfg : Configuration p)
        → try_into table ≡ ok cfg
        → get_str table "secret.key" ≡ ok (secret_key p cfg)
    pub password_read :
        (table : Table) (cfg : Configuration p)
        → try_into table ≡ ok cfg
        → get_str table "root.password" ≡ ok (root_password p cfg)

  validated_key :
      (table : Table) (key : String) (w w' : World)
      → get_str table "secret.key" ≡ ok key
      → validate p s table w ≡ (ok tt, w')
      → 32 ≤ len key
  unfolding validate
  validated_key table key w w' read h = elim (Bool-cases (ltb (len key) 32)) [
    | inl short ↦ absurd (ground arith)
    | inr long ↦ ground arith
  ]

  validated_password :
      (table : Table) (password : String) (w w' : World)
      → get_str table "root.password" ≡ ok password
      → validate p s table w ≡ (ok tt, w')
      → 8 ≤ len password
  unfolding validate
  validated_password table password w w' read h =
      let (key, w1, found, rest) = ok_of_bind (lift (get_str table "secret.key")) _ tt w w' h in
      let (_, w2, long, rest2) =
        ok_of_bind (ensure (not (ltb (len key) 32)) (short_key p s)) _ tt w1 w' rest in
      elim (Bool-cases (ltb (len password) 8)) [
        | inl short ↦ absurd (ground arith)
        | inr enough ↦ ground arith
      ]

  -- A configuration that loads has a secret key of 32 bytes at least, and a root password of 8
  -- bytes at least.
  pub new_bounds :
      (cfg : Configuration p) (w w' : World)
      → LookupLaws
      → new p s w ≡ (ok cfg, w')
      → (32 ≤ len (secret_key p cfg)) × (8 ≤ len (root_password p cfg))
  unfolding new
  new_bounds cfg w w' laws h =
      let (merged, w1, read, rest) = ok_of_bind environment _ cfg w w' h in
      let (table, w2, defaults, rest2) = ok_of_bind (with_defaults p s merged) _ cfg w1 w' rest in
      let (_, w3, valid, rest3) = ok_of_bind (validate p s table) _ cfg w2 w' rest2 in
      let full : try_into table ≡ ok cfg = ground arith in
      (
        validated_key table (secret_key p cfg) w2 w3 (laws.key_read table cfg full) valid,
        validated_password table (root_password p cfg) w2 w3 (laws.password_read table cfg full)
            valid,
      )

  -- Where the settings have texts of fewer bytes for the secret key or the root password, the load
  -- fails: with the message for the key first, whatever the password.
  pub validate_refuses :
      (table : Table) (key password : String) (w : World)
      → get_str table "secret.key" ≡ ok key
      → get_str table "root.password" ≡ ok password
      → (len key < 32 → validate p s table w ≡ (err (short_key p s), w))
        × (32 ≤ len key → len password < 8 → validate p s table w ≡ (err (short_password p s), w))
        × (32 ≤ len key → 8 ≤ len password → validate p s table w ≡ (ok tt, w))
  unfolding validate
  validate_refuses table key password w k r =
      (λ short. ground arith, λ long short. ground arith, λ long enough. ground arith)
