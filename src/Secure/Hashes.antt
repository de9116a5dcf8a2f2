-- ===== src/Secure/Hashes.antt =====
-- Passwords that are hashed, and verified against their hash.
use enseada.Prelude.{ℕ, String, List, true, ◌≡◌, arith}
use enseada.Prelude.Exec.{ok, ok_of_bind}
use enseada.Platform.{Platform}
use enseada.Secure.{generate_token, hash_password}

module _ (p : Platform) where
  -- Argon2 accepts the passwords that it hashed.
  abbrev pub VerifiesOwnHashes : Type 0
  VerifiesOwnHashes =
      (salt : List ℕ) (password hash : String)
      → p.hash_encoded password salt ≡ ok hash
      → p.verify_encoded hash password ≡ ok true

  pub hash_verifies :
      (password hash : String) (w w' : p.World)
      → VerifiesOwnHashes
      → hash_password p password w ≡ (ok hash, w')
      → p.verify_encoded hash password ≡ ok true
  unfolding hash_password
  hash_verifies password hash w w' own h =
      let (salt, v, drawn, rest) = ok_of_bind (generate_token p 16) _ hash w w' h in
      own salt.bytes password hash (ground arith)
