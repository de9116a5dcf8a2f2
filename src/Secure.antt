-- ===== src/Secure.antt =====
-- libenseada/src/secure.rs: secrets, random tokens, signatures and password hashes.
pub mod Hashes
use enseada.Prelude.{ℕ, String, Bool, List, [], nat_eq, length}
use enseada.Prelude.Exec.{Outcome, Exec, pure, lift, ◌>>=◌}
use enseada.Platform.{Platform}

pub record SecureSecret : Type 0 where
  pub bytes : List ℕ

unfoldable pub new : List ℕ → SecureSecret
new bytes = record { bytes = bytes }

unfoldable pub empty : SecureSecret
empty = record { bytes = [] }

unfoldable pub len : SecureSecret → ℕ
len s = length s.bytes

unfoldable pub is_empty : SecureSecret → Bool
unfolding len
is_empty s = nat_eq (len s) 0

module _ (p : Platform) where
  open p use {World, fill, hmac, hex, verify_encoded, hash_encoded}

  -- `Display`
  unfoldable pub to_string : SecureSecret → String
  to_string s = hex s.bytes

  unfoldable pub generate_token : ℕ → Exec World String SecureSecret
  unfolding new
  generate_token size = do buf ← fill size; pure (new buf)

  unfoldable pub generate_signature : String → String → SecureSecret
  unfolding new
  generate_signature source key = new (hmac key source)

  unfoldable pub hash_password : String → Exec World String String
  unfolding generate_token
  hash_password password = do salt ← generate_token 16; lift (hash_encoded password salt.bytes)

  unfoldable pub verify_password : String → String → Outcome String Bool
  verify_password hash pwd = verify_encoded hash pwd
