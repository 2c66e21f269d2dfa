-- ===== src/Crypto.antt =====
-- The third-party primitives that the program calls: `blake3`, `ed25519-compact`, `ed25519-dalek` and
-- `bs58`. They are parameters: their operations, and separately what their documents promise.
use freenet_git.Prelude.{◌≡◌, Bool, true, Option, some, Bytes}

pub record Crypto : Type 1 where
  -- `blake3::hash(bytes).as_bytes()`.
  pub blake3 : Bytes → Bytes
  -- `ed25519_compact::{PublicKey, Signature}`.
  pub VerifyKey : Type 0
  pub VerifySig : Type 0
  pub key_from_slice : Bytes → Option VerifyKey
  pub sig_from_slice : Bytes → Option VerifySig
  pub verify : VerifyKey → Bytes → VerifySig → Bool
  -- `bs58::encode(..).into_string()` and `bs58::decode(..).into_vec()`.
  pub bs58_encode : Bytes → Bytes
  pub bs58_decode : Bytes → Option Bytes
  -- `ed25519_dalek::SigningKey`.
  pub SigningKey : Type 0
  pub verifying_key : SigningKey → Bytes
  pub sign : SigningKey → Bytes → Bytes

-- Both ed25519 crates implement RFC 8032: a signature made with a key parses, as does the key, and
-- verifies against it over the signed bytes.
pub record SignsVerify (c : Crypto) : Type 0 where
  pub key : (k : c.SigningKey) → c.VerifyKey
  pub key_parses : (k : c.SigningKey) → c.key_from_slice (c.verifying_key k) ≡ some (key k)
  pub sig : (k : c.SigningKey) → Bytes → c.VerifySig
  pub sig_parses : (k : c.SigningKey) (m : Bytes) → c.sig_from_slice (c.sign k m) ≡ some (sig k m)
  pub verifies : (k : c.SigningKey) (m : Bytes) → c.verify (key k) m (sig k m) ≡ true
