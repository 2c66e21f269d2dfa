-- ===== src/Identity/Keys.antt =====
-- The keys of an identity bundle, crates/identity/src/lib.rs.
use freenet_git.Prelude.{◌≡◌, [], ◌++◌, Bytes, bytes, take, length, ◌==◌, if◌then◌else◌}
use freenet_git.Crypto.{Crypto}
use freenet_git.Outcome.{Result, ok, err, map_err}
use freenet_git.Signing.TipKeys.{hex_bytes}
use freenet_git.Identity.{BundleError, decode, DecryptedBundle}

-- `ed25519_dalek`: the keys of 32 bytes, of which not all are the bytes of a point.
pub record Dalek : Type 1 where
  pub SigningKey : Type 0
  pub VerifyingKey : Type 0
  pub signing_bytes : SigningKey → Bytes
  pub signing_from_bytes : Bytes → SigningKey
  pub verifying_key : SigningKey → VerifyingKey
  pub verifying_bytes : VerifyingKey → Bytes
  pub verifying_from_bytes : Bytes → Result Bytes VerifyingKey

-- What its documents promise.
pub record KeysRoundTrip (d : Dalek) : Type 0 where
  pub signing_length : (k : d.SigningKey) → length (d.signing_bytes k) ≡ 32
  pub signing_back : (k : d.SigningKey) → d.signing_from_bytes (d.signing_bytes k) ≡ k
  pub verifying_length : (k : d.VerifyingKey) → length (d.verifying_bytes k) ≡ 32
  pub verifying_back : (k : d.VerifyingKey) → d.verifying_from_bytes (d.verifying_bytes k) ≡ ok k

-- `DecryptedBundle::new`, the random key given.
unfoldable pub new : (d : Dalek) → d.SigningKey → Bytes → Bytes → DecryptedBundle
new d signing name email = record {
  secret_key = d.signing_bytes signing;
  public_key = d.verifying_bytes (d.verifying_key signing);
  name = name;
  email = email;
  repos = [];
}

unfoldable pub signing_key : (d : Dalek) → DecryptedBundle → Result BundleError d.SigningKey
signing_key d bundle =
    if length bundle.secret_key == 32
    then ok (d.signing_from_bytes bundle.secret_key)
    else err (decode (bytes "secret_key wrong length"))

unfoldable pub verifying_key_of : (d : Dalek) → DecryptedBundle → Result BundleError d.VerifyingKey
verifying_key_of d bundle =
    if length bundle.public_key == 32
    then map_err decode (d.verifying_from_bytes bundle.public_key)
    else err (decode (bytes "public_key wrong length"))

unfoldable pub id_string : Crypto → DecryptedBundle → Bytes
id_string c bundle = bytes "freenet:id:" ++ c.bs58_encode bundle.public_key

unfoldable pub hex_short : Bytes → Bytes
hex_short bs = hex_bytes (take 4 bs) ++ bytes ".."

-- A new bundle gives back the key that it was made with, and that key's public half.
pub signing_key-new :
    (d : Dalek)
    → KeysRoundTrip d
    → (k : d.SigningKey) (name email : Bytes)
    → (signing_key d (new d k name email) ≡ ok k)
      × (verifying_key_of d (new d k name email) ≡ ok (d.verifying_key k))
unfolding signing_key verifying_key_of new
signing_key-new d back k name email = (
  rw (back.signing_length k, back.signing_back k),
  rw (back.verifying_length (d.verifying_key k), back.verifying_back (d.verifying_key k)),
)
