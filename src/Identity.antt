-- ===== src/Identity.antt =====
-- Identity bundles: the envelope, the key derivation, sealing and opening, crates/identity/src/lib.rs.
pub mod Seal
pub mod Open
pub mod File
pub mod Keys
pub mod Damaged
use freenet_git.Prelude.{
  ℕ, ◌+◌, ◌*◌, ◌≡◌, Bool, true, false, Option, none, some, List, [], ◌∷◌, ◌++◌, Bytes, bytes,
  length, take, drop, replicate, ltb, ◌==◌, not, if◌then◌else◌,
}
use freenet_git.BTreeMap.Order.{eqb}
use freenet_git.Encoding.LittleEndian.{of_le_bytes}
use freenet_git.Outcome.{Result, ok, err, panic, ◌>>=◌, ◌>>◌, ok_or, map_err}

abbrev pub bundle_magic : Bytes
bundle_magic = bytes "freegit" ++ 1 ∷ []

abbrev pub bundle_version : ℕ
bundle_version = 1

abbrev pub envelope_header_len : ℕ
envelope_header_len = 12

-- `kdf_min`.
abbrev pub min_log_n : ℕ
min_log_n = 17

abbrev pub min_r : ℕ
min_r = 8

abbrev pub min_p : ℕ
min_p = 1

pub data WeakKdf : Type 0 where
  weak_log_n : ℕ → WeakKdf
  weak_r : ℕ → WeakKdf
  weak_p : ℕ → WeakKdf
  salt_len : ℕ → WeakKdf

-- The texts are those of the libraries' errors.
pub data BundleError : Type 0 where
  io : Bytes → BundleError
  decode : Bytes → BundleError
  -- The length of what is too short for a header.
  too_short : ℕ → BundleError
  bad_magic : BundleError
  weak_kdf : WeakKdf → BundleError
  decrypt : BundleError
  -- The version found and the latest that is supported.
  unsupported_version : ℕ → ℕ → BundleError
  crypto : Bytes → BundleError

pub record KdfParams : Type 0 where
  pub salt : Bytes
  pub log_n : ℕ
  pub r : ℕ
  pub p : ℕ

pub record RepoRegistryEntry : Type 0 where
  pub repo_secret : Bytes
  pub repo_public : Bytes
  pub prefix : Bytes
  pub display_name : Bytes

pub record DecryptedBundle : Type 0 where
  pub secret_key : Bytes
  pub public_key : Bytes
  pub name : Bytes
  pub email : Bytes
  pub repos : List RepoRegistryEntry

pub record Envelope : Type 0 where
  pub magic : Bytes
  pub version : ℕ
  pub kdf : KdfParams
  pub nonce : Bytes
  pub ciphertext : Bytes

-- The libraries `bincode`, `scrypt` and `chacha20poly1305`. Their errors are texts; the cipher's
-- have none.
pub record Libraries : Type 0 where
  pub serialize_kdf : KdfParams → Result Bytes Bytes
  pub serialize_bundle : DecryptedBundle → Result Bytes Bytes
  pub deserialize_bundle : Bytes → Result Bytes DecryptedBundle
  pub serialize_envelope : Envelope → Result Bytes Bytes
  pub deserialize_envelope : Bytes → Result Bytes Envelope
  -- The cost numbers, the passphrase and the salt.
  pub scrypt_params : ℕ → ℕ → ℕ → Result Bytes (Unit {0})
  pub scrypt : ℕ → ℕ → ℕ → Bytes → Bytes → Result Bytes Bytes
  -- The key, the nonce, the message or the ciphertext, and the associated data.
  pub encrypt : Bytes → Bytes → Bytes → Bytes → Option Bytes
  pub decrypt : Bytes → Bytes → Bytes → Bytes → Option Bytes

-- `KdfParams::fresh`, its random salt given.
unfoldable pub fresh : Bytes → KdfParams
fresh salt = record { salt = salt; log_n = min_log_n; r = min_r; p = min_p }

unfoldable pub enforce_minimum : KdfParams → Result BundleError (Unit {0})
enforce_minimum k =
    if ltb k.log_n min_log_n
    then err (weak_kdf (weak_log_n k.log_n))
    else if ltb k.r min_r
    then err (weak_kdf (weak_r k.r))
    else if ltb k.p min_p
    then err (weak_kdf (weak_p k.p))
    else if length k.salt == 16
    then ok (tt {0})
    else err (weak_kdf (salt_len (length k.salt)))

unfoldable pub derive_key : Libraries → KdfParams → Bytes → Result BundleError Bytes
derive_key lib k [] = ok (replicate 32 0)
derive_key lib k (b ∷ bs) = do
  enforce_minimum k
  map_err crypto (lib.scrypt_params k.log_n k.r k.p)
  map_err crypto (lib.scrypt k.log_n k.r k.p (b ∷ bs) k.salt)

pub record EnvelopeHeader : Type 0 where
  pub magic : Bytes
  pub version : ℕ

unfoldable pub peek_envelope_header : Bytes → Result BundleError EnvelopeHeader
peek_envelope_header bs =
    if ltb (length bs) envelope_header_len
    then err (too_short (length bs))
    else ok (record { magic = take 8 bs; version = of_le_bytes (take 4 (drop 8 bs)) })

-- `GenericArray::from_slice`, which panics unless the length is right.
unfoldable pub from_slice : ℕ → Bytes → Result BundleError Bytes
from_slice n bs = if length bs == n then ok bs else panic

-- The header of the associated data: the magic and the version, little-endian.
abbrev pub header : Bytes
header = bundle_magic ++ 1 ∷ 0 ∷ 0 ∷ 0 ∷ []

unfoldable pub associated_data : Libraries → KdfParams → Result BundleError Bytes
associated_data lib k = do
  kdf_bytes ← map_err crypto (lib.serialize_kdf k)
  ok (header ++ kdf_bytes)

-- `seal`, which is `v1::seal`: the random salt and nonce, the bundle and the passphrase.
unfoldable pub seal : Libraries → Bytes → Bytes → DecryptedBundle → Bytes → Result BundleError Bytes
seal lib salt nonce bundle passphrase = do
  let kdf = fresh salt
  key_bytes ← derive_key lib kdf passphrase
  key ← from_slice 32 key_bytes
  payload_bytes ← map_err crypto (lib.serialize_bundle bundle)
  aad ← associated_data lib kdf
  nonce_array ← from_slice 24 nonce
  ciphertext ← ok_or (crypto (bytes "encrypt")) (lib.encrypt key nonce_array payload_bytes aad)
  map_err crypto (
      lib.serialize_envelope (record {
        magic = bundle_magic;
        version = bundle_version;
        kdf = kdf;
        nonce = nonce;
        ciphertext = ciphertext;
      }))

-- `v1::open` behind the decoding of the envelope.
unfoldable pub open_envelope : Libraries → Envelope → Bytes → Result BundleError DecryptedBundle
open_envelope lib envelope passphrase =
    if not (eqb envelope.magic bundle_magic)
    then err bad_magic
    else if not (envelope.version == bundle_version)
    then err (unsupported_version envelope.version bundle_version)
    else do
      key_bytes ← derive_key lib envelope.kdf passphrase
      key ← from_slice 32 key_bytes
      aad ← associated_data lib envelope.kdf
      nonce_array ← from_slice 24 envelope.nonce
      plaintext ← ok_or BundleError.decrypt (lib.decrypt key nonce_array envelope.ciphertext aad)
      map_err decode (lib.deserialize_bundle plaintext)

unfoldable pub open_v1 : Libraries → Bytes → Bytes → Result BundleError DecryptedBundle
open_v1 lib bs passphrase = do
  envelope ← map_err decode (lib.deserialize_envelope bs)
  open_envelope lib envelope passphrase

unfoldable pub open_bundle : Libraries → Bytes → Bytes → Result BundleError DecryptedBundle
open_bundle lib bs passphrase = do
  header ← peek_envelope_header bs
  if eqb header.magic bundle_magic
      then (if header.version == bundle_version
          then open_v1 lib bs passphrase
          else err (unsupported_version header.version bundle_version))
      else err bad_magic
