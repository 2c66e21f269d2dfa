-- ===== src/Identity/Seal.antt =====
-- What is sealed can be opened, crates/identity/src/lib.rs.
use freenet_git.Prelude.{ℕ, ◌≡◌, ◌∙◌, Option, some, Bytes, ◌++◌, length, arith, ge→ltb}
use freenet_git.BTreeMap.Order.{eqb_refl}
use freenet_git.Encoding.LittleEndian.{to_le_bytes, of_le_bytes}
use freenet_git.Outcome.{ok, >>=-ok, map_err-ok, ok_or, map_err}
use freenet_git.Identity.{
  bundle_magic, bundle_version, header, BundleError, crypto, DecryptedBundle, Envelope, Libraries,
  fresh, derive_key, peek_envelope_header, from_slice, associated_data, seal, open_envelope,
  open_v1, open_bundle,
}

-- What the libraries promise: decoding undoes encoding, the fixed-width encoding of an envelope is
-- its fields in order, and the cipher decrypts what it encrypted.
pub record Faithful (lib : Libraries) : Type 0 where
  pub bundle :
      (b : DecryptedBundle) (m : Bytes)
      → lib.serialize_bundle b ≡ ok m
      → lib.deserialize_bundle m ≡ ok b
  pub envelope :
      (e : Envelope) (m : Bytes)
      → lib.serialize_envelope e ≡ ok m
      → lib.deserialize_envelope m ≡ ok e
  pub layout :
      (e : Envelope) (m : Bytes)
      → lib.serialize_envelope e ≡ ok m
      → (rest : Bytes) × (m ≡ e.magic ++ to_le_bytes 4 e.version ++ rest)
  pub cipher :
      (key nonce msg aad c : Bytes)
      → lib.encrypt key nonce msg aad ≡ some c
      → lib.decrypt key nonce c aad ≡ some msg

ok_or-ok : {A : Type 0} (e : BundleError) (o : Option A) (a : A) → ok_or e o ≡ ok a → o ≡ some a
ok_or-ok e Option.none a h = absurd (ground arith)
ok_or-ok e (some b) a h = ground arith

from_slice-ok : (n : ℕ) (bs out : Bytes) → from_slice n bs ≡ ok out → out ≡ bs
unfolding from_slice
from_slice-ok n bs out h = ground arith

-- The header of a sealed envelope leads to the reader of its version.
peek_envelope_header-header :
    (rest : Bytes)
    → peek_envelope_header (header ++ rest) ≡ ok (record { magic = bundle_magic; version = 1 })
unfolding peek_envelope_header of_le_bytes
peek_envelope_header-header rest = rw (ge→ltb (length (header ++ rest)) 12 (omega arith))

pub open_bundle-v1 :
    (lib : Libraries) (bs rest passphrase : Bytes)
    → bs ≡ header ++ rest
    → open_bundle lib bs passphrase ≡ open_v1 lib bs passphrase
unfolding open_bundle
open_bundle-v1 lib bs rest passphrase e =
    let peeked : peek_envelope_header bs ≡ ok (record { magic = bundle_magic; version = 1 }) =
      rw e (peek_envelope_header-header rest) in
    rw (peeked, eqb_refl bundle_magic)

-- The envelope that `seal` makes of a ciphertext.
abbrev pub sealed_envelope : Bytes → Bytes → Bytes → Envelope
sealed_envelope salt nonce c = record {
  magic = bundle_magic;
  version = bundle_version;
  kdf = fresh salt;
  nonce = nonce;
  ciphertext = c;
}

-- The steps of a seal that succeeds.
pub record Sealed (lib : Libraries) (salt nonce : Bytes) (bundle : DecryptedBundle)
    (passphrase out : Bytes) : Type 0 where
  pub key_bytes : Bytes
  pub key : Bytes
  pub payload : Bytes
  pub aad : Bytes
  pub nonce_array : Bytes
  pub c : Bytes
  pub derived : derive_key lib (fresh salt) passphrase ≡ ok key_bytes
  pub sliced : from_slice 32 key_bytes ≡ ok key
  pub serialized : map_err crypto (lib.serialize_bundle bundle) ≡ ok payload
  pub associated : associated_data lib (fresh salt) ≡ ok aad
  pub nonce_sliced : from_slice 24 nonce ≡ ok nonce_array
  pub encrypted : lib.encrypt key nonce_array payload aad ≡ some c
  pub stored : map_err crypto (lib.serialize_envelope (sealed_envelope salt nonce c)) ≡ ok out

pub seal-Sealed :
    (lib : Libraries) (salt nonce : Bytes) (bundle : DecryptedBundle) (passphrase out : Bytes)
    → seal lib salt nonce bundle passphrase ≡ ok out
    → Sealed lib salt nonce bundle passphrase out
unfolding seal
seal-Sealed lib salt nonce bundle passphrase out h =
    let (key_bytes, derived, h1) = >>=-ok (derive_key lib (fresh salt) passphrase) _ out h in
    let (key, sliced, h2) = >>=-ok (from_slice 32 key_bytes) _ out h1 in
    let (payload, serialized, h3) =
      >>=-ok (map_err crypto (lib.serialize_bundle bundle)) _ out h2 in
    let (aad, associated, h4) = >>=-ok (associated_data lib (fresh salt)) _ out h3 in
    let (nonce_array, nonce_sliced, h5) = >>=-ok (from_slice 24 nonce) _ out h4 in
    let cipher = lib.encrypt key nonce_array payload aad in
    let (c, encrypted, stored) = >>=-ok (ok_or _ cipher) _ out h5 in
    record {
      key_bytes = key_bytes;
      key = key;
      payload = payload;
      aad = aad;
      nonce_array = nonce_array;
      c = c;
      derived = derived;
      sliced = sliced;
      serialized = serialized;
      associated = associated;
      nonce_sliced = nonce_sliced;
      encrypted = ok_or-ok _ cipher c encrypted;
      stored = stored;
    }

Sealed-open_envelope :
    (lib : Libraries) (salt nonce : Bytes) (bundle : DecryptedBundle) (passphrase out : Bytes)
    → Faithful lib
    → (s : Sealed lib salt nonce bundle passphrase out)
    → open_envelope lib (sealed_envelope salt nonce s.c) passphrase ≡ ok bundle
unfolding open_envelope
Sealed-open_envelope lib salt nonce bundle passphrase out f s =
    let decrypted = f.cipher s.key s.nonce_array s.payload s.aad s.c s.encrypted in
    let decoded =
      f.bundle bundle s.payload
        (map_err-ok crypto (lib.serialize_bundle bundle) s.payload s.serialized) in
    rw
      (eqb_refl bundle_magic, s.derived, s.sliced, s.associated, s.nonce_sliced, decrypted, decoded)

-- For libraries that keep their promises, whatever the salt, the nonce, the bundle and the
-- passphrase, the empty one included: if sealing succeeds, then opening the result with the same
-- passphrase gives the bundle back.
pub open_bundle-seal :
    (lib : Libraries) (salt nonce : Bytes) (bundle : DecryptedBundle) (passphrase out : Bytes)
    → Faithful lib
    → seal lib salt nonce bundle passphrase ≡ ok out
    → open_bundle lib out passphrase ≡ ok bundle
unfolding open_v1 to_le_bytes
open_bundle-seal lib salt nonce bundle passphrase out f h =
    let s = seal-Sealed lib salt nonce bundle passphrase out h in
    let envelope = sealed_envelope salt nonce s.c in
    let stored = map_err-ok crypto (lib.serialize_envelope envelope) out s.stored in
    let (rest, laid_out) = f.layout envelope out stored in
    let opened = Sealed-open_envelope lib salt nonce bundle passphrase out f s in
    open_bundle-v1 lib out rest passphrase laid_out ∙ rw (f.envelope envelope out stored) opened
