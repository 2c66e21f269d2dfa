-- ===== src/Identity/Open.antt =====
-- What opening a bundle asks of its bytes, crates/identity/src/lib.rs.
use freenet_git.Prelude.{
  ℕ, ◌≤◌, ◌<◌, ◌≡◌, ◌≢◌, refl, ◌⊎◌, inl, inr, ◌==◌, [], ◌∷◌, Bytes, length, take, drop, arith, ltb,
  ltb→lt, ltb→ge, Bool-cases, ==_iff,
}
use freenet_git.BTreeMap.Order.{eqb, eqb→eq, ne_of_eqb}
use freenet_git.Encoding.LittleEndian.{of_le_bytes}
use freenet_git.Outcome.{Result, ok, err, >>=-ok, map_err-ok, map_err}
use freenet_git.Identity.{
  bundle_magic, BundleError, decode, too_short, bad_magic, unsupported_version, KdfParams,
  DecryptedBundle, Envelope, Libraries, enforce_minimum, derive_key, peek_envelope_header,
  from_slice, associated_data, open_envelope, open_v1, open_bundle,
}

-- Bytes with the header of the supported version.
abbrev pub HasHeader : Bytes → Type 0
HasHeader bs =
    (12 ≤ length bs) × (take 8 bs ≡ bundle_magic) × (of_le_bytes (take 4 (drop 8 bs)) ≡ 1)

-- What opening gives for bytes, by their header.
pub data Opens (lib : Libraries) (bs passphrase : Bytes)
    : Result BundleError DecryptedBundle → Type 0 where
  short : length bs < 12 → Opens lib bs passphrase (err (too_short (length bs)))
  foreign : 12 ≤ length bs → take 8 bs ≢ bundle_magic → Opens lib bs passphrase (err bad_magic)
  newer :
      12 ≤ length bs
      → take 8 bs ≡ bundle_magic
      → of_le_bytes (take 4 (drop 8 bs)) ≢ 1
      → Opens lib bs passphrase (err (unsupported_version (of_le_bytes (take 4 (drop 8 bs))) 1))
  supported : HasHeader bs → Opens lib bs passphrase (open_v1 lib bs passphrase)

-- Bytes that are shorter than the header are too short, whatever they hold; longer ones whose first
-- eight bytes are not the magic are no bundle; with the magic, any version number but the supported
-- one is refused by that number; everything else goes to the reader of that version.
pub open_bundle-Opens :
    (lib : Libraries) (bs passphrase : Bytes)
    → Opens lib bs passphrase (open_bundle lib bs passphrase)
unfolding open_bundle peek_envelope_header
open_bundle-Opens lib bs passphrase =
    let version = of_le_bytes (take 4 (drop 8 bs)) in
    elim (Bool-cases (ltb (length bs) 12)) [
      | inl few ↦ rw few (short (ltb→lt (length bs) 12 few))
      | inr many ↦
          let long = ltb→ge (length bs) 12 many in
          elim (Bool-cases (eqb (take 8 bs) bundle_magic)) [
            | inr other ↦ rw (many, other) (foreign long (ne_of_eqb (take 8 bs) bundle_magic other))
            | inl same ↦
                let magic = eqb→eq (take 8 bs) bundle_magic same in
                elim (Bool-cases (version == 1)) [
                  | inl one ↦
                      rw (many, same, one) (supported (long, magic, (==_iff version 1).0 one))
                  | inr new ↦ rw (many, same, new) (newer long magic (λ e. ground arith))
                ]
          ]
    ]

-- Parameters that are not weaker than the minimum.
pub record Strong (k : KdfParams) : Type 0 where
  pub log_n : 17 ≤ k.log_n
  pub r : 8 ≤ k.r
  pub p : 1 ≤ k.p
  pub salt : length k.salt ≡ 16

enforce_minimum-Strong : (k : KdfParams) → enforce_minimum k ≡ ok (tt {0}) → Strong k
unfolding enforce_minimum
enforce_minimum-Strong k h = ground arith

derive_key-Strong :
    (lib : Libraries) (k : KdfParams) (passphrase key : Bytes)
    → derive_key lib k passphrase ≡ ok key
    → (passphrase ≡ []) ⊎ Strong k
unfolding derive_key
derive_key-Strong lib k [] key h = inl refl
derive_key-Strong lib k (b ∷ bs) key h =
    let (u, strong, rest) = >>=-ok (enforce_minimum k) _ key h in
    inr (enforce_minimum-Strong k strong)

Opens-ok :
    (lib : Libraries) (bs passphrase : Bytes) (r : Result BundleError DecryptedBundle)
    (bundle : DecryptedBundle)
    → Opens lib bs passphrase r
    → r ≡ ok bundle
    → HasHeader bs × (open_v1 lib bs passphrase ≡ ok bundle)
Opens-ok lib bs passphrase _ bundle (short h) e = absurd (ground arith)
Opens-ok lib bs passphrase _ bundle (foreign h g) e = absurd (ground arith)
Opens-ok lib bs passphrase _ bundle (newer h g k) e = absurd (ground arith)
Opens-ok lib bs passphrase _ bundle (supported h) e = (h, e)

-- What an envelope that opens under a passphrase is.
abbrev pub Sound : Envelope → Bytes → Type 0
Sound envelope passphrase =
    (envelope.magic ≡ bundle_magic)
    × (envelope.version ≡ 1)
    × (length envelope.nonce ≡ 24)
    × ((passphrase ≡ []) ⊎ Strong envelope.kdf)

from_slice-length : (n : ℕ) (bs out : Bytes) → from_slice n bs ≡ ok out → length bs ≡ n
unfolding from_slice
from_slice-length n bs out h = ground arith

open_envelope-Sound :
    (lib : Libraries) (envelope : Envelope) (passphrase : Bytes) (bundle : DecryptedBundle)
    → open_envelope lib envelope passphrase ≡ ok bundle
    → Sound envelope passphrase
unfolding open_envelope
open_envelope-Sound lib envelope passphrase bundle h =
    elim (Bool-cases (eqb envelope.magic bundle_magic)) [
      | inr other ↦ absurd (ground arith)
      | inl same ↦ elim (Bool-cases (envelope.version == 1)) [
        | inr new ↦ absurd (ground arith)
        | inl one ↦
            let (key, derived, h1) =
              >>=-ok (derive_key lib envelope.kdf passphrase) _ bundle (rw (same, one) at h) in
            let (k, sliced, h2) = >>=-ok (from_slice 32 key) _ bundle h1 in
            let (aad, associated, h3) = >>=-ok (associated_data lib envelope.kdf) _ bundle h2 in
            let (nonce, nonce_sliced, h4) = >>=-ok (from_slice 24 envelope.nonce) _ bundle h3 in
            (
              eqb→eq envelope.magic bundle_magic same,
              (==_iff envelope.version 1).0 one,
              from_slice-length 24 envelope.nonce nonce nonce_sliced,
              derive_key-Strong lib envelope.kdf passphrase key derived,
            )
      ]
    ]

-- If a bundle opens, then its bytes have the header and decode to an envelope of the supported
-- version, the envelope's nonce has 24 bytes, and the passphrase is empty or the envelope's
-- parameters are at least the minimum: one with weakened parameters never opens under a passphrase.
pub open_bundle-Sound :
    (lib : Libraries) (bs passphrase : Bytes) (bundle : DecryptedBundle)
    → open_bundle lib bs passphrase ≡ ok bundle
    → HasHeader bs
      × ((envelope : Envelope) × (lib.deserialize_envelope bs ≡ ok envelope)
          × Sound envelope passphrase)
unfolding open_v1
open_bundle-Sound lib bs passphrase bundle h =
    let (headed, opened) =
      Opens-ok lib bs passphrase _ bundle (open_bundle-Opens lib bs passphrase) h in
    let (envelope, decoded, rest) =
      >>=-ok (map_err decode (lib.deserialize_envelope bs)) _ bundle opened in
    (
      headed,
      (
        envelope,
        map_err-ok decode (lib.deserialize_envelope bs) envelope decoded,
        open_envelope-Sound lib envelope passphrase bundle rest,
      ),
    )
