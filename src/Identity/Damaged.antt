-- ===== src/Identity/Damaged.antt =====
-- A sealed bundle whose nonce was damaged, crates/identity/src/lib.rs.
use freenet_git.Prelude.{
  ℕ, ◌≡◌, ◌≢◌, refl, ◌∙◌, ap, sym, ◌⊎◌, inl, inr, [], Bytes, length, arith, replicate,
}
use freenet_git.BTreeMap.Order.{eqb_refl}
use freenet_git.Encoding.LittleEndian.{to_le_bytes}
use freenet_git.Outcome.{ok, panic, map_err-ok}
use freenet_git.Identity.{
  bundle_magic, crypto, DecryptedBundle, Envelope, Libraries, fresh, derive_key, from_slice, seal,
  open_envelope, open_v1, open_bundle,
}
use freenet_git.Identity.Seal.{Faithful, Sealed, seal-Sealed, sealed_envelope, open_bundle-v1}

from_slice-panic : (n : ℕ) (bs : Bytes) → length bs ≢ n → from_slice n bs ≡ panic
unfolding from_slice
from_slice-panic n bs h = ground arith

-- The key that the passphrase of the seal gives, or the empty one.
derive_key-either :
    (lib : Libraries) (salt nonce : Bytes) (bundle : DecryptedBundle) (passphrase out p : Bytes)
    → Sealed lib salt nonce bundle passphrase out
    → (p ≡ passphrase) ⊎ (p ≡ [])
    → (key_bytes : Bytes) × (key : Bytes) × (derive_key lib (fresh salt) p ≡ ok key_bytes)
      × (from_slice 32 key_bytes ≡ ok key)
unfolding derive_key from_slice
derive_key-either lib salt nonce bundle passphrase out p s (inl e) =
    (s.key_bytes, s.key, rw e s.derived, s.sliced)
derive_key-either lib salt nonce bundle passphrase out p s (inr e) =
    (replicate 32 0, replicate 32 0, rw e refl, refl)

open_envelope-damaged :
    (lib : Libraries) (salt nonce : Bytes) (bundle : DecryptedBundle)
    (passphrase out p bad_nonce : Bytes)
    → (s : Sealed lib salt nonce bundle passphrase out) → (p ≡ passphrase) ⊎ (p ≡ [])
    → length bad_nonce ≢ 24
    → open_envelope lib (record (sealed_envelope salt nonce s.c) { nonce = bad_nonce }) p ≡ panic
unfolding open_envelope
open_envelope-damaged lib salt nonce bundle passphrase out p bad_nonce s which bad =
    let (key_bytes, key, derived, sliced) =
      derive_key-either lib salt nonce bundle passphrase out p s which in
    rw (eqb_refl bundle_magic, derived, sliced, s.associated, from_slice-panic 24 bad_nonce bad)

-- For libraries that keep their promises: if the envelope of a sealed bundle is stored again with a
-- nonce that does not have 24 bytes and nothing else changed, then opening what is stored, with the
-- passphrase that it was sealed with or with the empty one, panics and returns no error.
pub open_bundle-damaged_nonce :
    (lib : Libraries) (salt nonce : Bytes) (bundle : DecryptedBundle) (passphrase out : Bytes)
    (envelope : Envelope) (bad_nonce damaged p : Bytes)
    → Faithful lib
    → seal lib salt nonce bundle passphrase ≡ ok out
    → lib.deserialize_envelope out ≡ ok envelope
    → length bad_nonce ≢ 24
    → lib.serialize_envelope (record envelope { nonce = bad_nonce }) ≡ ok damaged
    → (p ≡ passphrase) ⊎ (p ≡ [])
    → open_bundle lib damaged p ≡ panic
unfolding open_v1 to_le_bytes
open_bundle-damaged_nonce lib salt nonce bundle passphrase out envelope bad_nonce damaged p f h
      decoded bad stored which =
    let s = seal-Sealed lib salt nonce bundle passphrase out h in
    let original = sealed_envelope salt nonce s.c in
    let kept =
      f.envelope original out (map_err-ok crypto (lib.serialize_envelope original) out s.stored) in
    let same : envelope ≡ original = ground (arith, decoded, kept) in
    let changed : Envelope = record original { nonce = bad_nonce } in
    let stored' : lib.serialize_envelope changed ≡ ok damaged =
      ap (λ e. lib.serialize_envelope (record e { nonce = bad_nonce })) (sym same) ∙ stored in
    let (rest, laid_out) = f.layout changed damaged stored' in
    open_bundle-v1 lib damaged rest p laid_out
    ∙ rw (f.envelope changed damaged stored')
        (open_envelope-damaged lib salt nonce bundle passphrase out p bad_nonce s which bad)
