-- ===== src/Tests/IdentityTests.antt =====
-- The theorems on identity bundles, their files and the pack cache, at concrete values.
use freenet_git.Prelude.{
  ◌≡◌, refl, ◌∙◌, ap, inl, inr, Bool, true, ◌&&◌, ◌==◌, some, List, [], ◌∷◌, ◌++◌, Bytes, bytes,
  drop, take, length, take-append, drop-append, replicate, arith, Bool-cases, if◌then◌else◌,
}
use freenet_git.BTreeMap.Order.{cmp, eqb, eqb→eq}
use freenet_git.Encoding.LittleEndian.{to_le_bytes}
use freenet_git.Outcome.{Result, ok, err, panic}
use freenet_git.Identity.{
  bundle_magic, header, DecryptedBundle, RepoRegistryEntry, Envelope, Libraries, fresh, derive_key,
  from_slice, associated_data, seal, open_bundle, enforce_minimum,
}
use freenet_git.Identity.Seal.{Faithful, open_bundle-seal}
use freenet_git.Identity.Open.{HasHeader, Sound, open_bundle-Sound}
use freenet_git.Identity.Damaged.{open_bundle-damaged_nonce}

-- A bundle is its secret key: bundles with anything else are refused.
abbrev pub only_key : Bytes → DecryptedBundle
only_key k = record { secret_key = k; public_key = []; name = []; email = []; repos = [] }

unfoldable pub encode_fields :
    Bytes → Bytes → Bytes → Bytes → List RepoRegistryEntry → Result Bytes Bytes
encode_fields k [] [] [] [] = ok k
encode_fields k _ _ _ _ = err (bytes "unsupported")

encode_fields-ok :
    (k p n e : Bytes) (r : List RepoRegistryEntry) (m : Bytes)
    → encode_fields k p n e r ≡ ok m
    → only_key m ≡ record { secret_key = k; public_key = p; name = n; email = e; repos = r }
unfolding encode_fields
encode_fields-ok k [] [] [] [] m h = let same : k ≡ m = ground arith in rw same
encode_fields-ok k (x ∷ p) n e r m h = absurd (ground arith)
encode_fields-ok k [] (x ∷ n) e r m h = absurd (ground arith)
encode_fields-ok k [] [] (x ∷ e) r m h = absurd (ground arith)
encode_fields-ok k [] [] [] (x ∷ r) m h = absurd (ground arith)

abbrev pub zero_nonce : Bytes
zero_nonce = replicate 24 0

abbrev pub zero_salt : Bytes
zero_salt = replicate 16 0

-- An envelope is the header, its nonce with the length before it, and its ciphertext, for one set of
-- parameters.
abbrev envelope_of : Bytes → Bytes → Envelope
envelope_of nonce c = record {
  magic = bundle_magic;
  version = 1;
  kdf = record { salt = zero_salt; log_n = 17; r = 8; p = 1 };
  nonce = nonce;
  ciphertext = c;
}

unfoldable pub is_canonical : Envelope → Bool
is_canonical e =
    eqb e.magic bundle_magic
    && e.version == 1
    && eqb e.kdf.salt zero_salt
    && e.kdf.log_n == 17
    && e.kdf.r == 8
    && e.kdf.p == 1

is_canonical_lem : (e : Envelope) → is_canonical e ≡ true → envelope_of e.nonce e.ciphertext ≡ e
unfolding is_canonical
is_canonical_lem e h =
    let magic : e.magic ≡ bundle_magic = ground (arith, eqb→eq e.magic bundle_magic) in
    let salt : e.kdf.salt ≡ zero_salt = ground (arith, eqb→eq e.kdf.salt zero_salt) in
    let version : e.version ≡ 1 = ground arith in
    let log_n : e.kdf.log_n ≡ 17 = ground arith in
    let r : e.kdf.r ≡ 8 = ground arith in let p : e.kdf.p ≡ 1 = ground arith in cc

unfoldable pub decode_nonce : Bytes → Envelope
decode_nonce [] = envelope_of [] []
decode_nonce (n ∷ bs) = envelope_of (take n bs) (drop n bs)

abbrev encoded : Envelope → Bytes
encoded e = length e.nonce ∷ e.nonce ++ e.ciphertext

decode_nonce-encoded : (e : Envelope) → is_canonical e ≡ true → decode_nonce (encoded e) ≡ e
unfolding decode_nonce
decode_nonce-encoded e h =
    rw (take-append e.nonce e.ciphertext, drop-append e.nonce e.ciphertext) (is_canonical_lem e h)

unfoldable pub encode_envelope : Envelope → Result Bytes Bytes
encode_envelope e = if is_canonical e then ok (header ++ encoded e) else err (bytes "unsupported")

encode_envelope-ok :
    (e : Envelope) (m : Bytes)
    → encode_envelope e ≡ ok m
    → (is_canonical e ≡ true) × (m ≡ header ++ encoded e)
unfolding encode_envelope
encode_envelope-ok e m h = elim (Bool-cases (is_canonical e)) [
  | inl good ↦ (good, ground arith)
  | inr bad ↦ absurd (ground arith)
]

-- No encryption at all.
abbrev pub test_libraries : Libraries
test_libraries = record {
  serialize_kdf = λ k. ok [];
  serialize_bundle = λ b. encode_fields b.secret_key b.public_key b.name b.email b.repos;
  deserialize_bundle = λ m. ok (only_key m);
  serialize_envelope = encode_envelope;
  deserialize_envelope = λ m. ok (decode_nonce (drop 12 m));
  scrypt_params = λ n r p. ok (tt {0});
  scrypt = λ n r p passphrase salt. ok (replicate 32 1);
  encrypt = λ key nonce msg aad. some msg;
  decrypt = λ key nonce c aad. some c;
}

pub test_libraries-Faithful : Faithful test_libraries
unfolding to_le_bytes
test_libraries-Faithful = record {
  bundle = λ b m h. ap ok (encode_fields-ok b.secret_key b.public_key b.name b.email b.repos m h);
  envelope = λ e m h.
      let (good, same) = encode_envelope-ok e m h in rw same (ap ok (decode_nonce-encoded e good));
  layout = λ e m h.
      let (good, same) = encode_envelope-ok e m h in
      let whole = is_canonical_lem e good in
      (encoded e, same ∙ ap (λ x. x.magic ++ to_le_bytes 4 x.version ++ encoded e) whole);
  cipher = λ key nonce msg aad c h. ground arith;
}

abbrev sealed : Bytes
sealed = header ++ 24 ∷ zero_nonce ++ bytes "secret"

seal_run :
    seal test_libraries zero_salt zero_nonce (only_key (bytes "secret")) (bytes "pass") ≡ ok sealed
unfolding seal derive_key enforce_minimum fresh from_slice associated_data encode_fields
    encode_envelope is_canonical eqb cmp
seal_run = refl

open_bundle-seal_example :
    open_bundle test_libraries sealed (bytes "pass") ≡ ok (only_key (bytes "secret"))
open_bundle-seal_example =
    open_bundle-seal test_libraries zero_salt zero_nonce (only_key (bytes "secret")) (bytes "pass")
      sealed test_libraries-Faithful seal_run

open_bundle-Sound_example :
    HasHeader sealed
    × ((envelope : Envelope) × (test_libraries.deserialize_envelope sealed ≡ ok envelope)
        × Sound envelope (bytes "pass"))
open_bundle-Sound_example =
    open_bundle-Sound test_libraries sealed (bytes "pass") (only_key (bytes "secret"))
      open_bundle-seal_example

-- The sealed bundle with a nonce of one byte.
abbrev damaged : Bytes
damaged = header ++ 1 ∷ 7 ∷ bytes "secret"

damaged_run : test_libraries.serialize_envelope (envelope_of (7 ∷ []) (bytes "secret")) ≡ ok damaged
unfolding encode_envelope is_canonical eqb cmp
damaged_run = refl

sealed_run :
    test_libraries.deserialize_envelope sealed ≡ ok (envelope_of zero_nonce (bytes "secret"))
unfolding decode_nonce
sealed_run = refl

open_bundle-damaged_nonce_example : open_bundle test_libraries damaged [] ≡ panic
open_bundle-damaged_nonce_example =
    open_bundle-damaged_nonce test_libraries zero_salt zero_nonce (only_key (bytes "secret"))
      (bytes "pass") sealed (envelope_of zero_nonce (bytes "secret")) (7 ∷ []) damaged []
      test_libraries-Faithful seal_run sealed_run (λ e. omega arith) damaged_run (inr refl)
