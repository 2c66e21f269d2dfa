-- ===== src/Tests/CodecTests.antt =====
-- The theorems on encodings, manifests and keys, at concrete values.
use freenet_git.Prelude.{
  ℕ, zero, suc, ◌<◌, ◌≡◌, refl, ◌↔◌, arith, All, some, List, [], ◌∷◌, ◌++◌, Bytes, bytes, length,
  replicate,
}
use freenet_git.Outcome.{ok}
use freenet_git.Encoding.LittleEndian.{to_le_bytes}
use freenet_git.Encoding.Signed.{build, new, field_bytes, domain}
use freenet_git.Encoding.Signed.Fields.{fields, put_fields}
use freenet_git.Encoding.Canonical.{Value, uint, text, array, nil, cons}
use freenet_git.Encoding.Canonical.PrefixFree.{IsWf, IsWfItems, encode-prefix_free}
use freenet_git.Chunked.{
  ChunkedPackManifestV1, ManifestError, chunks, split_pack, from_chunks, validate, chunk_len,
}
use freenet_git.Chunked.Split.{concat, nth_length}
use freenet_git.Chunked.Manifest.{
  IsConsistent, HasTypes, Storable, manifest_of, validate_iff, split_pack-from_chunks,
}
use freenet_git.Signing.TipKeys.{
  bundle_tip_extension_prefix, parse_bundle_tip_extension_key, plus_bytes, parse_takes_plus,
}
use freenet_git.Repo.State.{ExtensionEntry}
use freenet_git.Repo.Validate.Authorized.{ExtensionOk}
use freenet_git.Signing.{domain_key, sign_bundle_tip_extension}
use freenet_git.Signing.Tips.{sign_bundle_tip_extension_ok}
use freenet_git.Url.{label_of, parse, format_with_label, format_git_url_with_label}
use freenet_git.Url.RoundTrip.{IsUrlPrefix, parse-format_with_label}
use freenet_git.Tests.{test_crypto, test_crypto-SignsVerify, length-blake3, owner, params}

abbrev some_value : Value
some_value = array (cons (uint 300) (cons (text (bytes "ref")) nil))

some_value-IsWf : IsWf some_value
unfolding IsWf IsWfItems
some_value-IsWf = (omega arith, (omega arith, (omega arith, tt)))

encode-prefix_free_example : (some_value ≡ some_value) × (bytes "x" ≡ bytes "x")
encode-prefix_free_example =
    encode-prefix_free some_value some_value (bytes "x") (bytes "x") some_value-IsWf some_value-IsWf
      refl

abbrev two_fields : List Bytes
two_fields = bytes "abc" ∷ [] ∷ []

two_fields_built :
    build (bytes "name") (put_fields two_fields)
    ≡ some (fields (domain (bytes "name") ∷ two_fields))
unfolding build new put_fields field_bytes to_le_bytes fields
two_fields_built = refl

abbrev five : Bytes
five = bytes "abcde"

abbrev five_manifest : ChunkedPackManifestV1
five_manifest = manifest_of test_crypto 2 (chunks 5 2 five)

five-Storable : Storable 2 (chunks (length five) 2 five)
unfolding chunks
five-Storable = record {
  chunk_size = omega arith;
  chunk_count = omega arith;
  total_size = omega arith;
}

five_types : HasTypes (manifest_of test_crypto 2 (bytes "ab" ∷ bytes "cd" ∷ bytes "e" ∷ []))
five_types = record {
  chunk_size = omega arith;
  chunk_count = omega arith;
  total_size = omega arith;
}

validate_iff_example :
    (validate (manifest_of test_crypto 2 (bytes "ab" ∷ bytes "cd" ∷ bytes "e" ∷ [])) ≡ ok tt)
    ↔ IsConsistent (manifest_of test_crypto 2 (bytes "ab" ∷ bytes "cd" ∷ bytes "e" ∷ []))
validate_iff_example =
    validate_iff (manifest_of test_crypto 2 (bytes "ab" ∷ bytes "cd" ∷ bytes "e" ∷ [])) five_types

split_pack-from_chunks_example :
    (cs : List Bytes) × (split_pack {E = ManifestError} five 2 ≡ ok cs)
    × (concat cs ≡ five)
    × (from_chunks {E = ManifestError} test_crypto 2 cs ≡ ok (manifest_of test_crypto 2 cs))
    × (validate (manifest_of test_crypto 2 cs) ≡ ok tt)
    × ((manifest_of test_crypto 2 cs).total_size ≡ length five)
    × ((i : ℕ) → i < length cs → chunk_len (manifest_of test_crypto 2 cs) i ≡ nth_length cs i)
split_pack-from_chunks_example =
    split_pack-from_chunks test_crypto five 2 (omega arith) (omega arith) five-Storable

small_bytes : (n : ℕ) → All (λ b. b < 16) (replicate n 10)
small_bytes zero = tt
small_bytes (suc n) = (omega arith, small_bytes n)

bytes_256 : (n : ℕ) → All (λ b. b < 256) (replicate n 171)
bytes_256 zero = tt
bytes_256 (suc n) = (omega arith, bytes_256 n)

parse_takes_plus_example :
    parse_bundle_tip_extension_key (bundle_tip_extension_prefix ++ plus_bytes (replicate 32 10))
    ≡ some (replicate 32 10)
parse_takes_plus_example = parse_takes_plus (replicate 32 10) refl (small_bytes 32)

url_prefix : IsUrlPrefix test_crypto (bytes "RtTzy58h")
url_prefix = record {
  long_enough = omega arith;
  short_enough = omega arith;
  base58 = (bytes "RtTzy58h", refl);
  alphabet = (ground arith);
}

parse-format_with_label_example :
    (parse test_crypto (format_with_label (bytes "RtTzy58h") (some (bytes "a/b")))
      ≡ ok (record { prefix = bytes "RtTzy58h"; label = some (bytes "a/b") }))
    × (parse test_crypto (format_git_url_with_label (bytes "RtTzy58h") (some (bytes "a/b")))
        ≡ ok (record { prefix = bytes "RtTzy58h"; label = some (bytes "a/b") }))
unfolding label_of
parse-format_with_label_example =
    parse-format_with_label test_crypto (bytes "RtTzy58h") (some (bytes "a/b")) url_prefix

sign_bundle_tip_extension_ok_example :
    (k : Bytes) × (e : ExtensionEntry) × (sign_bundle_tip_extension test_crypto params owner
        (replicate 32 171)
        (replicate 20 5)
        0
      ≡ some (k, e))
    × ExtensionOk test_crypto (domain_key test_crypto params owner) owner k e
    × (parse_bundle_tip_extension_key k ≡ some (replicate 32 171))
sign_bundle_tip_extension_ok_example =
    sign_bundle_tip_extension_ok test_crypto test_crypto-SignsVerify owner params length-blake3
      (replicate 32 171) (replicate 20 5) 0 refl (bytes_256 32) refl
