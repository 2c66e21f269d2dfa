-- ===== src/Tests/FetchTests.antt =====
-- The theorems on fetching, at concrete values.
use Prim.Native.String.{String}
use freenet_git.Prelude.{
  ℕ, zero, suc, ◌<◌, ◌≡◌, refl, ◌⊎◌, ◌≢◌, inl, inr, arith, All, none, some, List, [], ◌∷◌, Bytes,
  bytes, length, if◌then◌else◌,
}
use freenet_git.BTreeMap.Order.{cmp, eqb}
use freenet_git.Outcome.{Result, ok, err}
use freenet_git.Fetch.{fetch_checked, get_pack_with_fetcher}
use freenet_git.Fetch.Slots.{Completes}
use freenet_git.Fetch.Pack.Sound.{Assembled, fetch_chunked_pack-Assembled}
use freenet_git.BTreeMap.Order.{eqb→eq}
use freenet_git.Prelude.{Bool-cases, sym}
use freenet_git.Outcome.{ok_injective}
use freenet_git.Chunked.{ChunkedPackManifestV1, from_bytes, ManifestError, split_pack, chunks}
use freenet_git.Chunked.Manifest.{manifest_of, Storable}
use freenet_git.Fetch.Pack.{fetch_chunked_pack}
use freenet_git.Fetch.Pack.Complete.{Answers, Occurs, fetch_chunked_pack-split_pack}
use freenet_git.Fetch.Cache.{get_pack_with_fetcher-hash}
use freenet_git.Tests.{test_crypto}

abbrev pack_key : Bytes
pack_key = test_crypto.blake3 (bytes "pack")

-- Chunks that complete out of order, one of them twice.
abbrev three : List Bytes
three = bytes "ab" ∷ bytes "cd" ∷ bytes "e" ∷ []

abbrev completions : List (ℕ × Bytes)
completions = (2, bytes "e") ∷ (0, bytes "ab") ∷ (2, bytes "e") ∷ (1, bytes "cd") ∷ []

all_complete : (j : ℕ) → j < length three → Completes j completions
all_complete zero h = inr (inl refl)
all_complete (suc zero) h = inr (inr (inr (inl refl)))
all_complete (suc (suc zero)) h = inl refl
all_complete (suc (suc (suc j))) h = absurd (omega arith)

-- A cache that holds other bytes than it should is passed over.
passed_over :
    get_pack_with_fetcher {E = ℕ} test_crypto
      (some (some (bytes "bad")))
      pack_key
      (ok (bytes "pack"))
    ≡ ok (bytes "pack", some (bytes "pack"))
unfolding get_pack_with_fetcher fetch_checked eqb cmp
passed_over = refl

get_pack_with_fetcher-hash_example :
    (test_crypto.blake3 (bytes "pack") ≡ pack_key)
    × ((some (bytes "pack") ≡ none)
        ⊎ ((some (bytes "pack") ≡ some (bytes "pack")) × (some (some (bytes "bad")) ≢ none)))
get_pack_with_fetcher-hash_example =
    get_pack_with_fetcher-hash {E = ℕ} test_crypto (some (some (bytes "bad"))) pack_key
      (ok (bytes "pack")) (bytes "pack") (some (bytes "pack")) passed_over

-- A network that holds three chunks and their manifest.
abbrev three_manifest : Bytes
three_manifest = test_crypto.blake3 (bytes "m")

abbrev network : Bytes → Result String Bytes
network h =
    if eqb h (test_crypto.blake3 (bytes "ab"))
    then ok (bytes "ab")
    else if eqb h (test_crypto.blake3 (bytes "cd"))
    then ok (bytes "cd")
    else if eqb h (test_crypto.blake3 (bytes "e"))
    then ok (bytes "e")
    else if eqb h three_manifest
    then ok (bytes "m")
    else err "missing"

three_split : split_pack {E = ManifestError} (bytes "abcde") 2 ≡ ok three
unfolding split_pack chunks
three_split = refl

three-Storable : Storable 2 (chunks 5 2 (bytes "abcde"))
unfolding chunks
three-Storable = record {
  chunk_size = omega arith;
  chunk_count = omega arith;
  total_size = omega arith;
}

three_answered : All (Answers test_crypto network) three
unfolding eqb cmp
three_answered = (refl, (refl, (refl, tt)))

manifest_answered : network three_manifest ≡ ok (bytes "m")
unfolding eqb cmp
manifest_answered = refl

all_occur : (j : ℕ) → j < 3 → Occurs j (2 ∷ 0 ∷ 1 ∷ [])
all_occur zero h = inr (inl refl)
all_occur (suc zero) h = inr (inr (inl refl))
all_occur (suc (suc zero)) h = inl refl
all_occur (suc (suc (suc j))) h = absurd (omega arith)

fetched :
    fetch_chunked_pack network
      (λ x. ok (manifest_of test_crypto 2 three))
      three_manifest
      5
      3
      4
      (2 ∷ 0 ∷ 1 ∷ [])
    ≡ ok (bytes "abcde")
fetched =
    fetch_chunked_pack-split_pack network test_crypto (λ x. ok (manifest_of test_crypto 2 three))
      (bytes "abcde") three_manifest (bytes "m") 2 4 three (2 ∷ 0 ∷ 1 ∷ []) (omega arith)
      (omega arith) (omega arith) three-Storable three_split three_answered manifest_answered refl
      (omega arith, (omega arith, (omega arith, tt))) all_occur

fetch_chunked_pack-split_pack_example :
    fetch_chunked_pack network
      (λ x. ok (manifest_of test_crypto 2 three))
      three_manifest
      5
      3
      4
      (2 ∷ 0 ∷ 1 ∷ [])
    ≡ ok (bytes "abcde")
fetch_chunked_pack-split_pack_example =
    fetch_chunked_pack-split_pack network test_crypto (λ x. ok (manifest_of test_crypto 2 three))
      (bytes "abcde") three_manifest (bytes "m") 2 4 three (2 ∷ 0 ∷ 1 ∷ []) (omega arith)
      (omega arith) (omega arith) three-Storable three_split three_answered manifest_answered refl
      (omega arith, (omega arith, (omega arith, tt))) all_occur

-- One answer of the network, and the rest of them.
answer :
    (d h x : Bytes) (rest : Result String Bytes)
    → (if eqb h (test_crypto.blake3 d) then ok d else rest) ≡ ok x
    → (test_crypto.blake3 x ≡ h) ⊎ (rest ≡ ok x)
answer d h x rest e = elim (Bool-cases (eqb h (test_crypto.blake3 d))) [
  | inl t ↦
      let same = ok_injective d x _ refl (rw t at e) in
      inl (rw (sym same) (sym (eqb→eq h (test_crypto.blake3 d) t)))
  | inr f ↦ inr (rw f at e)
]

never :
    (h x : Bytes) (m : Result String Bytes) (t : String)
    → m ≡ err t
    → m ≡ ok x
    → test_crypto.blake3 x ≡ h
never h x m t f e = absurd (ground arith)

genuine : (h x : Bytes) → network h ≡ ok x → test_crypto.blake3 x ≡ h
genuine h x e = elim (answer (bytes "ab") h x _ e) [
  | inl g ↦ g
  | inr e ↦ elim (answer (bytes "cd") h x _ e) [
    | inl g ↦ g
    | inr e ↦ elim (answer (bytes "e") h x _ e) [
      | inl g ↦ g
      | inr e ↦ elim (answer (bytes "m") h x _ e) [
        | inl g ↦ g
        | inr e ↦ never h x _ "missing" refl e
      ]
    ]
  ]
]

fetch_chunked_pack-Assembled_example :
    (bs : Bytes) × (m : ChunkedPackManifestV1) × (test_crypto.blake3 bs ≡ three_manifest)
    × (from_bytes (λ x. ok (manifest_of test_crypto 2 three)) bs ≡ ok m)
    × (m.chunk_count ≡ 3)
    × Assembled test_crypto m.chunk_hashes (bytes "abcde")
    × (length (bytes "abcde") ≡ 5)
fetch_chunked_pack-Assembled_example =
    fetch_chunked_pack-Assembled test_crypto network genuine
      (λ x. ok (manifest_of test_crypto 2 three)) three_manifest 5 3 4 (2 ∷ 0 ∷ 1 ∷ [])
      (bytes "abcde") fetched
