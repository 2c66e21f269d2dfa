-- ===== src/Chunked/Manifest.antt =====
-- A manifest made from a split pack is valid, and a valid manifest's sizes add up.
use freenet_git.Prelude.{
  ℕ, suc, ◌+◌, ◌-◌, ◌*◌, ◌%◌, ◌^◌, ◌≤◌, ◌<◌, ◌≡◌, ◌≢◌, ◌↔◌, refl, sym, ap, arith, Bytes, List,
}
use freenet_git.Prelude.{length, map, length-map, ltb, lt→ltb, ltb→lt, ltb→ge, Bool-cases, inl, inr}
use freenet_git.Crypto.{Crypto}
use freenet_git.Outcome.{ok}
use freenet_git.Chunked.{
  ChunkedPackManifestV1, ManifestError, sum, from_chunks, validate, chunk_len, chunks, split_pack,
}
use freenet_git.Chunked.Split.{
  concat, concat-chunks, Sized, chunks-Sized, chunks_nonempty, Sized-sum, sum-length-concat,
  nth_length, nth_length_full, nth_length_last,
}

-- What the rules of the file's header ask of a manifest, for numbers of the Rust types.
pub record IsConsistent (m : ChunkedPackManifestV1) : Type 0 where
  pub version : m.version ≡ 1
  pub some_chunks : 0 < m.chunk_count
  pub some_bytes : 0 < m.chunk_size
  pub counted : m.chunk_count ≡ length m.chunk_hashes
  -- The last chunk is neither too long nor empty.
  pub upper : m.total_size ≤ m.chunk_size * m.chunk_count
  pub lower : m.chunk_size * (m.chunk_count - 1) < m.total_size

pub record HasTypes (m : ChunkedPackManifestV1) : Type 0 where
  pub chunk_size : m.chunk_size < 2 ^ 32
  pub chunk_count : m.chunk_count < 2 ^ 32
  pub total_size : m.total_size < 2 ^ 64

product_fits : (a b : ℕ) → a < 2 ^ 32 → b < 2 ^ 32 → a * b < 2 ^ 64
product_fits a b ha hb = grind arith

-- For a manifest whose numbers fit their types, `validate` accepts exactly the consistent
-- ones; its products never overflow.
pub validate_iff : (m : ChunkedPackManifestV1) → HasTypes m → (validate m ≡ ok tt) ↔ IsConsistent m
unfolding validate
validate_iff m t =
    let up = product_fits m.chunk_size m.chunk_count t.chunk_size t.chunk_count in
    let low = product_fits m.chunk_size (m.chunk_count - 1) t.chunk_size (omega arith) in
    (
      λ h. record {
        version = ground (arith, up, low);
        some_chunks = ground (arith, up, low);
        some_bytes = ground (arith, up, low);
        counted = ground (arith, up, low);
        upper = ground (arith, up, low);
        lower = ground (arith, up, low);
      },
      λ c. ground (arith, up, low, nonzero m.chunk_size m.chunk_count m.total_size),
    )
  where
    nonzero : (a b t : ℕ) → a * (b - 1) < t → t ≢ 0
    nonzero a b t h = λ e. omega arith

-- The manifest that `from_chunks` builds.
abbrev pub manifest_of : Crypto → ℕ → List Bytes → ChunkedPackManifestV1
manifest_of c chunk_size cs = record {
  version = 1;
  chunk_size = chunk_size;
  total_size = sum (map length cs) % 2 ^ 64;
  chunk_count = length cs;
  chunk_hashes = map c.blake3 cs;
}

-- Sizes that the numbers of a manifest can hold.
pub record Storable (size : ℕ) (cs : List Bytes) : Type 0 where
  pub chunk_size : size < 2 ^ 32
  pub chunk_count : length cs < 2 ^ 32
  pub total_size : sum (map length cs) < 2 ^ 64

Sized-chunk_len :
    (c : Crypto) (size : ℕ) (cs : List Bytes) (i : ℕ)
    → Storable size cs
    → Sized size cs
    → i < length cs
    → chunk_len (manifest_of c size cs) i ≡ nth_length cs i
unfolding chunk_len
Sized-chunk_len c size cs i t s h = elim (Bool-cases (ltb (i + 1) (length cs))) [
  | inl more ↦
      let full = nth_length_full size cs i s (ltb→lt (i + 1) (length cs) more) in
      ground (arith, t.chunk_count)
  | inr end ↦
      let e : suc i ≡ length cs = omega (arith, ltb→ge (i + 1) (length cs) end) in
      let last = nth_length_last size cs i s e in
      let p : length cs - 1 ≡ i = omega arith in rw p (ground (arith, t.chunk_count, t.total_size))
]

Sized-IsConsistent :
    (c : Crypto) (size : ℕ) (cs : List Bytes)
    → Storable size cs
    → 0 < size
    → 0 < length cs
    → Sized size cs
    → IsConsistent (manifest_of c size cs)
Sized-IsConsistent c size cs t hs hc s =
    let (low, up) = Sized-sum size cs s hc in
    record {
      version = refl;
      some_chunks = hc;
      some_bytes = hs;
      counted = sym (length-map cs c.blake3);
      upper = omega (arith, t.total_size);
      lower = omega (arith, t.total_size);
    }

-- For a pack that is not empty, a chunk size above 0 and sizes that the manifest's numbers can
-- hold: splitting gives chunks that concatenate to the pack; the manifest built from them is
-- valid and has the pack's size, and its `chunk_len` is the length of each chunk.
pub split_pack-from_chunks :
    (c : Crypto) (pack : Bytes) (chunk_size : ℕ)
    → 0 < length pack
    → 0 < chunk_size
    → Storable chunk_size (chunks (length pack) chunk_size pack)
    → (cs : List Bytes) × (split_pack {E = ManifestError} pack chunk_size ≡ ok cs)
      × (concat cs ≡ pack)
      × (from_chunks {E = ManifestError} c chunk_size cs ≡ ok (manifest_of c chunk_size cs))
      × (validate (manifest_of c chunk_size cs) ≡ ok tt)
      × ((manifest_of c chunk_size cs).total_size ≡ length pack)
      × ((i : ℕ) → i < length cs → chunk_len (manifest_of c chunk_size cs) i ≡ nth_length cs i)
unfolding split_pack from_chunks
split_pack-from_chunks c pack size hp hs t =
    let n = length pack in
    let cs = chunks n size pack in
    let whole = concat-chunks n size pack hs (omega arith) in
    let sized = chunks-Sized n size pack hs (omega arith) in
    let consistent =
      Sized-IsConsistent c size cs t hs (chunks_nonempty n size pack hp (omega arith)) sized in
    let types : HasTypes (manifest_of c size cs) =
      omega (arith, t.chunk_size, t.chunk_count, t.total_size) in
    (
      cs,
      ground arith,
      whole,
      rw (lt→ltb (length cs) (2 ^ 32) t.chunk_count),
      (validate_iff (manifest_of c size cs) types).1 consistent,
      total cs whole t.total_size,
      λ i h. Sized-chunk_len c size cs i t sized h,
    )
  where
    total :
        (cs : List Bytes)
        → concat cs ≡ pack
        → sum (map length cs) < 2 ^ 64
        → sum (map length cs) % 2 ^ 64 ≡ length pack
    total cs whole fits = omega (arith, sum-length-concat cs, ap length whole)
