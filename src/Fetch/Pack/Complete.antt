-- ===== src/Fetch/Pack/Complete.antt =====
-- A pack that is stored in chunks is fetched whole.
use Prim.Native.String.{String}
use freenet_git.Prelude.{
  ℕ, zero, suc, ◌<◌, ◌≡◌, refl, ap₂, ◌∙◌, ◌⊎◌, inl, inr, Bytes, List, [], ◌∷◌, length, map, All,
  some, arith,
}
use freenet_git.Outcome.{Result, ok, ok_injective}
use freenet_git.Crypto.{Crypto}
use freenet_git.Chunked.{
  ChunkedPackManifestV1, ManifestError, chunk_len, chunks, split_pack, from_bytes,
}
use freenet_git.Chunked.Split.{concat, nth_length}
use freenet_git.Chunked.Manifest.{manifest_of, Storable, split_pack-from_chunks}
use freenet_git.Fetch.{assemble_chunks}
use freenet_git.Fetch.Slots.{
  IsChunk, Completes, collect_chunks_into_slots-ok, assemble_chunks-concat,
}
use freenet_git.Fetch.Pack.{PackError, nth, fetch_chunk, fetch_chunked_pack}

-- The `i`-th chunk.
abbrev pub chunk_at : List Bytes → ℕ → Bytes
chunk_at [] i = []
chunk_at (c ∷ cs) zero = c
chunk_at (c ∷ cs) (suc i) = chunk_at cs i

chunk_at-IsChunk : (cs : List Bytes) (i : ℕ) → i < length cs → IsChunk cs (i, chunk_at cs i)
chunk_at-IsChunk [] i h = absurd (omega arith)
chunk_at-IsChunk (c ∷ cs) zero h = refl
chunk_at-IsChunk (c ∷ cs) (suc i) h = chunk_at-IsChunk cs i (omega arith)

nth-map :
    (f : Bytes → Bytes) (cs : List Bytes) (i : ℕ)
    → i < length cs
    → nth (map f cs) i ≡ some (f (chunk_at cs i))
unfolding nth
nth-map f [] i h = absurd (omega arith)
nth-map f (c ∷ cs) zero h = refl
nth-map f (c ∷ cs) (suc i) h = nth-map f cs i (omega arith)

length-chunk_at :
    (cs : List Bytes) (i : ℕ) → i < length cs → length (chunk_at cs i) ≡ nth_length cs i
length-chunk_at [] i h = absurd (omega arith)
length-chunk_at (c ∷ cs) zero h = refl
length-chunk_at (c ∷ cs) (suc i) h = length-chunk_at cs i (omega arith)

-- The chunk is answered for its hash.
abbrev pub Answers : {E : Type 0} → Crypto → (Bytes → Result E Bytes) → Bytes → Type 0
Answers c get_pack chunk = get_pack (c.blake3 chunk) ≡ ok chunk

All-chunk_at :
    (P : Bytes → Type 0) (cs : List Bytes) (i : ℕ) → i < length cs → All P cs → P (chunk_at cs i)
All-chunk_at P [] i l h = absurd (omega arith)
All-chunk_at P (c ∷ cs) zero l h = h.0
All-chunk_at P (c ∷ cs) (suc i) l h = All-chunk_at P cs i (omega arith) h.1

-- The index occurs in the order of completion.
abbrev pub Occurs : ℕ → List ℕ → Type 0
Occurs i [] = ⊥
Occurs i (j ∷ js) = (j ≡ i) ⊎ Occurs i js

module _ {E : Type 0} (get_pack : Bytes → Result E Bytes) (c : Crypto) (size : ℕ)
    (cs : List Bytes) where
  abbrev done : ℕ → ℕ × Bytes
  done i = (i, chunk_at cs i)

  fetch_chunk-ok :
      (i : ℕ)
      → i < length cs
      → All (Answers c get_pack) cs
      → chunk_len (manifest_of c size cs) i ≡ nth_length cs i
      → fetch_chunk get_pack (manifest_of c size cs) i ≡ ok (done i)
  unfolding fetch_chunk
  fetch_chunk-ok i l h e =
      rw (nth-map c.blake3 cs i l, All-chunk_at (Answers c get_pack) cs i l h)
        (ground (arith, e, length-chunk_at cs i l))

  fetch_chunks-ok :
      (order : List ℕ)
      → All (λ i. i < length cs) order
      → All (Answers c get_pack) cs
      → ((i : ℕ) → i < length cs → chunk_len (manifest_of c size cs) i ≡ nth_length cs i)
      → (map (fetch_chunk get_pack (manifest_of c size cs)) order ≡ map ok (map done order))
        × All (IsChunk cs) (map done order)
  fetch_chunks-ok [] l h e = (refl, tt)
  fetch_chunks-ok (i ∷ order) l h e =
      let (p, q) = fetch_chunks-ok order l.1 h e in
      (ap₂ ◌∷◌ (fetch_chunk-ok i l.0 h (e i l.0)) p, (chunk_at-IsChunk cs i l.0, q))

  Completes-Occurs : (j : ℕ) (order : List ℕ) → Occurs j order → Completes j (map done order)
  Completes-Occurs j [] o = absurd o
  Completes-Occurs j (i ∷ order) (inl e) = inl e
  Completes-Occurs j (i ∷ order) (inr o) = inr (Completes-Occurs j order o)

assemble_whole :
    (cs : List Bytes) (pack : Bytes)
    → concat cs ≡ pack
    → assemble_chunks (map some cs) (length pack) ≡ ok pack
assemble_whole cs pack e = assemble_chunks-concat cs (length pack) ∙ rw e (ground arith)

-- If a pack that is not empty was split into chunks whose sizes fit, and the network answers each
-- chunk and the manifest built from them for their hashes, then the fetch with the sizes of the
-- bundle entry gives back the pack, in whatever order the requests of all the chunks complete.
pub fetch_chunked_pack-split_pack :
    {E : Type 0} (get_pack : Bytes → Result E Bytes) (c : Crypto)
    (deserialize : Bytes → Result String ChunkedPackManifestV1)
    (pack manifest_hash manifest_bytes : Bytes) (size parallelism : ℕ) (cs : List Bytes)
    (order : List ℕ)
    → 0 < length pack
    → 0 < size
    → 0 < parallelism
    → Storable size (chunks (length pack) size pack)
    → split_pack {E = ManifestError} pack size ≡ ok cs
    → All (Answers c get_pack) cs
    → get_pack manifest_hash ≡ ok manifest_bytes
    → deserialize manifest_bytes ≡ ok (manifest_of c size cs)
    → All (λ i. i < length cs) order
    → ((j : ℕ) → j < length cs → Occurs j order)
    → fetch_chunked_pack get_pack deserialize manifest_hash
        (length pack)
        (length cs)
        parallelism
        order
      ≡ ok pack
unfolding fetch_chunked_pack from_bytes
fetch_chunked_pack-split_pack {E} get_pack c deserialize pack mh mb size par cs order hp hs hpar st
      sp ans hm hd lt occ =
    let (ds, sd, whole, built, valid, total, lens) = split_pack-from_chunks c pack size hp hs st in
    let same = ok_injective ds cs _ sd sp in
    let whole = rw same at whole in
    let valid = rw same at valid in
    let total = rw same at total in
    let lens = rw same at lens in
    let (tasks, are) = fetch_chunks-ok get_pack c size cs order lt ans lens in
    let slots =
      collect_chunks_into_slots-ok {E = PackError E} cs (map (done get_pack c size cs) order) are
        (λ j l. Completes-Occurs get_pack c size cs j order (occ j l)) in
    rw (hm, hd, valid, tasks, slots, total, assemble_whole cs pack whole) (ground arith)
