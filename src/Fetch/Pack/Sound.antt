-- ===== src/Fetch/Pack/Sound.antt =====
-- What is fetched is what the manifest names, whatever the network answers.
use Prim.Native.String.{String}
use mathlib.Core.List.{append_assoc, append-nil}
use freenet_git.Prelude.{
  ℕ, zero, suc, ◌+◌, ◌≡◌, refl, sym, ap, ap₂, ◌∙◌, Bytes, List, [], ◌∷◌, ◌++◌, length, map,
  replicate, All, Option, none, some, ◌==◌, not, Bool, true, false, if◌then◌else◌, arith,
}
use freenet_git.Outcome.{Result, ok, err, ◌>>=◌, map_err, expect, >>=-ok, map_err-ok, ok_injective}
use freenet_git.Crypto.{Crypto}
use freenet_git.Chunked.{decode, ChunkedPackManifestV1, chunk_len, from_bytes, validate}
use freenet_git.Chunked.Split.{concat}
use freenet_git.Fetch.{
  FetchError, set_slot, drain, collect_chunks_into_slots, assemble_from, assemble_chunks,
}
use freenet_git.Fetch.Pack.{
  PackError, zero_parallelism, total_size_disagrees, chunk_count_disagrees, get_chunk, get_manifest,
  decode_manifest, assembly, nth, fetch_chunk, fetch_chunked_pack,
}

expect-ok : {E A : Type 0} (o : Option A) (a : A) → expect {E = E} o ≡ ok a → o ≡ some a
expect-ok none a h = absurd (ground arith)
expect-ok (some b) a h = ground arith

some_injective : {A : Type 0} (a b : A) (o : Option A) → o ≡ some a → o ≡ some b → a ≡ b
some_injective a b o h g = ground arith

-- A slot further back was set.
set_behind :
    (s : Option Bytes) (o : Option (List (Option Bytes))) (ts : List (Option Bytes))
    → (elim o [ none ↦ none | some rest ↦ some (s ∷ rest) ]) ≡ some ts
    → (rest : List (Option Bytes)) × (o ≡ some rest) × (s ∷ rest ≡ ts)
set_behind s none ts e = absurd (ground arith)
set_behind s (some rest) ts e = (rest, refl, some_injective (s ∷ rest) ts _ refl e)

module _ (c : Crypto) where
  -- Each slot is free or holds bytes of its hash.
  abbrev pub Held : List Bytes → List (Option Bytes) → Type 0
  Held [] [] = Unit
  Held (h ∷ hs) (none ∷ ss) = Held hs ss
  Held (h ∷ hs) (some x ∷ ss) = (c.blake3 x ≡ h) × Held hs ss
  Held hs ss = ⊥

  set_slot-Held :
      (hs : List Bytes) (ss : List (Option Bytes)) (i : ℕ) (x : Bytes) (ts : List (Option Bytes))
      → Held hs ss
      → nth hs i ≡ some (c.blake3 x)
      → set_slot i x ss ≡ some ts
      → Held hs ts
  unfolding set_slot nth
  set_slot-Held [] ss i x ts k n e = absurd (ground arith)
  set_slot-Held (h ∷ hs) [] i x ts k n e = absurd k
  set_slot-Held (h ∷ hs) (none ∷ ss) zero x ts k n e =
      rw (sym (some_injective (some x ∷ ss) ts _ refl e))
        (some_injective (c.blake3 x) h _ n refl, k)
  set_slot-Held (h ∷ hs) (some y ∷ ss) zero x ts k n e =
      rw (sym (some_injective (some x ∷ ss) ts _ refl e))
        (some_injective (c.blake3 x) h _ n refl, k.1)
  set_slot-Held (h ∷ hs) (none ∷ ss) (suc i) x ts k n e =
      let (rest, e, q) = set_behind none (set_slot i x ss) ts e in
      rw (sym q) (set_slot-Held hs ss i x rest k n e)
  set_slot-Held (h ∷ hs) (some y ∷ ss) (suc i) x ts k n e =
      let (rest, e, q) = set_behind (some y) (set_slot i x ss) ts e in
      rw (sym q) (k.0, set_slot-Held hs ss i x rest k.1 n e)

  -- A task that completes brings bytes of the hash at its index.
  abbrev pub Genuine : {E : Type 0} → List Bytes → Result E (ℕ × Bytes) → Type 0
  Genuine hs r = (i : ℕ) (x : Bytes) → r ≡ ok (i, x) → nth hs i ≡ some (c.blake3 x)

  drain-Held :
      {E : Type 0} (hs : List Bytes) (tasks : List (Result E (ℕ × Bytes)))
      (ss out : List (Option Bytes))
      → Held hs ss
      → All (Genuine hs) tasks
      → drain tasks ss ≡ ok out
      → Held hs out
  unfolding drain
  drain-Held hs [] ss out k g e = rw (sym (ok_injective ss out _ refl e)) k
  drain-Held hs (r ∷ tasks) ss out k g e =
      let (p, er, e) = >>=-ok r _ out e in
      let (ts, es, e) = >>=-ok (expect (set_slot p.0 p.1 ss)) _ out e in
      drain-Held hs tasks ts out
        (set_slot-Held hs ss p.0 p.1 ts k (g.0 p.0 p.1 er) (expect-ok (set_slot p.0 p.1 ss) ts es))
        g.1 e

  no_slots : (hs : List Bytes) → Held hs (replicate (length hs) none)
  no_slots [] = tt
  no_slots (h ∷ hs) = no_slots hs

  -- The bytes that were put together.
  abbrev pub Assembled : List Bytes → Bytes → Type 0
  Assembled hs out = (cs : List Bytes) × (map c.blake3 cs ≡ hs) × (concat cs ≡ out)

  assemble_from-Assembled :
      (i : ℕ) (hs : List Bytes) (ss : List (Option Bytes)) (before out : Bytes)
      → Held hs ss
      → assemble_from i ss before ≡ ok out
      → (cs : List Bytes) × (map c.blake3 cs ≡ hs) × (before ++ concat cs ≡ out)
  unfolding assemble_from
  assemble_from-Assembled i [] [] before out k e =
      ([], refl, append-nil before ∙ ok_injective before out _ refl e)
  assemble_from-Assembled i [] (s ∷ ss) before out k e = absurd k
  assemble_from-Assembled i (h ∷ hs) [] before out k e = absurd k
  assemble_from-Assembled i (h ∷ hs) (none ∷ ss) before out k e = absurd (ground arith)
  assemble_from-Assembled i (h ∷ hs) (some x ∷ ss) before out k e =
      let (cs, m, o) = assemble_from-Assembled (i + 1) hs ss (before ++ x) out k.1 e in
      (x ∷ cs, ap₂ ◌∷◌ k.0 m, sym (append_assoc before x (concat cs)) ∙ o)

  module _ {E : Type 0} (get_pack : Bytes → Result E Bytes)
      (genuine : (h x : Bytes) → get_pack h ≡ ok x → c.blake3 x ≡ h) where
    checked_length :
        (a b : ℕ) (p q : ℕ × Bytes) (r : PackError E)
        → (if a == b then ok p else err r) ≡ ok q
        → p ≡ q
    checked_length a b p q r h = ground arith

    fetch_chunk-Genuine :
        (m : ChunkedPackManifestV1) (i : ℕ) → Genuine m.chunk_hashes (fetch_chunk get_pack m i)
    unfolding fetch_chunk
    fetch_chunk-Genuine m i j y e =
        let (h, eh, e) = >>=-ok (expect (nth m.chunk_hashes i)) _ (j, y) e in
        let (x, ex, e) = >>=-ok (map_err (get_chunk i) (get_pack h)) _ (j, y) e in
        let same = checked_length (length x) (chunk_len m i) (i, x) (j, y) _ e in
        rw (sym (ap (λ p. p.0) same), sym (ap (λ p. p.1) same))
          (expect-ok (nth m.chunk_hashes i) h eh
            ∙ ap some (sym (genuine h x (map_err-ok _ _ x ex))))

    fetch_chunks-Genuine :
        (m : ChunkedPackManifestV1) (order : List ℕ)
        → All (Genuine m.chunk_hashes) (map (fetch_chunk get_pack m) order)
    fetch_chunks-Genuine m [] = tt
    fetch_chunks-Genuine m (i ∷ order) = (fetch_chunk-Genuine m i, fetch_chunks-Genuine m order)

    collected :
        (m : ChunkedPackManifestV1) (order : List ℕ) (slots : List (Option Bytes))
        → m.chunk_count ≡ length m.chunk_hashes
        → collect_chunks_into_slots (map (fetch_chunk get_pack m) order) m.chunk_count ≡ ok slots
        → Held m.chunk_hashes slots
    unfolding collect_chunks_into_slots
    collected m order slots n e =
        drain-Held m.chunk_hashes (map (fetch_chunk get_pack m) order)
          (replicate m.chunk_count none) slots (rw n (no_slots m.chunk_hashes))
          (fetch_chunks-Genuine m order) e

    validate-counted :
        (m : ChunkedPackManifestV1) → validate m ≡ ok tt → m.chunk_count ≡ length m.chunk_hashes
    unfolding validate
    validate-counted m v = ground arith

    from_bytes-valid :
        (deserialize : Bytes → Result String ChunkedPackManifestV1) (bs : Bytes)
        (m : ChunkedPackManifestV1)
        → from_bytes deserialize bs ≡ ok m
        → validate m ≡ ok tt
    unfolding from_bytes
    from_bytes-valid deserialize bs m e =
        let (n, en, e) = >>=-ok (map_err decode (deserialize bs)) _ m e in
        let (t, v, e) = >>=-ok (validate n) _ m e in rw (sym (ok_injective n m _ refl e)) v

    whole :
        (a out : Bytes) (total : ℕ) (r : FetchError)
        → (if length a == total then ok a else err r) ≡ ok out
        → (a ≡ out) × (length out ≡ total)
    whole a out total r h = ground arith

    guarded :
        (b : Bool) (r : PackError E) (k : Result (PackError E) Bytes) (out : Bytes)
        → ((if b then err r else ok (tt {0})) >>= λ _. k) ≡ ok out
        → (b ≡ false) × (k ≡ ok out)
    guarded true r k out h = absurd (ground arith)
    guarded false r k out h = (refl, h)

    -- If the network only ever gives bytes of the hash asked for, then whatever it answers and in
    -- whatever order: bytes that the fetch returns are chunks with the hashes of a valid manifest, one
    -- behind the other, and have the total size that the bundle entry says.
    pub fetch_chunked_pack-Assembled :
        (deserialize : Bytes → Result String ChunkedPackManifestV1) (manifest_hash : Bytes)
        (total count parallelism : ℕ) (order : List ℕ) (out : Bytes)
        → fetch_chunked_pack get_pack deserialize manifest_hash total count parallelism order
          ≡ ok out
        → (bs : Bytes) × (m : ChunkedPackManifestV1) × (c.blake3 bs ≡ manifest_hash)
          × (from_bytes deserialize bs ≡ ok m)
          × (m.chunk_count ≡ count)
          × Assembled m.chunk_hashes out
          × (length out ≡ total)
    unfolding fetch_chunked_pack assemble_chunks
    fetch_chunked_pack-Assembled deserialize mh total count par order out e =
        let (e1, e) = guarded (par == 0) zero_parallelism _ out e in
        let (bs, eb, e) = >>=-ok (map_err get_manifest (get_pack mh)) _ out e in
        let (m, em, e) = >>=-ok (map_err decode_manifest (from_bytes deserialize bs)) _ out e in
        let (et, e) =
          guarded (not (m.total_size == total)) (total_size_disagrees total m.total_size) _ out e in
        let (ec, e) =
          guarded (not (m.chunk_count == count)) (chunk_count_disagrees count m.chunk_count) _ out
            e in
        let (slots, es, e) =
          >>=-ok (collect_chunks_into_slots (map (fetch_chunk get_pack m) order) m.chunk_count) _
            out e in
        let asm = map_err-ok assembly (assemble_chunks slots m.total_size) out e in
        let (a, ea, e) = >>=-ok (assemble_from 0 slots []) _ out asm in
        let (ao, lo) = whole a out m.total_size _ e in
        let counted =
          validate-counted m (from_bytes-valid deserialize bs m (map_err-ok _ _ m em)) in
        let (cs, hashes, o) =
          assemble_from-Assembled 0 m.chunk_hashes slots [] a (collected m order slots counted es)
            ea in
        (
          bs,
          m,
          genuine mh bs (map_err-ok _ _ bs eb),
          map_err-ok _ _ m em,
          ground (arith, ec),
          (cs, hashes, o ∙ ao),
          lo ∙ ground (arith, et),
        )
