-- ===== src/Encoding/Canonical/PrefixFree.antt =====
-- The canonical encoding is prefix free: the bytes determine the value and what follows it.
use freenet_git.Prelude.{ℕ, ◌^◌, ◌<◌, ◌≡◌, refl, ap, sym, ◌∙◌, arith}
use freenet_git.Prelude.{Bytes, length, [], ◌++◌}
use freenet_git.Encoding.LittleEndian.{append_split}
use freenet_git.Encoding.Canonical.{
  Value, uint, byte_string, text, array, map, Items, nil, cons, Entries, end, entry, write_uint,
  count_items, count_entries, encode, encode_items, encode_entries,
}
use freenet_git.Encoding.Canonical.Head.{read_uint, read_uint-write_uint}
use mathlib.Core.List.{append_assoc}

-- A value that a `Value` can hold: numbers and lengths below 2^64, and map keys that are encoded
-- texts, as `text_entry` makes them.
unfoldable mutual
  pub IsWf : Value → Type 0
  IsWf (uint v) = v < 2 ^ 64
  IsWf (byte_string b) = length b < 2 ^ 64
  IsWf (text s) = length s < 2 ^ 64
  IsWf (array vs) = (count_items vs < 2 ^ 64) × IsWfItems vs
  IsWf (map es) = (count_entries es < 2 ^ 64) × IsWfEntries es

  pub IsWfItems : Items → Type 0
  IsWfItems nil = Unit
  IsWfItems (cons v vs) = IsWf v × IsWfItems vs

  pub IsWfEntries : Entries → Type 0
  IsWfEntries end = Unit
  IsWfEntries (entry k v es) =
      ((t : Bytes) × (k ≡ encode (text t)) × (length t < 2 ^ 64)) × IsWf v × IsWfEntries es

major : Value → ℕ
major (uint v) = 0
major (byte_string b) = 2
major (text s) = 3
major (array vs) = 4
major (map es) = 5

number : Value → ℕ
number (uint v) = v
number (byte_string b) = length b
number (text s) = length s
number (array vs) = count_items vs
number (map es) = count_entries es

body : Value → Bytes
body (uint v) = []
body (byte_string b) = b
body (text s) = s
body (array vs) = encode_items vs
body (map es) = encode_entries es

split_head :
    (v : Value) (r : Bytes) → encode v ++ r ≡ write_uint (major v) (number v) ++ (body v ++ r)
unfolding encode major number body
split_head (uint v) r = refl
split_head (byte_string b) r = append_assoc (write_uint 2 (length b)) b r
split_head (text s) r = append_assoc (write_uint 3 (length s)) s r
split_head (array vs) r = append_assoc (write_uint 4 (count_items vs)) (encode_items vs) r
split_head (map es) r = append_assoc (write_uint 5 (count_entries es)) (encode_entries es) r

head_fits : (v : Value) → IsWf v → (major v < 8) × (number v < 2 ^ 64)
unfolding IsWf major number
head_fits (uint v) h = (omega arith, h)
head_fits (byte_string b) h = (omega arith, h)
head_fits (text s) h = (omega arith, h)
head_fits (array vs) h = (omega arith, h.0)
head_fits (map es) h = (omega arith, h.0)

-- Equal bytes have equal heads and equal bytes behind them.
same_head :
    (a b : Value) (r s : Bytes)
    → IsWf a
    → IsWf b
    → encode a ++ r ≡ encode b ++ s
    → (major a ≡ major b) × (number a ≡ number b) × (body a ++ r ≡ body b ++ s)
same_head a b r s ha hb e =
    let (ma, na) = head_fits a ha in
    let (mb, nb) = head_fits b hb in
    let w : write_uint (major a) (number a) ++ (body a ++ r)
        ≡ write_uint (major b) (number b) ++ (body b ++ s) =
      sym (split_head a r) ∙ e ∙ split_head b s in
    ground (
      arith,
      read_uint-write_uint (major a) (number a) (body a ++ r) ma na,
      read_uint-write_uint (major b) (number b) (body b ++ s) mb nb,
      ap read_uint w,
    )

text_key :
    (s t r q : Bytes)
    → length s < 2 ^ 64
    → length t < 2 ^ 64
    → encode (text s) ++ r ≡ encode (text t) ++ q
    → (s ≡ t) × (r ≡ q)
unfolding IsWf major number body
text_key s t r q hs ht e =
    let (_, n, rest) = same_head (text s) (text t) r q hs ht e in append_split s t r q n rest

-- Two encoded keys, and what follows them.
same_key :
    (k j r q : Bytes)
    → ((t : Bytes) × (k ≡ encode (text t)) × (length t < 2 ^ 64))
    → ((t : Bytes) × (j ≡ encode (text t)) × (length t < 2 ^ 64))
    → k ++ r ≡ j ++ q
    → (k ≡ j) × (r ≡ q)
same_key k j r q (s, ks, hs) (t, jt, ht) e =
    let (x, y) = text_key s t r q hs ht (rw (ks, jt) at e) in (cc, y)

split_entry :
    (k : Bytes) (v : Value) (es : Entries) (r : Bytes)
    → encode_entries (entry k v es) ++ r ≡ k ++ (encode v ++ (encode_entries es ++ r))
unfolding encode
split_entry k v es r = simp append_assoc

mutual
  unfolding IsWf major number body encode

  prefix_free :
      (a b : Value) (r s : Bytes)
      → IsWf a
      → IsWf b
      → encode a ++ r ≡ encode b ++ s
      → (a ≡ b) × (r ≡ s)
  prefix_free (uint v) (uint w) r s ha hb e =
      let (_, n, rest) = same_head (uint v) (uint w) r s ha hb e in (ap uint n, rest)
  prefix_free (byte_string v) (byte_string w) r s ha hb e =
      let (_, n, rest) = same_head (byte_string v) (byte_string w) r s ha hb e in
      let (x, y) = append_split v w r s n rest in (ap byte_string x, y)
  prefix_free (text v) (text w) r s ha hb e =
      let (x, y) = text_key v w r s ha hb e in (ap text x, y)
  prefix_free (array vs) (array ws) r s ha hb e =
      let (_, n, rest) = same_head (array vs) (array ws) r s ha hb e in
      let (x, y) = prefix_free_items vs ws r s ha.1 hb.1 n rest in (ap array x, y)
  prefix_free (map vs) (map ws) r s ha hb e =
      let (_, n, rest) = same_head (map vs) (map ws) r s ha hb e in
      let (x, y) = prefix_free_entries vs ws r s ha.1 hb.1 n rest in (ap map x, y)
  prefix_free a b r s ha hb e = absurd (omega (arith, (same_head a b r s ha hb e).0))

  prefix_free_items :
      (a b : Items) (r s : Bytes)
      → IsWfItems a
      → IsWfItems b
      → count_items a ≡ count_items b
      → encode_items a ++ r ≡ encode_items b ++ s
      → (a ≡ b) × (r ≡ s)
  prefix_free_items nil nil r s ha hb n e = (refl, e)
  prefix_free_items nil (cons w ws) r s ha hb n e = absurd (omega arith)
  prefix_free_items (cons v vs) nil r s ha hb n e = absurd (omega arith)
  prefix_free_items (cons v vs) (cons w ws) r s ha hb n e =
      let (x, y) = prefix_free v w (encode_items vs ++ r) (encode_items ws ++ s) ha.0 hb.0 (
        sym (append_assoc (encode v) (encode_items vs) r)
        ∙ e
        ∙ append_assoc (encode w) (encode_items ws) s) in
      let (z, t) = prefix_free_items vs ws r s ha.1 hb.1 (omega arith) y in (cc (x, z), t)

  prefix_free_entries :
      (a b : Entries) (r s : Bytes)
      → IsWfEntries a
      → IsWfEntries b
      → count_entries a ≡ count_entries b
      → encode_entries a ++ r ≡ encode_entries b ++ s
      → (a ≡ b) × (r ≡ s)
  prefix_free_entries end end r s ha hb n e = (refl, e)
  prefix_free_entries end (entry j w ws) r s ha hb n e = absurd (omega arith)
  prefix_free_entries (entry k v vs) end r s ha hb n e = absurd (omega arith)
  prefix_free_entries (entry k v vs) (entry j w ws) r s ha hb n e =
      let (x, y) =
        same_key k j _ _ ha.0 hb.0 (sym (split_entry k v vs r) ∙ e ∙ split_entry j w ws s) in
      let (z, t) = prefix_free v w (encode_entries vs ++ r) (encode_entries ws ++ s) ha.1 hb.1 y in
      let (u, q) = prefix_free_entries vs ws r s ha.2 hb.2 (omega arith) t in (cc (x, z, u), q)

-- For values whose numbers and lengths fit a u64 and whose map keys are encoded texts, no
-- encoding is a proper prefix of another's: whatever follows, equal bytes come from equal
-- values with equal rests.
pub encode-prefix_free :
    (a b : Value) (r s : Bytes)
    → IsWf a
    → IsWf b
    → encode a ++ r ≡ encode b ++ s
    → (a ≡ b) × (r ≡ s)
encode-prefix_free a b r s ha hb e = prefix_free a b r s ha hb e
