-- ===== src/PackCache/Laws.antt =====
-- Reads, writes and evictions of the pack cache, crates/freenet-git/src/pack_cache.rs.
use freenet_git.Prelude.{
  ◌≡◌, ◌≢◌, refl, ◌∙◌, ap, inl, inr, true, Option, none, some, List, [], ◌∷◌, Bytes, bytes, ◌++◌,
  length, length-append, arith, Bool-cases,
}
use freenet_git.BTreeMap.Order.{eqb, eqb→eq, eqb_refl, eqb_of_ne}
use freenet_git.Crypto.{Crypto}
use freenet_git.Outcome.{Result, ok, err, panic}
use freenet_git.Signing.TipKeys.{hex_bytes}
use freenet_git.Disk.{
  Fault, Disk, Io, ◌>>◌, and_then, no_change, operation, run, open_new, write_all, rename,
  read_file, location,
}
use freenet_git.Disk.Atomic.{
  Replaces, >>-Replaces, >>-Touches, >>-Leaves, write_all-Touches, write_all-Leaves,
  open_new-Touches, remove_file-Touches,
}
use freenet_git.Disk.Read.{read_file-ok, read_file_present, Quiet, remove_file_present}
use freenet_git.PackCache.{PackCache, path_for, check_read, read, tmp_for, clean_up, write_atomic}

-- The temporary file is another one.
pub path_for-ne-tmp_for :
    (cache : PackCache) (hash unique : Bytes)
    → location (path_for cache hash) ≢ tmp_for cache hash unique
unfolding location path_for tmp_for
path_for-ne-tmp_for cache hash unique = λ e.
    let there = cache.root ++ bytes "/" in
    let name = hex_bytes hash ++ bytes ".pack" in
    let beside = bytes "." ++ name ++ bytes "." ++ unique ++ bytes ".tmp" in
    let e' : there ++ name ≡ there ++ beside = e in
    omega (
      arith,
      ap length e',
      length-append there name,
      length-append there beside,
      length-append (bytes "." ++ name ++ bytes "." ++ unique) (bytes ".tmp"),
      length-append (bytes "." ++ name ++ bytes ".") unique,
      length-append (bytes "." ++ name) (bytes "."),
    )

-- Cleaning up touches only the temporary file.
clean_up-Replaces :
    (path tmp bs : Bytes) (d : Disk) (p : Result Bytes (Unit {0}) × Disk)
    → path ≢ tmp
    → Replaces path tmp bs d p.0 p.1
    → Replaces path tmp bs d (clean_up tmp p).0 (clean_up tmp p).1
unfolding clean_up
clean_up-Replaces path tmp bs d (ok u, v) n r = r
clean_up-Replaces path tmp bs d (panic, v) n r = r
clean_up-Replaces path tmp bs d (err e, v) n r =
    let t = remove_file-Touches tmp in
    record {
      elsewhere = λ k. elim (r.elsewhere k) [
        | inl same ↦ inl same
        | inr (inl same) ↦ inr (inl same)
        | inr (inr old) ↦ elim (t.elsewhere v k) [
          | inl same ↦ inr (inl same)
          | inr kept ↦ inr (inr (kept ∙ old))
        ]
      ];
      outcome = elim (r.outcome) [
        | inl (good, held, gone) ↦ absurd (ground arith)
        | inr (x, same, old) ↦ elim (t.elsewhere v path) [
          | inl is_tmp ↦ absurd (n is_tmp)
          | inr kept ↦ inr (x, same, kept ∙ old)
        ]
      ];
    }

-- Making the directory first changes no file.
after_directory :
    (path tmp bs : Bytes) (d : Disk) (m : Io (Unit {0}))
    → path ≢ tmp
    → ((v : Disk) → Replaces path tmp bs v (m v).0 (m v).1)
    → (es : List (Option Fault))
    → Replaces path tmp bs d
        (and_then (λ _. m) (run (λ f. f) (λ _ f. f) es d.contents)).0
        (and_then (λ _. m) (run (λ f. f) (λ _ f. f) es d.contents)).1
unfolding and_then run
after_directory path tmp bs d m n r [] = moved (r (record { contents = d.contents; faults = [] }))
  where
    moved :
        {es : List (Option Fault)} {res : Result Bytes (Unit {0})} {d' : Disk}
        → Replaces path tmp bs (record { contents = d.contents; faults = es }) res d'
        → Replaces path tmp bs d res d'
    moved x = record { elsewhere = x.elsewhere; outcome = x.outcome }
after_directory path tmp bs d m n r (none ∷ es) =
    let x = r (record { contents = d.contents; faults = es }) in
    record { elsewhere = x.elsewhere; outcome = x.outcome }
after_directory path tmp bs d m n r (some e ∷ es) = record {
  elsewhere = λ k. inr (inr refl);
  outcome = inr (e.error, refl, refl);
}

-- Whatever operations fail, and however much a failing write has written: after a write to the
-- cache, every other file but the temporary one is as it was, and either the entry holds exactly the
-- bytes and the temporary file is gone, or the write failed and the entry is as it was.
pub write_atomic-path_for-Replaces :
    (cache : PackCache) (unique hash bs : Bytes) (d : Disk)
    → Replaces
        (location (path_for cache hash))
        (tmp_for cache hash unique)
        bs
        d
        (write_atomic (location (path_for cache hash)) (tmp_for cache hash unique) bs d).0
        (write_atomic (location (path_for cache hash)) (tmp_for cache hash unique) bs d).1
unfolding write_atomic no_change operation
write_atomic-path_for-Replaces cache unique hash bs d =
    let path = location (path_for cache hash) in
    let tmp = tmp_for cache hash unique in
    let n = path_for-ne-tmp_for cache hash unique in
    let written = open_new tmp >> write_all tmp bs in
    let write_t =
      >>-Touches tmp (open_new tmp) (write_all tmp bs) (open_new-Touches tmp)
        (write_all-Touches tmp bs) in
    let write_l = >>-Leaves tmp bs (open_new tmp) (write_all tmp bs) (write_all-Leaves tmp bs) in
    after_directory path tmp bs d (λ v. clean_up tmp ((written >> rename tmp path) v)) n
      (λ v.
        clean_up-Replaces path tmp bs v ((written >> rename tmp path) v) n
          (>>-Replaces path tmp bs written v n write_t write_l))
      d.faults

check_read-hash :
    (c : Crypto) (path hash bs : Bytes) (p : Result Bytes Bytes × Disk)
    → (check_read c path hash p).0 ≡ some bs
    → (c.blake3 bs ≡ hash) × (p.0 ≡ ok bs) × ((check_read c path hash p).1 ≡ p.1)
unfolding check_read
check_read-hash c path hash bs (ok out, d) h = elim (Bool-cases (eqb (c.blake3 out) hash)) [
  | inl same ↦
      let e : out ≡ bs = ground arith in
      (rw (← e) (eqb→eq (c.blake3 out) hash same), ap ok e, rw same)
  | inr other ↦ absurd (ground arith)
]
check_read-hash c path hash bs (err e, d) h = absurd (ground arith)
check_read-hash c path hash bs (panic, d) h = absurd (ground arith)

-- Whatever the file system does: bytes that the cache reads have the hash asked for and are what its
-- entry holds, and reading them changed no file.
pub read-hash :
    (c : Crypto) (cache : PackCache) (hash bs : Bytes) (d : Disk)
    → (read c cache hash d).0 ≡ some bs
    → (c.blake3 bs ≡ hash)
      × (d.contents (location (path_for cache hash)) ≡ some bs)
      × ((read c cache hash d).1.contents ≡ d.contents)
unfolding read
read-hash c cache hash bs d h =
    let path = location (path_for cache hash) in
    let (sound, got, same) = check_read-hash c path hash bs (read_file path d) h in
    let (held, unchanged) = read_file-ok path bs d got in
    (sound, held, ap (λ v. v.contents) same ∙ unchanged)

check_read-evicts :
    (c : Crypto) (path hash bs : Bytes) (d : Disk)
    → Quiet d
    → d.contents path ≡ some bs
    → c.blake3 bs ≢ hash
    → ((check_read c path hash (ok bs, d)).0 ≡ none)
      × ((check_read c path hash (ok bs, d)).1.contents path ≡ none)
unfolding check_read
check_read-evicts c path hash bs d q h n =
    rw (eqb_of_ne (c.blake3 bs) hash n) (refl, remove_file_present path bs d q h)

-- If no operation fails and the entry of a hash holds bytes of another hash, then reading it gives
-- nothing and removes the entry.
pub read-evicts :
    (c : Crypto) (cache : PackCache) (hash bs : Bytes) (d : Disk)
    → Quiet d
    → d.contents (location (path_for cache hash)) ≡ some bs
    → c.blake3 bs ≢ hash
    → ((read c cache hash d).0 ≡ none)
      × ((read c cache hash d).1.contents (location (path_for cache hash)) ≡ none)
unfolding read
read-evicts c cache hash bs d q h n =
    let path = location (path_for cache hash) in
    let e = read_file_present path bs d q h in rw e (check_read-evicts c path hash bs d q h n)

-- If no operation fails and the entry of a hash holds bytes of that hash, then reading gives them.
pub read_held :
    (c : Crypto) (cache : PackCache) (hash bs : Bytes) (d : Disk)
    → Quiet d
    → d.contents (location (path_for cache hash)) ≡ some bs
    → c.blake3 bs ≡ hash
    → read c cache hash d ≡ (some bs, d)
unfolding read check_read
read_held c cache hash bs d q h e =
    let path = location (path_for cache hash) in
    let hashed : eqb (c.blake3 bs) hash ≡ true = rw e (eqb_refl hash) in
    rw (read_file_present path bs d q h, hashed)
