-- ===== src/Identity/File/Replace.antt =====
-- A bundle file is replaced as a whole or not at all, and can be read back,
-- crates/identity/src/lib.rs.
use freenet_git.Prelude.{
  ◌≡◌, ◌≢◌, refl, ◌∙◌, ap, inl, inr, Option, none, some, [], Bytes, bytes, ◌++◌, length,
  length-append, arith,
}
use freenet_git.Outcome.{Result, ok, err, panic, map_err-ok}
use freenet_git.Disk.{
  Disk, ◌>>◌, and_then, no_change, operation, run, open_truncate, write_all, read_file, if_present,
  FilePath, location, parent_or_dot,
}
use freenet_git.Disk.Atomic.{
  Replaces, >>-Replaces, >>-Touches, >>-Leaves, no_change-Leaves, no_change-Touches,
  open_truncate-Touches, write_all-Touches, write_all-Leaves,
}
use freenet_git.Identity.{BundleError, io, DecryptedBundle, Libraries, seal, open_bundle}
use freenet_git.Identity.Seal.{Faithful, open_bundle-seal}
use freenet_git.Identity.File.{
  tmp_location, write_atomic, create_parent, write_sealed, after_parent, write_bundle, open_read,
  read_bundle,
}

-- The temporary file is another one.
location-ne-tmp_location : (path : FilePath) → location path ≢ tmp_location path
unfolding location tmp_location parent_or_dot
location-ne-tmp_location path = differ path.parent path.name
  where
    differ :
        (dir : Option Bytes) (name : Bytes)
        → location (record { parent = dir; name = name })
          ≢ tmp_location (record { parent = dir; name = name })
    differ none name = λ e. omega (arith, ap length e, length-append name (bytes ".tmp"))
    differ (some dir) name = λ e.
        let there = dir ++ bytes "/" in
        let beside = bytes "." ++ name ++ bytes ".tmp" in
        let e' : there ++ name ≡ there ++ beside = e in
        omega (
          arith,
          ap length e',
          length-append there name,
          length-append there beside,
          length-append name (bytes ".tmp"),
        )

-- Whatever operations fail, and however much a failing write has written: after a write of a file,
-- every other file but the temporary one is as it was, and either the write succeeded, the file
-- holds exactly the bytes and the temporary file is gone, or it failed and the file is as it was.
pub write_atomic-Replaces :
    (path : FilePath) (bs : Bytes) (d : Disk)
    → Replaces
        (location path)
        (tmp_location path)
        bs
        d
        (write_atomic path bs d).0
        (write_atomic path bs d).1
unfolding write_atomic
write_atomic-Replaces path bs d =
    let tmp = tmp_location path in
    let open_t = open_truncate-Touches tmp in
    let write_t =
      >>-Touches tmp (open_truncate tmp) (write_all tmp bs) open_t (write_all-Touches tmp bs) in
    let write_l =
      >>-Leaves tmp bs (open_truncate tmp) (write_all tmp bs) (write_all-Leaves tmp bs) in
    let quiet = no_change-Touches tmp in
    let written = open_truncate tmp >> write_all tmp bs in
    let synced = written >> no_change in
    let read_perms = synced >> no_change in
    >>-Replaces (location path) tmp bs (read_perms >> no_change) d (location-ne-tmp_location path)
      (>>-Touches tmp read_perms no_change
        (>>-Touches tmp synced no_change (>>-Touches tmp written no_change write_t quiet) quiet)
        quiet)
      (no_change-Leaves tmp bs read_perms
        (no_change-Leaves tmp bs synced (no_change-Leaves tmp bs written write_l)))

-- A write that succeeds has sealed the bundle, and the file holds the result.
write_sealed-ok :
    (path : FilePath) (sealed : Result BundleError Bytes) (d d' : Disk)
    → write_sealed path sealed d ≡ (ok tt, d')
    → (bs : Bytes) × (sealed ≡ ok bs) × (d'.contents (location path) ≡ some bs)
unfolding write_sealed
write_sealed-ok path (ok bs) d d' h =
    let e : (write_atomic path bs d).1 ≡ d' = ap (λ p. p.1) h in
    let wrote = map_err-ok io (write_atomic path bs d).0 tt (ap (λ p. p.0) h) in
    elim ((write_atomic-Replaces path bs d).outcome) [
      | inl (r, held, gone) ↦ (bs, refl, rw (← e) held)
      | inr (x, r, old) ↦ absurd (ground arith)
    ]
write_sealed-ok path (err e) d d' h = absurd (ground arith)
write_sealed-ok path panic d d' h = absurd (ground arith)

after_parent-ok :
    (path : FilePath) (sealed : Result BundleError Bytes) (p : Result Bytes (Unit {0}) × Disk)
    (d' : Disk)
    → after_parent path sealed p ≡ (ok tt, d')
    → (bs : Bytes) × (sealed ≡ ok bs) × (d'.contents (location path) ≡ some bs)
unfolding after_parent
after_parent-ok path sealed (ok u, d) d' h = write_sealed-ok path sealed d d' h
after_parent-ok path sealed (err e, d) d' h = absurd (ground arith)
after_parent-ok path sealed (panic, d) d' h = absurd (ground arith)

read_back :
    (lib : Libraries) (path : FilePath) (passphrase bs : Bytes) (d : Disk)
    → d.contents (location path) ≡ some bs
    → d.faults ≡ []
    → (read_bundle lib path passphrase d).0 ≡ open_bundle lib bs passphrase
unfolding read_bundle read_file if_present no_change operation run and_then open_read
read_back lib path passphrase bs d e f = rw (e, read_file, f, no_change) refl

-- For libraries that keep their promises: if writing a bundle under a passphrase succeeds, whatever
-- the disk held, and reading meets no fault, then reading the file under the passphrase gives the
-- bundle.
pub read_bundle-write_bundle :
    (lib : Libraries) (salt nonce : Bytes) (bundle : DecryptedBundle) (passphrase : Bytes)
    (path : FilePath) (d d' : Disk)
    → Faithful lib
    → write_bundle lib salt nonce bundle passphrase path d ≡ (ok tt, d')
    → d'.faults ≡ []
    → (read_bundle lib path passphrase d').0 ≡ ok bundle
unfolding write_bundle
read_bundle-write_bundle lib salt nonce bundle passphrase path d d' f h g =
    let sealed = seal lib salt nonce bundle passphrase in
    let (bs, made, held) = after_parent-ok path sealed (create_parent path d) d' h in
    read_back lib path passphrase bs d' held g
    ∙ open_bundle-seal lib salt nonce bundle passphrase bs f made
