-- ===== src/Identity/File.antt =====
-- Bundle files, crates/identity/src/lib.rs.
pub mod Replace
use freenet_git.Prelude.{Option, none, some, Bytes, bytes, ◌++◌}
use freenet_git.Outcome.{Result, ok, err, panic, map_err}
use freenet_git.Disk.{
  Disk, Io, ◌>>=◌, ◌>>◌, no_change, open_truncate, write_all, rename, read_file, FilePath, join,
  location, parent_or_dot,
}
use freenet_git.Identity.{BundleError, io, DecryptedBundle, Libraries, seal, open_bundle}

-- `default_bundle_path`; the argument is `std::env::var`, `none` its errors.
unfoldable pub default_bundle_path : (Bytes → Option Bytes) → Bytes
default_bundle_path var = elim (var (bytes "XDG_CONFIG_HOME")) [
  | some xdg ↦ join (join xdg (bytes "freenet")) (bytes "git-identity.bundle")
  | none ↦ elim (var (bytes "HOME")) [
    | some home ↦
        join (join (join home (bytes ".config")) (bytes "freenet")) (bytes "git-identity.bundle")
    | none ↦ bytes ".freenet-git-identity.bundle"
  ]
]

-- The location of the temporary file.
unfoldable pub tmp_location : FilePath → Bytes
tmp_location p =
    location
      (record { parent = some (parent_or_dot p); name = bytes "." ++ p.name ++ bytes ".tmp" })

-- Opening, writing, `sync_all`, then `metadata` and `set_permissions`, and the rename.
unfoldable pub write_atomic : FilePath → Bytes → Io (Unit {0})
write_atomic path bs =
    let tmp = tmp_location path in
    open_truncate tmp
    >> write_all tmp bs
    >> no_change
    >> no_change
    >> no_change
    >> rename tmp (location path)

-- `create_dir_all` of the parent, if there is one.
unfoldable pub create_parent : FilePath → Io (Unit {0})
create_parent path = elim (path.parent) [ some dir ↦ no_change | none ↦ λ d. (ok tt, d) ]

-- What is sealed, or not, goes to the disk.
unfoldable pub write_sealed :
    FilePath → Result BundleError Bytes → Disk → Result BundleError (Unit {0}) × Disk
write_sealed path (ok bs) d = let (r, d') = write_atomic path bs d in (map_err io r, d')
write_sealed path (err e) d = (err e, d)
write_sealed path panic d = (panic, d)

-- A failed operation before the sealing is the result.
unfoldable pub after_parent :
    FilePath
    → Result BundleError Bytes
    → Result Bytes (Unit {0}) × Disk
    → Result BundleError (Unit {0}) × Disk
after_parent path sealed (ok u, d) = write_sealed path sealed d
after_parent path sealed (err e, d) = (err (io e), d)
after_parent path sealed (panic, d) = (panic, d)

-- The random salt and nonce are given.
unfoldable pub write_bundle :
    Libraries
    → Bytes
    → Bytes
    → DecryptedBundle
    → Bytes
    → FilePath
    → Disk
    → Result BundleError (Unit {0}) × Disk
write_bundle lib salt nonce bundle passphrase path d =
    after_parent path (seal lib salt nonce bundle passphrase) (create_parent path d)

unfoldable pub open_read :
    Libraries → Bytes → Result Bytes Bytes × Disk → Result BundleError DecryptedBundle × Disk
open_read lib passphrase (ok bs, d) = (open_bundle lib bs passphrase, d)
open_read lib passphrase (err e, d) = (err (io e), d)
open_read lib passphrase (panic, d) = (panic, d)

unfoldable pub read_bundle :
    Libraries → FilePath → Bytes → Disk → Result BundleError DecryptedBundle × Disk
read_bundle lib path passphrase d = open_read lib passphrase (read_file (location path) d)
