-- ===== src/Lib.antt =====
-- Verification of freenet-git: git repositories hosted on Freenet.
--
-- The program keeps the state of a repository (refs, an index of pack bundles, settings, extensions)
-- in a contract that every Freenet node can run. The owner signs each entry; nodes validate, merge
-- and exchange states by summary and delta. Packs are stored in contracts addressed by hash, large
-- ones in chunks behind a manifest.
--
-- Files and the code they model (paths from the repository's root):
-- - Prelude, BTreeMap, Outcome: shared names; a `BTreeMap` is its entries in key order; `Result` has a
--   third case for a panic.
-- - Crypto: blake3, ed25519 and base58 are parameters, with what their documents promise apart.
-- - Encoding/Signed: crates/encoding/src/signed.rs, the builder of signed payloads. Strings and byte
--   arrays are lists of bytes.
-- - Encoding/Canonical: crates/encoding/src/canonical.rs, `Value::encode` and `MapBuilder`.
-- - Repo/State, Repo/Payload, Repo/Validate, Repo/Merge, Repo/Delta: crates/types/src/lib.rs, one
--   function per function of the source, under its name; a loop over a map is a function of its own.
-- - Chunked: crates/types/src/chunked.rs. Sizes wrap or panic as the fixed widths do.
-- - Signing: crates/types/src/signing.rs and crates/freenet-git/src/state_init.rs.
-- - Contracts/Pack, Contracts/RepoContract: crates/pack-contract/src/lib.rs and
--   crates/repo-contract/src/lib.rs, the calls of the host. `bincode` is a parameter.
-- - Url: crates/freenet-git/src/url.rs.
-- - Fetch: crates/freenet-git/src/chunked.rs (the fetch, with the order of completion as an argument) and
--   crates/freenet-git/src/wsclient.rs (the cached GET).
-- - WsClient/Host, WsClient/Probe, WsClient/Failure, WsClient/Retry:
--   crates/freenet-git/src/wsclient.rs. A connection is a state: what was sent, which sends fail, and
--   what each wait ends with; a function of the source returns its result and the connection after
--   it. `freenet_stdlib`'s key derivation and the text of a duration are parameters.
-- - Disk: the files by location, and the list of the failures of the operations to come; a failing
--   write may have written a part.
-- - Identity, Identity/File, Identity/Keys: crates/identity/src/lib.rs. Random bytes and keys are
--   arguments; `bincode`, `scrypt`, the cipher and the types of keys are parameters.
-- - PackCache: crates/freenet-git/src/pack_cache.rs, and `get_pack` of wsclient.rs on a connection and
--   a disk.
-- - RemoteHelper: crates/freenet-git/src/bin/git-remote-freenet.rs, `walk_unresolved_parents`; what
--   git answers is a parameter, and a `HashSet` is a list. RemoteHelper/FetchLoop: the bundles that
--   `handle_fetch` downloads; the download of a bundle, the installation of a pack and the order in
--   which a `HashMap` is gone over are parameters. RemoteHelper/Commands: the arguments of fetch and
--   push.
-- - Rescue: crates/freenet-git/src/main.rs, the mirror mode and the choice of bundles.
-- - Tests: concrete values that the theorems are applied to.
--
-- Fuel: Chunked.chunks has as many rounds as the pack has bytes, which is enough since each round
-- takes at least one byte when the size is not 0. The search for a repo's state has as many rounds as
-- it has attempts, four. The search of the local history has any number of rounds; enough are the
-- wanted commits and the parents of the local commits. The loop of a fetch need not end, and then
-- gives none for any number of rounds. All other loops are structural.
--
-- Not modelled: the rest of the git remote helper and the command line (processes, arguments and
-- I/O), the publishing of chunked packs, the serde helper modules and the build script. Lengths of
-- the fixed arrays are not part of the types; where one matters it is a hypothesis. Error messages
-- are kept up to what a caller can tell apart. Permissions, symbolic links and the syncing
-- of files have no part in the model of the disk.
pub mod Prelude
pub mod BTreeMap
pub mod Outcome
pub mod Crypto
pub mod Encoding
pub mod Repo
pub mod Chunked
pub mod Signing
pub mod Contracts
pub mod Url
pub mod Fetch
pub mod WsClient
pub mod Disk
pub mod Identity
pub mod PackCache
pub mod Rescue
pub mod RemoteHelper
pub mod Tests
