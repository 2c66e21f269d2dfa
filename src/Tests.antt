-- ===== src/Tests.antt =====
-- Concrete values that the theorems are applied to.
pub mod RepoTests
pub mod CodecTests
pub mod ContractTests
pub mod FetchTests
pub mod ClientTests
pub mod IdentityTests
pub mod DiskTests
pub mod HelperTests
use freenet_git.Prelude.{
  ℕ, ◌+◌, ◌≡◌, refl, sym, ◌∙◌, ap, Option, none, some, List, [], ◌∷◌, ◌++◌, Bytes, bytes, length,
  take, replicate, min, length-take, length-append, length-replicate, true, arith,
}
use freenet_git.BTreeMap.{BTreeMap}
use freenet_git.BTreeMap.Order.{eqb, eqb_refl}
use freenet_git.Crypto.{Crypto, SignsVerify}
use freenet_git.Repo.State.{
  RepoParams, SignedField, AclState, RefEntry, ObjectBundle, ObjectBundleRecord, ExtensionEntry,
  RepoState, default_state, IsOrdered,
}
use freenet_git.Encoding.Signed.{domain}
use freenet_git.Encoding.Signed.Fields.{fields}
use freenet_git.Repo.Payload.{params_repo_key}
use freenet_git.Repo.Payload.Content.{Content, name, ref_update, suffix, contents}

-- A hash that cuts and pads, and signatures that are the message and the key.
abbrev pub test_crypto : Crypto
test_crypto = record {
  blake3 = λ x. take 32 (x ++ replicate 32 0);
  VerifyKey = Bytes;
  VerifySig = Bytes;
  key_from_slice = λ x. some x;
  sig_from_slice = λ x. some x;
  verify = λ k m s. eqb s (k ++ m);
  bs58_encode = λ x. x;
  bs58_decode = λ x. some x;
  SigningKey = Bytes;
  verifying_key = λ k. k;
  sign = λ k m. k ++ m;
}

pub test_crypto-SignsVerify : SignsVerify test_crypto
test_crypto-SignsVerify = record {
  key = λ k. k;
  key_parses = λ k. refl;
  sig = λ k m. k ++ m;
  sig_parses = λ k m. refl;
  verifies = λ k m. eqb_refl (k ++ m);
}

pub length-blake3 : (x : Bytes) → length (test_crypto.blake3 x) ≡ 32
length-blake3 x = omega (
  arith,
  length-take 32 (x ++ replicate 32 0),
  length-append x (replicate 32 0),
  length-replicate {A = ℕ} 32 0,
)

abbrev pub owner : Bytes
owner = bytes "ownerkey"

abbrev pub params : RepoParams
params = record { prefix = bytes "ownerkey" }

-- The owner's signature over a content of the repo.
abbrev pub signed : Content → Bytes
signed x =
    owner ++ fields (domain (suffix x) ∷ params_repo_key test_crypto params owner ∷ contents x)

abbrev pub tip : Bytes → Bytes → ℕ → RefEntry
tip ref_name target s = record {
  target = target;
  update_seq = s;
  updater = owner;
  auth_epoch = 0;
  signature = signed (ref_update ref_name target s 0);
}

-- Two states of one repo: each has what the other lacks or has at another number.
abbrev pub state_one : RepoState
state_one = record default_state {
  owner = owner;
  name =
      some (record {
        value = bytes "repo";
        update_seq = 1;
        signature = signed (name (bytes "repo") 1);
      });
  refs =
      (bytes "main", tip (bytes "main") (bytes "b") 2)
      ∷ (bytes "old", tip (bytes "old") (bytes "c") 1)
      ∷ [];
}

abbrev pub state_two : RepoState
state_two = record default_state {
  owner = owner;
  refs = (bytes "main", tip (bytes "main") (bytes "d") 3) ∷ [];
}
