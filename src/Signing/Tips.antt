-- ===== src/Signing/Tips.antt =====
-- The tip extension that advertises a bundle's commit is accepted, and its key names the bundle.
use freenet_git.Prelude.{ℕ, ◌<◌, ◌≡◌, some, Bytes, length, All, arith}
use freenet_git.Crypto.{Crypto, SignsVerify}
use freenet_git.Encoding.LittleEndian.{length-to_le_bytes}
use freenet_git.Repo.State.{RepoParams, ExtensionEntry}
use freenet_git.Repo.Payload.Content.{extension, payload}
use freenet_git.Repo.Validate.Authorized.{ExtensionOk}
use freenet_git.Signing.{domain_key, sign_extension, sign_bundle_tip_extension}
use freenet_git.Signing.TipKeys.{
  bundle_tip_extension_key, length-hex_bytes, parse_bundle_tip_extension_key,
  parse-bundle_tip_extension_key,
}
use freenet_git.Signing.Accepted.{AllFit, bytes_of, payload-Fits, key-Fits, owned}

module _ (c : Crypto) (sv : SignsVerify c) (key : c.SigningKey) (params : RepoParams) where
  length-bundle_tip_extension_key :
      (bundle_id : Bytes) → length bundle_id ≡ 32 → length (bundle_tip_extension_key bundle_id) ≡ 75
  unfolding bundle_tip_extension_key
  length-bundle_tip_extension_key bundle_id h = omega (arith, length-hex_bytes bundle_id)

  module _ (hash_length : (x : Bytes) → length (c.blake3 x) ≡ 32) where
    tip-Fits :
        (bundle_id tip : Bytes) (s : ℕ)
        → length bundle_id ≡ 32
        → length tip ≡ 20
        → AllFit c sv key params (extension (bundle_tip_extension_key bundle_id) tip s)
    tip-Fits bundle_id tip s hb ht = (
      omega arith,
      (
        key-Fits c sv key params hash_length,
        (
          omega (arith, length-bundle_tip_extension_key bundle_id hb),
          (omega arith, (omega (arith, length-to_le_bytes 8 s), tt)),
        ),
      ),
    )

    -- With keys and signatures that verify and a hash of 32 bytes: for a bundle id of 32 bytes
    -- and a commit hash of 20, the owner's tip extension is built; its entry is accepted under
    -- its key, and the key parses back to the bundle id.
    pub sign_bundle_tip_extension_ok :
        (bundle_id tip : Bytes) (s : ℕ)
        → length bundle_id ≡ 32
        → All (λ b. b < 256) bundle_id
        → length tip ≡ 20
        → (k : Bytes) × (e : ExtensionEntry) × (sign_bundle_tip_extension c params key bundle_id tip
              s
            ≡ some (k, e))
          × ExtensionOk c (domain_key c params key) (c.verifying_key key) k e
          × (parse_bundle_tip_extension_key k ≡ some bundle_id)
    unfolding sign_bundle_tip_extension sign_extension payload
    sign_bundle_tip_extension_ok bundle_id tip s hb hx ht =
        let k = bundle_tip_extension_key bundle_id in
        let x = extension k tip s in
        let fits = tip-Fits bundle_id tip s hb ht in
        (
          k,
          record {
            value = tip;
            update_seq = s;
            signature = c.sign key (bytes_of c sv key params x);
          },
          rw (payload-Fits (domain_key c params key) x fits),
          record {
            key_size = omega (arith, length-bundle_tip_extension_key bundle_id hb);
            value_size = omega arith;
            signed = owned c sv key params x fits;
          },
          parse-bundle_tip_extension_key bundle_id hb hx,
        )
