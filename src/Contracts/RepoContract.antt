-- ===== src/Contracts/RepoContract.antt =====
-- crates/repo-contract/src/lib.rs: the contract of a repo, which calls crates/types on the decoded bytes.
pub mod Loop
pub mod Sync
use Prim.Native.String.{String}
use freenet_git.Prelude.{
  Bytes, Option, none, some, List, [], ◌∷◌, Bool, true, false, ◌&&◌, if◌then◌else◌,
}
use freenet_git.BTreeMap.{BTreeMap}
use freenet_git.Crypto.{Crypto}
use freenet_git.Outcome.{Result, ok, err, ◌>>=◌, map_err}
use freenet_git.Repo.State.{RepoParams, RepoState, ValidateError}
use freenet_git.Repo.Validate
use freenet_git.Repo.Merge.{UpdateError}
use freenet_git.Repo.Merge
use freenet_git.Repo.Delta.{RepoSummary, default_summary}
use freenet_git.Repo.Delta
use freenet_git.Contracts.{
  UpdateData, full_state, delta, state_and_delta, related_state, related_delta,
  related_state_and_delta, other, ContractError, invalid_update, invalid_update_with_info,
}
use freenet_git.Contracts.Bincode.{Bincode, params_from_bytes, state_from_bytes}

-- What stands behind the colon of a message.
pub data Cause : Type 0 where
  of_validate : ValidateError → Cause
  of_update : UpdateError → Cause
  of_bincode : String → Cause

abbrev pub Error : Type 0
Error = ContractError Cause

abbrev pub is_none : {A : Type 0} → Option A → Bool
is_none none = true
is_none (some a) = false

abbrev pub is_empty : {A : Type 0} → List A → Bool
is_empty [] = true
is_empty (x ∷ xs) = false

unfoldable pub is_empty_delta : RepoState → Bool
is_empty_delta s =
    is_none s.name
    && (is_none s.description
        && (is_none s.default_branch
            && (is_none s.force_push_allowed
                && (is_none s.acl
                    && (is_none s.upgrade
                        && (is_empty s.refs
                            && (is_empty s.object_index && is_empty s.extensions)))))))

module _ (b : Bincode) where
  unfoldable pub decode_params : Bytes → Result Error RepoParams
  decode_params p =
      map_err (λ e. invalid_update_with_info "decode params" (of_validate e))
        (params_from_bytes b p)

  unfoldable pub decode_state : Bytes → Result Error RepoState
  decode_state bytes =
      map_err (λ e. invalid_update_with_info "decode state" (of_validate e))
        (state_from_bytes b bytes)

  unfoldable pub decode_summary : Bytes → Result Error RepoSummary
  decode_summary [] = ok default_summary
  decode_summary (x ∷ xs) =
      map_err (λ e. invalid_update_with_info "decode summary" (of_bincode e))
        (b.deserialize_summary (x ∷ xs))

  module _ (c : Crypto) (parameters : Bytes) where
    -- `ok tt` is `ValidateResult::Valid`.
    unfoldable pub validate_state : Bytes → Result Error (Unit {0})
    validate_state state = do
      params ← decode_params parameters
      state ← decode_state state
      map_err (λ e. invalid_update_with_info "validate_state" (of_validate e))
          (Validate.validate_state c params state)

    -- Decode, and update by what was decoded.
    unfoldable pub apply : RepoParams → String → Bytes → RepoState → Result Error RepoState
    apply params what bytes current = do
      incoming ← decode_state bytes
      map_err (λ e. invalid_update_with_info what (of_update e))
          (Merge.update_state c params current incoming)

    -- The body of the loop over the updates.
    unfoldable pub update_one : RepoParams → UpdateData → RepoState → Result Error RepoState
    update_one params (full_state bytes) current =
        apply params "update_state (full state)" bytes current
    update_one params (delta []) current = ok current
    update_one params (delta (x ∷ xs)) current =
        apply params "update_state (delta)" (x ∷ xs) current
    update_one params (state_and_delta s []) current =
        apply params "update_state (state+delta state half)" s current
    update_one params (state_and_delta s (x ∷ xs)) current = do
      current ← apply params "update_state (state+delta state half)" s current
      apply params "update_state (state+delta delta half)" (x ∷ xs) current
    update_one params related_state current = err invalid_update
    update_one params related_delta current = err invalid_update
    update_one params related_state_and_delta current = err invalid_update
    update_one params other current = err invalid_update

    unfoldable pub update_loop : RepoParams → List UpdateData → RepoState → Result Error RepoState
    update_loop params [] current = ok current
    update_loop params (u ∷ updates) current = do
      current ← update_one params u current
      update_loop params updates current

    unfoldable pub update_state : Bytes → List UpdateData → Result Error Bytes
    update_state state updates = do
      params ← decode_params parameters
      current ← decode_state state
      current ← update_loop params updates current
      map_err (λ e. invalid_update_with_info "re-serialize updated state" (of_bincode e))
          (b.serialize_state current)

    unfoldable pub summarize_state : Bytes → Result Error Bytes
    summarize_state state = do
      params ← decode_params parameters
      state ← decode_state state
      map_err (λ e. invalid_update_with_info "serialize summary" (of_bincode e))
          (b.serialize_summary (Delta.summarize_state state))

    unfoldable pub get_state_delta : Bytes → Bytes → Result Error Bytes
    get_state_delta state summary = do
      params ← decode_params parameters
      state ← decode_state state
      summary ← decode_summary summary
      let d = Delta.get_state_delta state summary in
          if is_empty_delta d
          then ok []
          else map_err (λ e. invalid_update_with_info "serialize delta" (of_bincode e))
              (b.serialize_state d)
