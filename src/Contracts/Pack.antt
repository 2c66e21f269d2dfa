-- ===== src/Contracts/Pack.antt =====
-- crates/pack-contract/src/lib.rs: the contract of a pack, addressed by the hash of its content.
pub mod Content
use freenet_git.Prelude.{ℕ, Bytes, bytes, List, [], ◌∷◌, length, ◌==◌, not, if◌then◌else◌}
use freenet_git.BTreeMap.Order.{eqb}
use freenet_git.Crypto.{Crypto}
use freenet_git.Outcome.{Result, ok, err, ◌>>=◌, ◌>>◌}
use freenet_git.Contracts.{
  UpdateData, full_state, delta, state_and_delta, related_state, related_delta,
  related_state_and_delta, other, ContractError, invalid_update, invalid_update_with_info,
}

abbrev pub pack_hash_bytes : ℕ
pack_hash_bytes = 32

abbrev pub Error : Type 0
Error = ContractError (Unit {0})

module _ (c : Crypto) (parameters : Bytes) where
  -- `ok tt` is `ValidateResult::Valid`. The conversion to `[u8; 32]` fails on no value of that length.
  unfoldable pub validate_state : Bytes → Result Error (Unit {0})
  validate_state state =
      if not (length parameters == pack_hash_bytes)
      then err (invalid_update_with_info "pack contract parameters must be exactly 32 bytes" tt)
      else if eqb (c.blake3 state) parameters
      then ok tt
      else err (invalid_update_with_info "pack contract state hash does not match parameters" tt)

  -- The loop over the updates, with the state held so far.
  unfoldable pub update_loop : List UpdateData → Bytes → Result Error Bytes
  update_loop [] current = ok current
  update_loop (full_state new_state ∷ updates) current =
      validate_state new_state >> update_loop updates new_state
  update_loop (delta d ∷ updates) current =
      err (invalid_update_with_info "pack contracts only accept full-state updates" tt)
  update_loop (state_and_delta s d ∷ updates) current =
      err (invalid_update_with_info "pack contracts only accept full-state updates" tt)
  update_loop (related_state ∷ updates) current =
      err (invalid_update_with_info "pack contracts only accept full-state updates" tt)
  update_loop (related_delta ∷ updates) current =
      err (invalid_update_with_info "pack contracts only accept full-state updates" tt)
  update_loop (related_state_and_delta ∷ updates) current =
      err (invalid_update_with_info "pack contracts only accept full-state updates" tt)
  update_loop (other ∷ updates) current = err invalid_update

  unfoldable pub update_state : Bytes → List UpdateData → Result Error Bytes
  update_state state updates = update_loop updates state

  -- Both ignore the state.
  unfoldable pub summarize_state : Bytes → Result Error Bytes
  summarize_state state = ok parameters

  unfoldable pub get_state_delta : Bytes → Bytes → Result Error Bytes
  get_state_delta state summary = ok []
