-- ===== src/Contracts.antt =====
-- The two contracts that run on a Freenet node, as the host calls them.
pub mod Bincode
pub mod Pack
pub mod RepoContract
use Prim.Native.String.{String}
use freenet_git.Prelude.{Bytes}

-- `freenet_stdlib::prelude::UpdateData`, as far as the contracts match on it: the variants with the
-- bytes they read, and every other one.
pub data UpdateData : Type 0 where
  full_state : Bytes → UpdateData
  delta : Bytes → UpdateData
  state_and_delta : Bytes → Bytes → UpdateData
  related_state : UpdateData
  related_delta : UpdateData
  related_state_and_delta : UpdateData
  other : UpdateData

-- `freenet_stdlib::prelude::ContractError`, as far as the contracts build it. The text of a message is
-- kept up to the colon, and what stands behind the colon as a value.
pub data ContractError (Cause : Type 0) : Type 0 where
  invalid_update : ContractError Cause
  invalid_update_with_info : String → Cause → ContractError Cause
