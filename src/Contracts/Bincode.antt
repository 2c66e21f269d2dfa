-- ===== src/Contracts/Bincode.antt =====
-- `bincode`, a third-party crate, as the contracts call it, and `from_bytes` of the repo's types.
use Prim.Native.String.{String}
use freenet_git.Prelude.{◌≡◌, ◌≢◌, [], ◌∷◌, Bytes}
use freenet_git.Outcome.{Result, ok, map_err}
use freenet_git.Repo.State.{
  RepoParams, RepoState, default_state, IsOrdered, ValidateError, decode_params, decode_state,
}
use freenet_git.Repo.Delta.{RepoSummary}

-- An error is kept as its text.
pub record Bincode : Type 0 where
  pub deserialize_params : Bytes → Result String RepoParams
  pub serialize_state : RepoState → Result String Bytes
  pub deserialize_state : Bytes → Result String RepoState
  pub serialize_summary : RepoSummary → Result String Bytes
  pub deserialize_summary : Bytes → Result String RepoSummary

-- What `bincode` documents: it writes some bytes for a value that is not empty, it reads back what it
-- wrote, and a `BTreeMap` that it reads is in the order of its keys.
pub record RoundTrips (b : Bincode) : Type 0 where
  pub state :
      (s : RepoState) (x : Bytes) → b.serialize_state s ≡ ok x → b.deserialize_state x ≡ ok s
  pub state_written : (s : RepoState) (x : Bytes) → b.serialize_state s ≡ ok x → x ≢ []
  pub state_ordered : (s : RepoState) (x : Bytes) → b.deserialize_state x ≡ ok s → IsOrdered s
  pub summary :
      (s : RepoSummary) (x : Bytes) → b.serialize_summary s ≡ ok x → b.deserialize_summary x ≡ ok s
  pub summary_written : (s : RepoSummary) (x : Bytes) → b.serialize_summary s ≡ ok x → x ≢ []

-- `RepoParams::from_bytes`.
unfoldable pub params_from_bytes : Bincode → Bytes → Result ValidateError RepoParams
params_from_bytes b bytes = map_err decode_params (b.deserialize_params bytes)

-- `RepoState::from_bytes`.
unfoldable pub state_from_bytes : Bincode → Bytes → Result ValidateError RepoState
state_from_bytes b [] = ok default_state
state_from_bytes b (x ∷ xs) = map_err decode_state (b.deserialize_state (x ∷ xs))
