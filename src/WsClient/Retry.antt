-- ===== src/WsClient/Retry.antt =====
-- The retries of the search for a state and of the upload of a pack,
-- crates/freenet-git/src/wsclient.rs.
pub mod Passes
pub mod Upload
use freenet_git.Prelude.{
  ℕ, zero, suc, ◌+◌, ◌⊎◌, inl, inr, not, ◌||◌, true, false, Option, none, some, List, [], ◌∷◌, ◌++◌,
  Bytes, bytes, leb, ltb, if◌then◌else◌,
}
use freenet_git.Crypto.{Crypto}
use freenet_git.WsClient.Host.{Stdlib, WebApi, Answer, got, lost, ContractKey, Error, put_contract}
use freenet_git.WsClient.Probe.{
  ContractLineageEntry, LegacyAwareGet, Pass, found, failed, probe_all_keys, retry_backoff,
  outcomes_worth_retrying,
}
use freenet_git.WsClient.Failure.{Failure, format_fallback_failure}

abbrev pub probe_max_attempts : ℕ
probe_max_attempts = 4

-- What the search returns, the connection it leaves, and the seconds it slept between its passes.
pub record Retried : Type 0 where
  pub result : LegacyAwareGet ⊎ Failure
  pub web_api : WebApi
  pub slept : List ℕ

-- After the `attempt`-th pass: return, or sleep and go on.
unfoldable pub after_pass : ℕ → List ℕ → Pass → WebApi → (List ℕ → Option Retried) → Option Retried
after_pass attempt slept (found g) w next =
    some (record { result = inl g; web_api = w; slept = slept })
after_pass attempt slept (failed outcomes) w next =
    if leb probe_max_attempts attempt || not (outcomes_worth_retrying outcomes)
    then some
        (record { result = inr (format_fallback_failure outcomes); web_api = w; slept = slept })
    else next (slept ++ retry_backoff attempt ∷ [])

module _ (c : Crypto) (lib : Stdlib) (current_id params_bytes : Bytes)
    (lineage : List ContractLineageEntry) (wait : Bytes) where
  -- The loop from the `attempt`-th pass on; `none` is a loop that goes on after the fuel.
  unfoldable pub probe_loop : ℕ → ℕ → List ℕ → WebApi → Option Retried
  probe_loop zero attempt slept w = none
  probe_loop (suc fuel) attempt slept w =
      let (r, w') = probe_all_keys c lib current_id params_bytes lineage wait w in
      after_pass attempt slept r w' (λ slept'. probe_loop fuel (attempt + 1) slept' w')

  unfoldable pub get_state_with_legacy_fallback : WebApi → Option Retried
  get_state_with_legacy_fallback w = probe_loop probe_max_attempts 1 [] w

-- What an upload returns, the connection, the bytes given to the cache, if any, and the sleeps.
pub record Uploaded : Type 0 where
  pub result : Answer ContractKey
  pub web_api : WebApi
  pub cached : Option Bytes
  pub slept : List ℕ

abbrev pub max_attempts : ℕ
max_attempts = 3

-- `last_err.unwrap_or_else(..)`.
unfoldable pub last_error : Option Error → Error
last_error none = bytes "put_pack failed (no error captured)"
last_error (some e) = e

-- After one attempt: the key, with the bytes for the cache, or the rest of the loop.
unfoldable pub after_put :
    Bytes → ℕ → List ℕ → Answer ContractKey → WebApi → (Error → List ℕ → Uploaded) → Uploaded
after_put pack attempt slept (got key) w next = record {
  result = got key;
  web_api = w;
  cached = some pack;
  slept = slept;
}
after_put pack attempt slept (lost e) w next =
    next e (if ltb attempt max_attempts then slept ++ retry_backoff attempt ∷ [] else slept)

-- The attempts that are left, the number of the next, and the last error.
unfoldable pub put_attempts :
    Crypto → Stdlib → Bytes → Bytes → Bytes → ℕ → ℕ → Option Error → List ℕ → WebApi → Uploaded
put_attempts c lib wasm pack wait zero attempt last slept w = record {
  result = lost (last_error last);
  web_api = w;
  cached = none;
  slept = slept;
}
put_attempts c lib wasm pack wait (suc left) attempt last slept w =
    let (r, w') = put_contract lib wasm (c.blake3 pack) pack wait w in
    after_put pack attempt slept r w'
      (λ e slept'. put_attempts c lib wasm pack wait left (attempt + 1) (some e) slept' w')

unfoldable pub put_pack : Crypto → Stdlib → Bytes → Bytes → Bytes → WebApi → Uploaded
put_pack c lib wasm pack wait w = put_attempts c lib wasm pack wait max_attempts 1 none [] w
