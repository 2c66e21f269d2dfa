-- ===== src/WsClient/Failure.antt =====
-- The error of a pass that finds nothing, crates/freenet-git/src/wsclient.rs.
pub mod Shape
use freenet_git.Prelude.{
  ℕ, suc, ◌+◌, ◌-◌, Bool, true, false, Option, none, some, List, [], ◌∷◌, length, take, ◌==◌,
  if◌then◌else◌,
}
use freenet_git.WsClient.Host.{Error}
use freenet_git.WsClient.Probe.{ProbeOutcome, Label, Outcomes}

-- The cases of `format_fallback_failure`, with the numbers and texts of each message.
pub data Failure : Type 0 where
  all_timed_out : ℕ → Failure
  nothing_found : ℕ → ℕ → ℕ → Failure
  all_failed : ℕ → Option (Label × Error) → Failure
  mixed : ℕ → ℕ → ℕ → ℕ → Outcomes → ℕ → Failure

unfoldable pub is_timeout : ProbeOutcome → Bool
is_timeout ProbeOutcome.timeout = true
is_timeout _ = false

unfoldable pub is_not_found : ProbeOutcome → Bool
is_not_found ProbeOutcome.not_found = true
is_not_found _ = false

unfoldable pub is_empty_response : ProbeOutcome → Bool
is_empty_response ProbeOutcome.empty = true
is_empty_response _ = false

-- `filter(..).count()`.
unfoldable pub count : (ProbeOutcome → Bool) → Outcomes → ℕ
count p [] = 0
count p ((l, o) ∷ os) = if p o then suc (count p os) else count p os

-- `find_map` to the first other error.
unfoldable pub first_error : Outcomes → Option (Label × Error)
first_error [] = none
first_error ((l, ProbeOutcome.other_error msg) ∷ os) = some (l, msg)
first_error ((l, _) ∷ os) = first_error os

-- The choice of the message by the numbers.
unfoldable pub describe : ℕ → ℕ → ℕ → ℕ → Outcomes → Failure
describe total timeouts not_founds empties outcomes =
    let other_errors = total - timeouts - not_founds - empties in
    if timeouts == total
    then all_timed_out total
    else if not_founds + empties == total
    then nothing_found (total - 1) not_founds empties
    else if other_errors == total
    then all_failed total (first_error outcomes)
    else mixed timeouts not_founds empties other_errors (take 8 outcomes) (total - 8)

unfoldable pub format_fallback_failure : Outcomes → Failure
format_fallback_failure outcomes =
    describe (length outcomes) (count is_timeout outcomes) (count is_not_found outcomes)
      (count is_empty_response outcomes) outcomes
