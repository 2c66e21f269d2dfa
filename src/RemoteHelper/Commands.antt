-- ===== src/RemoteHelper/Commands.antt =====
-- What the arguments of git's commands to the helper say,
-- crates/freenet-git/src/bin/git-remote-freenet.rs.
use freenet_git.Prelude.{
  ℕ, ◌≡◌, ◌≢◌, refl, ap, Bool, true, false, Option, none, some, [], ◌∷◌, ◌++◌, Bytes, bytes, All,
  arith, strip_prefix,
}
use freenet_git.BTreeMap.Order.{eqb}
use freenet_git.Outcome.{Result, ok, err}
use freenet_git.Url.{split_once}

-- `splitn` of two parts at a blank.
unfoldable pub split_fetch : Bytes → Result Bytes (Bytes × Bytes)
split_fetch args = elim (split_once 32 args) [
  | some parts ↦ ok parts
  | none ↦ err (bytes "fetch missing name")
]

-- The `+` before a forced push, if there is one.
unfoldable pub strip_force : Bytes → Bytes × Bool
strip_force spec = elim (strip_prefix (bytes "+") spec) [
  | some rest ↦ (rest, true)
  | none ↦ (spec, false)
]

-- The parts of `splitn(2, ':')`, of which the second may be missing.
unfoldable pub push_parts : Bool → Option (Bytes × Bytes) → Result Bytes (Bool × Bytes × Bytes)
push_parts force none = err (bytes "push spec missing destination")
push_parts force (some parts) = ok (force, parts.0, parts.1)

unfoldable pub parse_push_spec : Bytes → Result Bytes (Bool × Bytes × Bytes)
parse_push_spec spec =
    let stripped : Bytes × Bool = strip_force spec in
    push_parts stripped.1 (split_once 58 stripped.0)

unfoldable pub is_already_up_to_date : Option Bytes → Bytes → Bool
is_already_up_to_date none new_target = false
is_already_up_to_date (some prev) new_target = eqb prev new_target

strip_force-none :
    (spec : Bytes) → strip_prefix (bytes "+") spec ≡ none → strip_force spec ≡ (spec, false)
unfolding strip_force
strip_force-none spec unsigned = ground (arith, unsigned)

-- A character of a push's source.
abbrev pub NoColon : ℕ → Type 0
NoColon x = x ≢ 58

split_once-colon :
    (src dst : Bytes) → All NoColon src → split_once 58 (src ++ (58 ∷ dst)) ≡ some (src, dst)
unfolding split_once
split_once-colon [] dst h = refl
split_once-colon (x ∷ xs) dst h = ground (arith, split_once-colon xs dst)

-- A forced push of a source without a colon is read as that source and all that follows the colon.
pub parse_push_spec-forced :
    (src dst : Bytes)
    → All NoColon src
    → parse_push_spec (43 ∷ (src ++ (58 ∷ dst))) ≡ ok (true, src, dst)
unfolding parse_push_spec push_parts strip_force strip_prefix
parse_push_spec-forced src dst h = ap (push_parts true) (split_once-colon src dst h)

-- Without the sign, the push is not forced; the source is empty when the ref is to be deleted.
pub parse_push_spec-unforced :
    (src dst : Bytes)
    → All NoColon src
    → strip_prefix (bytes "+") (src ++ (58 ∷ dst)) ≡ none
    → parse_push_spec (src ++ (58 ∷ dst)) ≡ ok (false, src, dst)
unfolding parse_push_spec push_parts
parse_push_spec-unforced src dst h unsigned =
    rw (strip_force-none (src ++ (58 ∷ dst)) unsigned)
      (ap (push_parts false) (split_once-colon src dst h))
