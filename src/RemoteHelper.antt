-- ===== src/RemoteHelper.antt =====
-- The git remote helper, crates/freenet-git/src/bin/git-remote-freenet.rs: the search of the local
-- history for commits that are still to be fetched.
pub mod Visits
pub mod Total
pub mod Exact
pub mod FetchLoop
pub mod Commands
use freenet_git.Prelude.{
  ℕ, zero, suc, Bool, true, false, ◌||◌, Option, none, some, List, [], ◌∷◌, Bytes, length,
  if◌then◌else◌,
}
use freenet_git.BTreeMap.{BTreeMap}
use freenet_git.BTreeMap.Order.{eqb}
use freenet_git.Outcome.{Result, ok, err, panic}

-- What the program asks of the git repository, by the commit's id: whether there is such a commit,
-- whether there is any such object, and the commit's parents.
pub record Git : Type 0 where
  pub commit_exists : Bytes → Result Bytes Bool
  pub any_object_exists : Bytes → Result Bytes Bool
  pub git_commit_parents : Bytes → Result Bytes (List Bytes)

-- A `HashSet` of ids is a list, whatever its order.
unfoldable pub has : Bytes → List Bytes → Bool
has c [] = false
has c (x ∷ xs) = eqb c x || has c xs

-- `HashSet::insert`.
unfoldable pub add : Bytes → List Bytes → List Bytes
add c xs = if has c xs then xs else c ∷ xs

-- What the loop finds of the commit that it takes.
pub data Visit : Type 0 where
  seen : Visit
  no_commit : Visit
  missing : Visit
  local : List Bytes → Visit

unfoldable pub visit_object : Result Bytes Bool → Result Bytes Visit
visit_object (ok true) = ok no_commit
visit_object (ok false) = ok missing
visit_object (err e) = err e
visit_object panic = panic

unfoldable pub visit_local : Result Bytes (List Bytes) → Result Bytes Visit
visit_local (ok ps) = ok (local ps)
visit_local (err e) = err e
visit_local panic = panic

-- The object is asked for only if there is no commit, and the parents only if there is one.
unfoldable pub visit_commit :
    Result Bytes Bool → Result Bytes Bool → Result Bytes (List Bytes) → Result Bytes Visit
visit_commit (ok true) object parents = visit_local parents
visit_commit (ok false) object parents = visit_object object
visit_commit (err e) object parents = err e
visit_commit panic object parents = panic

unfoldable pub visit : Git → Bytes → List Bytes → Result Bytes Visit
visit git c walked =
    if has c walked
    then ok seen
    else visit_commit (git.commit_exists c) (git.any_object_exists c) (git.git_commit_parents c)

pub record Walk : Type 0 where
  -- The last pushed is the first.
  pub to_visit : List Bytes
  pub walked : List Bytes
  pub unresolved : List Bytes

-- The loop that pushes the parents that were not walked.
unfoldable pub push_new : List Bytes → List Bytes → List Bytes → List Bytes
push_new [] walked stack = stack
push_new (p ∷ ps) walked stack = push_new ps walked (if has p walked then stack else p ∷ stack)

-- The body of the loop for a commit taken from the stack.
unfoldable pub next : Visit → Bytes → List Bytes → List Bytes → List Bytes → Walk
next seen c stack walked unresolved = record {
  to_visit = stack;
  walked = walked;
  unresolved = unresolved;
}
next no_commit c stack walked unresolved = record {
  to_visit = stack;
  walked = c ∷ walked;
  unresolved = unresolved;
}
next missing c stack walked unresolved = record {
  to_visit = stack;
  walked = walked;
  unresolved = add c unresolved;
}
next (local ps) c stack walked unresolved = record {
  to_visit = push_new ps (c ∷ walked) stack;
  walked = c ∷ walked;
  unresolved = unresolved;
}

-- `?` on what git was asked, in the loop.
unfoldable pub on_visit :
    Result Bytes Visit → (Visit → Option (Result Bytes Walk)) → Option (Result Bytes Walk)
on_visit (ok v) go = go v
on_visit (err e) go = some (err e)
on_visit panic go = some panic

-- The loop; `none` is one that goes on after the fuel.
unfoldable pub walk_loop :
    Git → ℕ → List Bytes → List Bytes → List Bytes → Option (Result Bytes Walk)
walk_loop git fuel [] walked unresolved =
    some (ok (record { to_visit = []; walked = walked; unresolved = unresolved }))
walk_loop git zero (c ∷ stack) walked unresolved = none
walk_loop git (suc fuel) (c ∷ stack) walked unresolved = on_visit (visit git c walked) (λ v.
    let s = next v c stack walked unresolved in walk_loop git fuel s.to_visit s.walked s.unresolved)

-- The wanted commits and what was walked before.
unfoldable pub walk_unresolved_parents :
    Git → ℕ → List Bytes → List Bytes → Option (Result Bytes Walk)
walk_unresolved_parents git fuel wanted walked = walk_loop git fuel wanted walked []
