-- ===== src/Url.antt =====
-- crates/freenet-git/src/url.rs: the `freenet:` URL of a repo, a prefix and a label.
pub mod RoundTrip
use freenet_git.Prelude.{
  ℕ, Bytes, bytes, List, [], ◌∷◌, ◌++◌, length, Option, none, some, ◌==◌, ltb, ◌||◌, if◌then◌else◌,
  strip_prefix,
}
use mathlib.Core.Option
use freenet_git.Crypto.{Crypto}
use freenet_git.Outcome.{Result, ok, err, ◌>>=◌, ok_or}
use freenet_git.Repo.State.{min_prefix_len, max_prefix_len}

pub data UrlError : Type 0 where
  -- The length, the least and the greatest one.
  invalid_prefix_length : ℕ → ℕ → ℕ → UrlError
  invalid_prefix_chars : UrlError
  empty : UrlError

pub record ParsedUrl : Type 0 where
  pub prefix : Bytes
  pub label : Option Bytes

-- `str::split_once` on one ASCII character.
unfoldable pub split_once : ℕ → Bytes → Option (Bytes × Bytes)
split_once sep [] = none
split_once sep (x ∷ xs) =
    if x == sep then some ([], xs) else Option.map (λ p. (x ∷ p.0, p.1)) (split_once sep xs)

-- `strip_prefix(..).or_else(..).unwrap_or(url)`.
unfoldable pub body_of : Bytes → Bytes
body_of url = elim (strip_prefix (bytes "freenet::") url) [
  | some body ↦ body
  | none ↦ elim (strip_prefix (bytes "freenet:") url) [ some body ↦ body | none ↦ url ]
]

-- `if rest.is_empty() { None } else { Some(rest) }`.
unfoldable pub label_of : Bytes → Option Bytes
label_of [] = none
label_of (x ∷ xs) = some (x ∷ xs)

-- The match on `body.split_once('/')`.
unfoldable pub prefix_and_label : Bytes → Option (Bytes × Bytes) → Bytes × Option Bytes
prefix_and_label body none = (body, none)
prefix_and_label body (some (p, rest)) = (p, label_of rest)

unfoldable pub split_label : Bytes → Bytes × Option Bytes
split_label body = prefix_and_label body (split_once 47 body)

module _ (c : Crypto) where
  -- The checks behind the split.
  unfoldable pub check_prefix : Bytes → Option Bytes → Result UrlError ParsedUrl
  check_prefix prefix label =
      if ltb (length prefix) min_prefix_len || ltb max_prefix_len (length prefix)
      then err (invalid_prefix_length (length prefix) min_prefix_len max_prefix_len)
      else do
        bs ← ok_or invalid_prefix_chars (c.bs58_decode prefix)
        ok (record { prefix = prefix; label = label })

  unfoldable pub parse_body : Bytes → Result UrlError ParsedUrl
  parse_body [] = err empty
  parse_body (x ∷ xs) = check_prefix (split_label (x ∷ xs)).0 (split_label (x ∷ xs)).1

  unfoldable pub parse : Bytes → Result UrlError ParsedUrl
  parse url = parse_body (body_of url)

  unfoldable pub parse_prefix : Bytes → Result UrlError Bytes
  parse_prefix url = do p ← parse url; ok p.prefix

unfoldable pub format_with_label : Bytes → Option Bytes → Bytes
format_with_label prefix none = bytes "freenet:" ++ prefix
format_with_label prefix (some l) = bytes "freenet:" ++ (prefix ++ (47 ∷ l))

unfoldable pub format_git_url_with_label : Bytes → Option Bytes → Bytes
format_git_url_with_label prefix none = bytes "freenet::" ++ prefix
format_git_url_with_label prefix (some l) = bytes "freenet::" ++ (prefix ++ (47 ∷ l))

unfoldable pub format : Bytes → Bytes
format prefix = bytes "freenet:" ++ prefix

unfoldable pub format_git_url : Bytes → Bytes
format_git_url prefix = bytes "freenet::" ++ prefix
