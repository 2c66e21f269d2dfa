-- ===== src/Url/RoundTrip.antt =====
-- Parsing undoes formatting, and the label does not matter to what a URL names.
use freenet_git.Prelude.{
  ℕ, ◌≡◌, ◌≢◌, refl, ap, ◌≤◌, Bytes, bytes, [], ◌∷◌, ◌++◌, length, All, Option, none, some,
  strip_prefix, arith,
}
use freenet_git.Crypto.{Crypto}
use freenet_git.Outcome.{ok}
use freenet_git.Repo.State.{min_prefix_len, max_prefix_len}
use freenet_git.Url.{
  split_once, body_of, label_of, prefix_and_label, split_label, check_prefix, parse_body, parse,
  format_with_label, format_git_url_with_label,
}

-- Neither `/` nor `:`, which are not in the base58 alphabet.
abbrev pub NoSeparator : ℕ → Type 0
NoSeparator x = (x ≢ 47) × (x ≢ 58)

-- A prefix that `parse` takes.
pub record IsUrlPrefix (c : Crypto) (p : Bytes) : Type 0 where
  pub long_enough : min_prefix_len ≤ length p
  pub short_enough : length p ≤ max_prefix_len
  pub base58 : (bs : Bytes) × (c.bs58_decode p ≡ some bs)
  pub alphabet : All NoSeparator p

split_once-none : (p : Bytes) → All NoSeparator p → split_once 47 p ≡ none
unfolding split_once
split_once-none [] h = refl
split_once-none (x ∷ xs) h = ground (arith, split_once-none xs)

split_once-some : (p l : Bytes) → All NoSeparator p → split_once 47 (p ++ (47 ∷ l)) ≡ some (p, l)
unfolding split_once
split_once-some [] l h = refl
split_once-some (x ∷ xs) l h = ground (arith, split_once-some xs l)

-- What stands behind the scheme.
abbrev pub with_label : Bytes → Option Bytes → Bytes
with_label p none = p
with_label p (some l) = p ++ (47 ∷ l)

-- `parse` makes no difference between no label and an empty one.
abbrev pub normal : Option Bytes → Option Bytes
normal none = none
normal (some l) = label_of l

split_label-with_label :
    (p : Bytes) (l : Option Bytes)
    → All NoSeparator p
    → split_label (with_label p l) ≡ (p, normal l)
unfolding split_label prefix_and_label
split_label-with_label p none h = ap (prefix_and_label p) (split_once-none p h)
split_label-with_label p (some l) h = ap (prefix_and_label (p ++ (47 ∷ l))) (split_once-some p l h)

body_of-freenet : (x : ℕ) (s : Bytes) → x ≢ 58 → body_of (bytes "freenet:" ++ (x ∷ s)) ≡ x ∷ s
unfolding body_of strip_prefix
body_of-freenet x s h = ground arith

body_of-git : (s : Bytes) → body_of (bytes "freenet::" ++ s) ≡ s
unfolding body_of strip_prefix
body_of-git s = refl

module _ (c : Crypto) where
  check_prefix-ok :
      (p : Bytes) (l : Option Bytes)
      → IsUrlPrefix c p
      → check_prefix c p l ≡ ok (record { prefix = p; label = l })
  unfolding check_prefix
  check_prefix-ok p l h =
      let long = h.long_enough in let short = h.short_enough in rw (h.base58.1) (ground arith)

  parse_body-with_label :
      (p : Bytes) (l : Option Bytes)
      → IsUrlPrefix c p
      → parse_body c (with_label p l) ≡ ok (record { prefix = p; label = normal l })
  unfolding parse_body
  parse_body-with_label [] l h = absurd (ground (arith, h.long_enough))
  parse_body-with_label (x ∷ xs) none h =
      rw (split_label-with_label (x ∷ xs) none h.alphabet) (check_prefix-ok (x ∷ xs) none h)
  parse_body-with_label (x ∷ xs) (some l) h =
      rw (split_label-with_label (x ∷ xs) (some l) h.alphabet)
        (check_prefix-ok (x ∷ xs) (label_of l) h)

  body_of-format :
      (p : Bytes) (l : Option Bytes)
      → IsUrlPrefix c p
      → body_of (format_with_label p l) ≡ with_label p l
  unfolding format_with_label
  body_of-format [] l h = absurd (ground (arith, h.long_enough))
  body_of-format (x ∷ xs) none h = body_of-freenet x xs h.alphabet.0.1
  body_of-format (x ∷ xs) (some l) h = body_of-freenet x (xs ++ (47 ∷ l)) h.alphabet.0.1

  body_of-format_git :
      (p : Bytes) (l : Option Bytes) → body_of (format_git_url_with_label p l) ≡ with_label p l
  unfolding format_git_url_with_label
  body_of-format_git p none = body_of-git p
  body_of-format_git p (some l) = body_of-git (p ++ (47 ∷ l))

  -- For a base58 prefix within the limits, the display URL and the git URL both parse back to the
  -- prefix and the label, an empty label being none.
  pub parse-format_with_label :
      (p : Bytes) (l : Option Bytes)
      → IsUrlPrefix c p
      → (parse c (format_with_label p l) ≡ ok (record { prefix = p; label = normal l }))
        × (parse c (format_git_url_with_label p l) ≡ ok (record { prefix = p; label = normal l }))
  unfolding parse
  parse-format_with_label p l h = (
    rw (body_of-format p l h) (parse_body-with_label p l h),
    rw (body_of-format_git p l) (parse_body-with_label p l h),
  )
