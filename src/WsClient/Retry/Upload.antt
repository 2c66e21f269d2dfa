-- ===== src/WsClient/Retry/Upload.antt =====
-- The retries of an upload of a pack, crates/freenet-git/src/wsclient.rs.
use freenet_git.Prelude.{
  ℕ, zero, suc, ◌+◌, ◌≤◌, ◌<◌, ◌≡◌, refl, ◌∙◌, sym, ap, ge→ltb, lt→ltb, ◌⊎◌, inl, inr, Option, none,
  some, List, [], ◌∷◌, ◌++◌, Bytes, arith, if◌then◌else◌, ltb,
}
use mathlib.Core.List.{append-nil, append_assoc}
use freenet_git.Crypto.{Crypto}
use freenet_git.WsClient.Host.{Stdlib, WebApi, Answer, got, lost, Error, ContractKey, put_contract}
use freenet_git.WsClient.Probe.{retry_backoff}
use freenet_git.WsClient.Retry.{
  Uploaded, after_put, last_error, put_attempts, put_pack, max_attempts,
}

-- The waits between a number of attempts, from the one of this number on.
abbrev pub backoffs : ℕ → ℕ → List ℕ
backoffs attempt zero = []
backoffs attempt (suc zero) = []
backoffs attempt (suc (suc n)) = retry_backoff attempt ∷ backoffs (attempt + 1) (suc n)

backoffs_more :
    (attempt n : ℕ)
    → 1 ≤ n
    → backoffs attempt (suc n) ≡ retry_backoff attempt ∷ backoffs (attempt + 1) n
backoffs_more attempt zero h = absurd (omega arith)
backoffs_more attempt (suc n) h = refl

module _ (c : Crypto) (lib : Stdlib) (wasm pack wait : Bytes) where
  -- Uploads of one pack in a row, all but the last of which failed, and the answer of the last.
  pub data Tries : ℕ → WebApi → Answer ContractKey → WebApi → Type 0 where
    last :
        (w w' : WebApi) (r : Answer ContractKey)
        → put_contract lib wasm (c.blake3 pack) pack wait w ≡ (r, w')
        → Tries 1 w r w'
    again :
        (n : ℕ) (w v w' : WebApi) (e : Error) (r : Answer ContractKey)
        → put_contract lib wasm (c.blake3 pack) pack wait w ≡ (lost e, v)
        → Tries n v r w'
        → Tries (suc n) w r w'

  -- What the cache is given for an answer.
  abbrev pub to_cache : Answer ContractKey → Option Bytes
  to_cache (got key) = some pack
  to_cache (lost e) = none

  -- What the loop gives with `left` attempts to go.
  record Ended (left attempt : ℕ) (slept : List ℕ) (w : WebApi) (out : Uploaded) : Type 0 where
    n : ℕ
    tries : Tries n w out.result out.web_api
    some_try : 1 ≤ n
    few : n ≤ left
    waits : out.slept ≡ slept ++ backoffs attempt n
    all_used : (n ≡ left) ⊎ ((key : ContractKey) × (out.result ≡ got key))
    cached : out.cached ≡ to_cache out.result

  below_waits :
      (attempt : ℕ) (slept : List ℕ)
      → attempt < 3
      → (if ltb attempt max_attempts then slept ++ retry_backoff attempt ∷ [] else slept)
        ≡ slept ++ retry_backoff attempt ∷ []
  below_waits attempt slept h = rw (lt→ltb attempt 3 h)

  above_waits :
      (attempt : ℕ) (slept : List ℕ)
      → 3 ≤ attempt
      → (if ltb attempt max_attempts then slept ++ retry_backoff attempt ∷ [] else slept) ≡ slept
  above_waits attempt slept h = rw (ge→ltb attempt 3 h)

  after_put-Ended :
      (left attempt : ℕ) (slept : List ℕ) (w v : WebApi) (r : Answer ContractKey)
      (next : Error → List ℕ → Uploaded)
      → put_contract lib wasm (c.blake3 pack) pack wait w ≡ (r, v)
      → ((e : Error) (s : List ℕ)
          → ((attempt < 3) × Ended left (attempt + 1) s v (next e s))
            ⊎ ((left ≡ 0)
                × (3 ≤ attempt)
                × ((next e s).slept ≡ s)
                × ((next e s).result ≡ lost e)
                × ((next e s).web_api ≡ v)
                × ((next e s).cached ≡ none)))
      → Ended (suc left) attempt slept w (after_put pack attempt slept r v next)
  unfolding after_put
  after_put-Ended left attempt slept w v (got key) next h go = record {
    n = 1;
    tries = last w v (got key) h;
    some_try = omega arith;
    few = omega arith;
    waits = sym (append-nil slept);
    all_used = inr (key, refl);
    cached = refl;
  }
  after_put-Ended left attempt slept w v (lost e) next h go =
      let s = if ltb attempt max_attempts then slept ++ retry_backoff attempt ∷ [] else slept in
      elim (go e s) [
        | inl (below, more) ↦ record {
          n = suc more.n;
          tries = again more.n w v (next e s).web_api e (next e s).result h more.tries;
          some_try = omega arith;
          few = omega (arith, more.few);
          waits =
              more.waits
              ∙ ap (λ zs. zs ++ backoffs (attempt + 1) more.n) (below_waits attempt slept below)
              ∙ append_assoc slept (retry_backoff attempt ∷ []) (backoffs (attempt + 1) more.n)
              ∙ ap (λ zs. slept ++ zs) (sym (backoffs_more attempt more.n more.some_try));
          all_used = elim (more.all_used) [
            | inl all ↦ inl (ap suc all)
            | inr some_key ↦ inr some_key
          ];
          cached = more.cached;
        }
        | inr (zero_left, above, slept_same, result, web_api, cached) ↦ record {
          n = 1;
          some_try = omega arith;
          waits = slept_same ∙ above_waits attempt slept above ∙ sym (append-nil slept);
          tries = rw (result, web_api) (last w v (lost e) h);
          few = omega arith;
          all_used = inl (omega arith);
          cached = rw result cached;
        }
      ]

  put_attempts-Ended :
      (left attempt : ℕ) (err : Option Error) (slept : List ℕ) (w : WebApi)
      → attempt + left ≡ 3
      → Ended
          (suc left)
          attempt
          slept
          w
          (put_attempts c lib wasm pack wait (suc left) attempt err slept w)
  unfolding put_attempts last_error
  put_attempts-Ended zero attempt err slept w h =
      let (r, v) = put_contract lib wasm (c.blake3 pack) pack wait w in
      after_put-Ended 0 attempt slept w v r
        (λ e s. put_attempts c lib wasm pack wait 0 (attempt + 1) (some e) s v) refl
        (λ e s. inr (refl, omega (arith, h), refl, refl, refl, refl))
  put_attempts-Ended (suc left) attempt err slept w h =
      let (r, v) = put_contract lib wasm (c.blake3 pack) pack wait w in
      after_put-Ended (suc left) attempt slept w v r
        (λ e s. put_attempts c lib wasm pack wait (suc left) (attempt + 1) (some e) s v) refl
        (λ e s.
          inl (
            omega (arith, h),
            put_attempts-Ended left (attempt + 1) (some e) s v (omega (arith, h)),
          ))

-- An upload of a pack makes at most three attempts, one after the other, under the hash of the pack
-- as parameters; all of them but the last failed, and if the last failed too, then there were three.
-- What the last returned is returned, the waits between them are the backoffs of the attempts'
-- numbers, with none after the last, and the pack is cached exactly if the upload is a success.
pub put_pack-Tries :
    (c : Crypto) (lib : Stdlib) (wasm pack wait : Bytes) (w : WebApi)
    → let out = put_pack c lib wasm pack wait w in
      (n : ℕ) × Tries c lib wasm pack wait n w out.result out.web_api
      × (n ≤ 3)
      × ((n ≡ 3) ⊎ ((key : ContractKey) × (out.result ≡ got key)))
      × (out.slept ≡ backoffs 1 n)
      × (out.cached ≡ to_cache c lib wasm pack wait out.result)
unfolding put_pack
put_pack-Tries c lib wasm pack wait w =
    let ended = put_attempts-Ended c lib wasm pack wait 2 1 none [] w refl in
    (ended.n, ended.tries, ended.few, ended.all_used, ended.waits, ended.cached)
