-- ===== src/Tests/RepoTests.antt =====
-- The theorems on a repo's state, at concrete states.
use freenet_git.Prelude.{arith, All, ◌≡◌, refl, ◌↔◌, Bytes, bytes, [], ◌∷◌, some}
use freenet_git.BTreeMap.Order.{cmp, eqb}
use freenet_git.Outcome.{ok}
use freenet_git.Encoding.LittleEndian.{to_le_bytes}
use freenet_git.Encoding.Signed.{field_bytes, field_str, field_u64, build, domain, new}
use freenet_git.Encoding.Signed.Fields.{fields, Fits}
use freenet_git.Repo.State.{RepoState, IsOrdered}
use freenet_git.Repo.Payload.{
  params_repo_key, signed_payload_ref_entry, signed_payload_string_field,
}
use freenet_git.Repo.Validate.{
  validate_state, validate_ref, verify_ref_entry, for_entries, pubkey_prefix, check_size,
  verify_signature, verify_signed_field_string,
}
use freenet_git.Signing.{initial_repo_state, domain_key}
use freenet_git.BTreeMap.{get}
use freenet_git.Repo.State.{RefEntry, default_state}
use freenet_git.Repo.Merge.{merge_state, pick_ref_entry, update_state}
use freenet_git.Repo.Merge.Laws.{OneStamp, Coherent, merge_state_comm, merge_state_assoc}
use freenet_git.Repo.Merge.Newer.{IsNewer, merge_state-IsNewer}
use freenet_git.Repo.Merge.Valid.{update_state_valid}
use freenet_git.Repo.Validate.Authorized.{IsAuthorized}
use freenet_git.Repo.Validate.Exact.{validate_state_iff}
use freenet_git.Repo.Payload.Content.{name, payload, ref_update, suffix, contents}
use freenet_git.Repo.Payload.Unique.{payload-injective}
use freenet_git.Repo.Delta.{get_state_delta, summarize_state}
use freenet_git.Repo.Delta.Ties.{tie_never_sent}
use freenet_git.Signing.Accepted.{IsPrefix, StartsWith, initial_repo_state_ok}
use freenet_git.Repo.Delta.Sync.{
  OneSeq, SingleWriter, exchange_converges, merge_state-get_state_delta,
}
use freenet_git.Tests.{
  test_crypto, test_crypto-SignsVerify, length-blake3, owner, params, state_one, state_two, tip,
}

state_one-IsOrdered : IsOrdered state_one
unfolding cmp
state_one-IsOrdered = record { refs = ((refl, tt), (tt, tt)); object_index = tt; extensions = tt }

state_two-IsOrdered : IsOrdered state_two
state_two-IsOrdered = record { refs = (tt, tt); object_index = tt; extensions = tt }

state_one_valid : validate_state test_crypto params state_one ≡ ok tt
unfolding verify_signed_field_string signed_payload_string_field validate_state validate_ref
    verify_ref_entry for_entries pubkey_prefix check_size verify_signature signed_payload_ref_entry
    params_repo_key field_bytes field_str field_u64 build eqb cmp new to_le_bytes fields
state_one_valid = refl

state_two_valid : validate_state test_crypto params state_two ≡ ok tt
unfolding validate_state validate_ref verify_ref_entry for_entries pubkey_prefix check_size
    verify_signature signed_payload_ref_entry params_repo_key field_bytes field_str field_u64 build
    eqb cmp new to_le_bytes fields
state_two_valid = refl

one_stamp :
    (k : Bytes)
    → OneStamp
        (λ (e : RefEntry). e.update_seq)
        (λ e. e.signature)
        (get k state_one.refs)
        (get k state_two.refs)
unfolding get
one_stamp k = ground arith

one_seq :
    (k : Bytes)
    → OneSeq (λ (e : RefEntry). e.update_seq) (get k state_one.refs) (get k state_two.refs)
unfolding get
one_seq k = ground arith

coherent : Coherent state_one state_two
unfolding get
coherent = record {
  owner = refl;
  name = tt;
  description = tt;
  default_branch = tt;
  force_push_allowed = tt;
  acl = tt;
  upgrade = tt;
  refs = one_stamp;
  object_index = λ k. tt;
  extensions = λ k. tt;
}

one_writer : SingleWriter state_one state_two
unfolding get
one_writer = record {
  name = tt;
  description = tt;
  default_branch = tt;
  force_push_allowed = tt;
  acl = tt;
  upgrade = tt;
  refs = one_seq;
  extensions = λ k. tt;
}

one_writer_back : SingleWriter state_two state_one
unfolding get
one_writer_back = record {
  name = tt;
  description = tt;
  default_branch = tt;
  force_push_allowed = tt;
  acl = tt;
  upgrade = tt;
  refs = λ k. ground arith;
  extensions = λ k. tt;
}

validate_state_iff_example :
    (validate_state test_crypto params state_one ≡ ok tt)
    ↔ IsAuthorized test_crypto params state_one
validate_state_iff_example = validate_state_iff test_crypto params state_one state_one-IsOrdered

exchange_converges_example :
    merge_state state_one (get_state_delta state_two (summarize_state state_one))
    ≡ merge_state state_two (get_state_delta state_one (summarize_state state_two))
exchange_converges_example =
    exchange_converges state_one state_two state_one-IsOrdered state_two-IsOrdered coherent
      one_writer one_writer_back

merge_state-get_state_delta_example :
    merge_state state_one (get_state_delta state_two (summarize_state state_one))
    ≡ merge_state state_one state_two
merge_state-get_state_delta_example =
    merge_state-get_state_delta state_one state_two state_one-IsOrdered state_two-IsOrdered
      one_writer

update_state_valid_example :
    (update_state test_crypto params state_one state_two ≡ ok (merge_state state_one state_two))
    × (validate_state test_crypto params (merge_state state_one state_two) ≡ ok tt)
update_state_valid_example =
    update_state_valid test_crypto params state_one state_two state_one-IsOrdered
      state_two-IsOrdered refl state_one_valid state_two_valid

merge_state_comm_example : merge_state state_one state_two ≡ merge_state state_two state_one
merge_state_comm_example =
    merge_state_comm state_one state_two coherent state_one-IsOrdered state_two-IsOrdered

merge_state_assoc_example :
    merge_state (merge_state state_one state_two) state_one
    ≡ merge_state state_one (merge_state state_two state_one)
merge_state_assoc_example =
    merge_state_assoc state_one state_two state_one state_one-IsOrdered state_two-IsOrdered
      state_one-IsOrdered

merge_state-IsNewer_example :
    IsNewer state_one (merge_state state_one state_two)
    × IsNewer state_two (merge_state state_one state_two)
merge_state-IsNewer_example = merge_state-IsNewer state_one state_two state_two-IsOrdered

-- The ref of `state_one` at the same number with another target.
abbrev tied : RefEntry
tied = tip (bytes "main") (bytes "z") 2

abbrev state_tied : RepoState
state_tied = record default_state { owner = owner; refs = (bytes "main", tied) ∷ [] }

one_main : get (bytes "main") state_one.refs ≡ some (tip (bytes "main") (bytes "b") 2)
unfolding get cmp
one_main = refl

tied_main : get (bytes "main") state_tied.refs ≡ some tied
unfolding get cmp
tied_main = refl

tie_never_sent_example :
    (get
        (bytes "main")
        (merge_state state_one (get_state_delta state_tied (summarize_state state_one))).refs
      ≡ some (tip (bytes "main") (bytes "b") 2))
    × (get
          (bytes "main")
          (merge_state state_tied (get_state_delta state_one (summarize_state state_tied))).refs
        ≡ some tied)
    × (get (bytes "main") (merge_state state_one state_tied).refs
        ≡ some (pick_ref_entry (tip (bytes "main") (bytes "b") 2) tied))
tie_never_sent_example =
    tie_never_sent state_one state_tied (bytes "main") (tip (bytes "main") (bytes "b") 2) tied
      state_one-IsOrdered (record { refs = (tt, tt); object_index = tt; extensions = tt }) one_main
      tied_main refl

-- The payload of the name field.
abbrev name_payload : Bytes
name_payload =
    fields (domain (suffix (name (bytes "repo") 1)) ∷ owner ∷ contents (name (bytes "repo") 1))

ref-Fits : All Fits (
    domain (bytes "ref-update")
    ∷ domain_key test_crypto params owner
    ∷ contents (ref_update (bytes "main") (bytes "abc") 3 0))
unfolding params_repo_key to_le_bytes build new field_bytes field_str
ref-Fits =
    (omega arith, (omega arith, (omega arith, (omega arith, (omega arith, (omega arith, tt))))))

payload_of_name : payload owner (name (bytes "repo") 1) ≡ some name_payload
unfolding payload signed_payload_string_field build new field_bytes field_str field_u64 to_le_bytes
    fields
payload_of_name = refl

payload-injective_example : (owner ≡ owner) × (name (bytes "repo") 1 ≡ name (bytes "repo") 1)
payload-injective_example =
    payload-injective owner owner (name (bytes "repo") 1) (name (bytes "repo") 1) name_payload
      (omega arith) (omega arith) payload_of_name payload_of_name

key_prefix : IsPrefix test_crypto test_crypto-SignsVerify owner params
unfolding pubkey_prefix
key_prefix = record {
  long_enough = omega arith;
  short_enough = omega arith;
  base58 = (bytes "ownerkey", refl);
  matches = refl;
}

initial_repo_state_ok_example :
    (s : RepoState) × (initial_repo_state test_crypto params owner
        (bytes "repo")
        (bytes "a repo")
        (bytes "main")
      ≡ some s)
    × StartsWith (test_crypto.verifying_key owner) (bytes "repo") (bytes "a repo") (bytes "main") s
    × (validate_state test_crypto params s ≡ ok tt)
initial_repo_state_ok_example =
    initial_repo_state_ok test_crypto test_crypto-SignsVerify owner params length-blake3
      (bytes "repo") (bytes "a repo") (bytes "main") (omega arith) (omega arith) (omega arith)
      key_prefix
