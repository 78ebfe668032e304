-- ===== src/PolicyService/PolicyList.antt =====
-- services/policy-service/src/server.ts: the list of policies, page by page. Timestamps and ids are
-- texts, compared by their code points, which for the ASCII of both is JavaScript's order. Node's
-- base64url coding of a text is an argument.
pub mod Order
pub mod Walk
mod Tests
use Prim.Native.Char.{code}
use Prim.Native.String
use vellar_dapp.PolicyService.Deployment.{
  PolicyStatus, generated, instance_deployed, deployed, PolicyInstance, PolicyDeployment,
  PolicyRecord, Waiting, OnChain, World, DeploymentDeps, Reply, replied, failure, deployable_args,
  validate_policy_for_deployment, deploy_fee, DeployRequest, is_consumed, consume, start,
  begin_with, begin_found, begin_deploy, DeployOutcome, instance_made, deploy_refused, deploy_broke,
  FinishRequest, take_waiting, with_instance, instance_from, commit, settle, finish_taken,
  finish_deploy, AttachRequest, attach_reply, target_of, with_attach, record_attach,
  attach_verified, verify_and_record_attach, attach_found, Step, begin, finish, attach, step, run,
  Orphan, is_recorded, instance_is, deployment_is, already_recorded, first_deployed_at,
  instance_of_orphan, reconcile_found, reconcile_with, reconcile_orphaned_deployment,
}
use vellar_dapp.Prelude.{
  ltb, ◌==◌, if◌then◌else◌, length, take, filter, ℕ, String, ◌<>◌, Bool, true, false, not, ◌&&◌,
  ◌||◌, Option, none, some, List, [], ◌∷◌, str_eq,
}

-- s < t
unfoldable pub less : String → String → Bool
less String.[] String.[] = false
less String.[] (String.◌∷◌ d t) = true
less (String.◌∷◌ c s) String.[] = false
less (String.◌∷◌ c s) (String.◌∷◌ d t) =
    let rest = less s t in
    if ltb (code c) (code d) then true else if ltb (code d) (code c) then false else rest

-- A listed policy: what the list reads of its record.
pub record Listed : Type 0 where
  pub created_at : String
  pub id : String
  pub status : PolicyStatus

-- By the time of creation, and by the id where that is the same.
unfoldable pub older : String × String → String × String → Bool
older a b = if str_eq a.0 b.0 then less a.1 b.1 else less a.0 b.0

abbrev pub position : Listed → String × String
position r = (r.created_at, r.id)

unfoldable pub insert_newest : Listed → List Listed → List Listed
insert_newest r [] = r ∷ []
insert_newest r (s ∷ ss) =
    let later = s ∷ insert_newest r ss in
    if older (position r) (position s) then later else r ∷ s ∷ ss

-- filtered.sort(…), newest first
unfoldable pub newest_first : List Listed → List Listed
newest_first [] = []
newest_first (r ∷ rs) = insert_newest r (newest_first rs)

pub record PolicyListFilter : Type 0 where
  pub only_status : Option PolicyStatus
  pub created_after : Option String
  pub created_before : Option String

abbrev pub same_status : PolicyStatus → PolicyStatus → Bool
same_status generated generated = true
same_status instance_deployed instance_deployed = true
same_status deployed deployed = true
same_status _ _ = false

abbrev pub passes {ℓ} : {A : Type ℓ} → (A → Bool) → Option A → Bool
passes p none = true
passes p (some a) = p a

abbrev pub matches : PolicyListFilter → Listed → Bool
matches f r =
    passes (same_status r.status) f.only_status
    && (passes (λ t. not (less r.created_at t)) f.created_after
        && passes (λ t. not (less t r.created_at)) f.created_before)

-- The list before a cursor is applied.
unfoldable pub matching : PolicyListFilter → List Listed → List Listed
matching f records = newest_first (filter (matches f) records)

-- Around the last `:` of a text.
unfoldable pub split_last : String → Option (String × String)
split_last String.[] = none
split_last (String.◌∷◌ c s) = elim (split_last s) [
  | some (a, b) ↦ some (String.◌∷◌ c a, b)
  | none ↦ if code c == 58 then some ("", s) else none
]

abbrev pub last? : List Listed → Option Listed
last? [] = none
last? (r ∷ rs) = elim (last? rs) [ none ↦ some r | some s ↦ some s ]

pub record PolicyPage : Type 0 where
  pub policies : List Listed
  pub has_more : Bool
  pub next_cursor : Option String

module _ (encode64 decode64 : String → String) where
  unfoldable pub encode_policy_cursor : String × String → String
  encode_policy_cursor p = encode64 (p.0 <> (":" <> p.1))

  abbrev pub both_parts : Option (String × String) → Option (String × String)
  both_parts none = none
  both_parts (some (a, b)) = if str_eq a "" || str_eq b "" then none else some (a, b)

  -- `none` where the cursor is malformed.
  unfoldable pub decode_policy_cursor : String → Option (String × String)
  unfolding split_last
  decode_policy_cursor cursor = both_parts (split_last (decode64 cursor))

  abbrev pub cursor_of : Option Listed → Option String
  cursor_of none = none
  cursor_of (some r) = some (encode_policy_cursor (position r))

  abbrev pub page_of : List Listed → ℕ → PolicyPage
  page_of rows limit =
      if ltb limit (length rows)
      then record {
        policies = take limit rows;
        has_more = true;
        next_cursor = cursor_of (last? (take limit rows));
      }
      else record { policies = rows; has_more = false; next_cursor = none }

  abbrev pub page_after : List Listed → ℕ → Option (String × String) → Option PolicyPage
  page_after rows limit none = none
  page_after rows limit (some c) = some (page_of (filter (λ r. older (position r) c) rows) limit)

  -- listPage; `none` where it throws.
  unfoldable pub list_page : List Listed → PolicyListFilter → ℕ → Option String → Option PolicyPage
  list_page records f limit none = some (page_of (matching f records) limit)
  list_page records f limit (some cursor) =
      page_after (matching f records) limit (decode_policy_cursor cursor)
