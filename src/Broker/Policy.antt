-- ===== src/Broker/Policy.antt =====
-- jiritsu_broker/policy.py: rules, the policy's file and the decision for an operation.
pub mod Load
pub mod Decisions
use jiritsu.Base.{
  ℕ, String, ◌<>◌, Bool, not, ◌&&◌, ◌||◌, Option, none, some, List, [], ◌∷◌, minus, sorted,
  disjoint, contains, decimal, join, null, if◌then◌else◌,
}

pub data Outcome : Type 0 where
  allow deny require_approval : Outcome

abbrev pub outcome_text : Outcome → String
outcome_text allow = "allow"
outcome_text deny = "deny"
outcome_text require_approval = "require_approval"

pub record Rule : Type 0 where
  pub rule_id : String
  pub principals : List String
  pub operations : List String
  pub decision : Outcome
  pub authorities : List String

-- `Rule.matches`
unfoldable pub matches : Rule → List String → String → Bool
matches rule principals operation =
    (contains rule.principals "*" || not (disjoint principals rule.principals))
    && (contains rule.operations "*" || contains rule.operations operation)

pub record PolicyDecision : Type 0 where
  pub outcome : Outcome
  pub rule_id : Option String
  pub principal : String
  pub required_authorities : List String
  pub granted_authorities : List String
  pub reason : String

pub record Policy : Type 0 where
  pub source : String
  pub default : Outcome
  pub rules : List Rule
  pub approval_directory : Option String

-- `current_principals`, from the effective user and its entry in the user database.
unfoldable pub current_principals : ℕ → Option String → List String
current_principals euid none = ("uid:" <> decimal euid) ∷ []
current_principals euid (some name) = ("uid:" <> decimal euid) ∷ ("user:" <> name) ∷ []

-- `next((rule for rule in rules if rule.matches(...)), None)`
unfoldable pub first_match : List Rule → List String → String → Option Rule
first_match [] principals operation = none
first_match (r ∷ rs) principals operation =
    if matches r principals operation then some r else first_match rs principals operation

-- `principals[0]`; the list is never empty.
abbrev pub principal_of : List String → String
principal_of [] = ""
principal_of (p ∷ ps) = p

-- The decision by the rule that matched.
decide_by : Rule → String → List String → PolicyDecision
decide_by rule principal required =
    let missing = sorted (minus required rule.authorities) in
    if null missing
    then record {
      outcome = rule.decision;
      rule_id = some rule.rule_id;
      principal = principal;
      required_authorities = required;
      granted_authorities = required;
      reason = "first matching rule selected " <> outcome_text rule.decision;
    }
    else record {
      outcome = deny;
      rule_id = some rule.rule_id;
      principal = principal;
      required_authorities = required;
      granted_authorities = [];
      reason = "matching rule does not grant required authority: " <> join ", " missing;
    }

decide_found : Option Rule → Outcome → String → List String → PolicyDecision
unfolding decide_by
decide_found (some rule) default principal required = decide_by rule principal required
decide_found none default principal required = record {
  outcome = default;
  rule_id = none;
  principal = principal;
  required_authorities = required;
  granted_authorities = [];
  reason = "no rule matched; policy default is " <> outcome_text default;
}

-- `Policy.evaluate`, for the principals of the process
unfoldable pub evaluate : Policy → List String → String → List String → PolicyDecision
unfolding decide_found
evaluate policy principals operation required =
    decide_found (first_match policy.rules principals operation) policy.default
      (principal_of principals) required
