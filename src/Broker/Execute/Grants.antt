-- ===== src/Broker/Execute/Grants.antt =====
-- The rule, and the approval where the rule asks for one, behind every call of a provider.
use jiritsu.Base.{true, ok, some, [], ◌∷◌, ◌++◌, ◌≡◌, ◌⊎◌, arith, inl, inr}
use jiritsu.Broker.Model.{Request}
use jiritsu.Broker.Policy.{allow, deny, require_approval, Rule, Policy, evaluate}
use jiritsu.Broker.Policy.Decisions.{IsFirst, Covers, evaluate_iff}
use jiritsu.Broker.Approvals.{check_approval, is_approved}
use jiritsu.Broker.Approvals.Sound.{IsApproved, check_approval_iff}
use jiritsu.Broker.Operations.{Operation, Decision, Call, operations, find}
use jiritsu.Broker.Audit.{Journal}
use jiritsu.Broker.Execute.{
  World, approval_directory, with_result, with_approval, policy_decision, decide, execute_request,
}
use jiritsu.Broker.Execute.Calls.{execute_request-CallsOnly}

-- The first rule that matches covers the operation's authorities, and allows the operation or asks
-- for an approval that is there.
pub record IsPermitted (w : World) (r : Request) (p : Policy) (o : Operation) (rule : Rule)
    : Type 0 where
  pub first : IsFirst p.rules w.principals r.operation rule
  pub covers : Covers rule.authorities o.authorities
  pub decision :
      (rule.decision ≡ allow)
      ⊎ ((rule.decision ≡ require_approval)
          × IsApproved w.sha256 w.fromisoformat (w.approvals (approval_directory w p)) r)

module _ (w : World) (r : Request) (p : Policy) (denies : p.default ≡ deny) where
  decide-allow :
      (o : Operation) (d : Decision)
      → decide w r p o ≡ ok d
      → d.outcome ≡ allow
      → ((evaluate p w.principals r.operation o.authorities).outcome ≡ allow)
        ⊎ (((evaluate p w.principals r.operation o.authorities).outcome ≡ require_approval)
            × (is_approved (
                  check_approval w.sha256 w.fromisoformat
                    (w.approvals (approval_directory w p))
                    r
                    (approval_directory w p))
                ≡ true))
  unfolding decide with_approval with_result policy_decision
  decide-allow o d e h = ground arith

  decide-IsPermitted :
      (o : Operation) (d : Decision)
      → decide w r p o ≡ ok d
      → d.outcome ≡ allow
      → (rule : Rule) × IsPermitted w r p o rule
  decide-IsPermitted o d decided h = elim (decide-allow o d decided h) [
    | inl e ↦
        let (rule, d) =
          (evaluate_iff p w.principals r.operation o.authorities allow denies (λ q. cc)).0 e in
        (rule, record { first = d.first; covers = d.covers; decision = inl d.decision })
    | inr (e, a) ↦
        let (rule, d) =
          (evaluate_iff p w.principals r.operation o.authorities require_approval denies
              (λ q. cc)).0
            e in
        (
          rule,
          record {
            first = d.first;
            covers = d.covers;
            decision = inr (
              d.decision,
              (check_approval_iff w.sha256 w.fromisoformat _ r (approval_directory w p)).0 a,
            );
          },
        )
  ]

  -- Executing a request calls no provider, or exactly one, for a registered operation that the first
  -- matching rule permits: it covers the operation's authorities, and it allows the operation or
  -- asks for an approval of this very request that is valid now.
  pub execute_request-IsPermitted :
      (j : Journal)
      → ((execute_request w r p j).1.calls ≡ j.calls)
        ⊎ ((c : Call) × ((execute_request w r p j).1.calls ≡ j.calls ++ (c ∷ []))
            × ((o : Operation) × (find operations r.operation ≡ some o)
                × ((rule : Rule) × IsPermitted w r p o rule)))
  execute_request-IsPermitted j = elim ((execute_request-CallsOnly w r p).at j) [
    | inl s ↦ inl s
    | inr (c, a, s) ↦ inr (
      c,
      s,
      (a.operation, a.registered, decide-IsPermitted a.operation a.decision a.decided a.allowed),
    )
  ]
