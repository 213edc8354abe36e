-- ===== src/Broker/Execute/Completion.antt =====
-- With working files every execution of a new request returns, and records its result.
use jiritsu.Base.{◌+◌, String, some, ◌≡◌, if◌then◌else◌, ok, err}
use jiritsu.Broker.Model.{BrokerError, Exception, broker, Request}
use jiritsu.Broker.Policy.{Policy}
use jiritsu.Broker.Operations.{Operation, operations, find}
use jiritsu.Broker.Approvals.{ApprovalResult, check_approval}
use jiritsu.Broker.Audit.{Response, Journal, Exec, is_terminal}
use jiritsu.Broker.Audit.Records.{terminal_count}
use jiritsu.Broker.Execute.{World, approval_directory}

module _ (id : String) where
  -- `m` returns, and adds no terminal result of `id`.
  pub record IsSmooth {A : Type 0} (m : Exec A) : Type 0 where
    pub at :
        (j : Journal)
        → (a : A) × ((m j).0 ≡ ok a) × (terminal_count id (m j).1.lines ≡ terminal_count id j.lines)

  -- `m` returns a response, and records it: a terminal one counts.
  pub record Ends (m : Exec Response) : Type 0 where
    pub at :
        (j : Journal)
        → (x : Response) × ((m j).0 ≡ ok x)
          × (terminal_count id (m j).1.lines
              ≡ terminal_count id j.lines + (if is_terminal x.status then 1 else 0))

-- The validator of the request's operation raises broker errors only.
abbrev pub RaisesOwn : Request → Type 0
RaisesOwn r =
    (o : Operation) (e : Exception)
    → find operations r.operation ≡ some o
    → o.validator r.arguments ≡ err e
    → (b : BrokerError) × (e ≡ broker b)

-- The check for an external approval of the request returns.
abbrev pub Answers : World → Request → Policy → Type 0
Answers w r p =
    (a : ApprovalResult) × (check_approval w.sha256 w.fromisoformat
        (w.approvals (approval_directory w p)) r (approval_directory w p)
      ≡ ok a)
