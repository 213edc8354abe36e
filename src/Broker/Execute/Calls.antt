-- ===== src/Broker/Execute/Calls.antt =====
-- A provider is called only for a request that the policy, or an external approval, lets through.
use jiritsu.Base.{
  String, Bool, true, false, Option, none, some, List, [], ◌∷◌, ◌++◌, ◌≡◌, ◌⊎◌, refl, ◌∙◌, arith,
  ap, if◌then◌else◌, ok, err, Result-cases, inl, inr,
}
use jiritsu.Json.{Value, Fields}
use jiritsu.Broker.Model.{
  broker, type_error, overflow_error, key_error, value_error, unicode_error, Try, Request,
}
use jiritsu.Broker.Policy.{Outcome, allow, deny, require_approval, Policy}
use jiritsu.Broker.Operations.{Operation, Decision, Call, operations, find}
use jiritsu.Broker.Audit.{
  Response, Event, requested, Journal, Files, Exec, lift, ◌>>=◌, ◌>>◌, continue, append,
  request_lock, is_complete,
}
use jiritsu.Broker.Audit.Records.{is_complete_keeps}
use jiritsu.Broker.Execute.{
  World, log, finish, refuse, decide, invoke, perform, carry_out, authorize, check_arguments,
  dispatch, duplicate, execute_locked, execute_request,
}

-- `m` calls no provider, or one, by a call with the property `P`.
pub record CallsOnly {A : Type 0} (P : Call → Type 0) (m : Exec A) : Type 0 where
  pub at :
      (j : Journal)
      → ((m j).1.calls ≡ j.calls) ⊎ ((c : Call) × P c × ((m j).1.calls ≡ j.calls ++ (c ∷ [])))

-- `m` calls no provider.
record IsSilent {A : Type 0} (m : Exec A) : Type 0 where
  at : (j : Journal) → (m j).1.calls ≡ j.calls

IsSilent-append :
    (path : String) (files : Files) (id : String) (e : Event) → IsSilent (append path files id e)
unfolding append
IsSilent-append path files id e = record { at = λ j. ground arith }

IsSilent-lift : {A : Type 0} (r : Try A) → IsSilent (lift r)
IsSilent-lift r = record { at = λ j. refl }

continue-silent :
    {A B : Type 0} (f : A → Exec B)
    → ((a : A) → IsSilent (f a))
    → (t : Try A) (j : Journal) → (continue t f j).1.calls ≡ j.calls
continue-silent f h (ok a) j = (h a).at j
continue-silent f h (err e) j = refl

IsSilent-bind :
    {A B : Type 0} (m : Exec A) (f : A → Exec B)
    → IsSilent m
    → ((a : A) → IsSilent (f a))
    → IsSilent (m >>= f)
IsSilent-bind m f sm sf = record { at = λ j. continue-silent f sf (m j).0 (m j).1 ∙ sm.at j }

module _ (P : Call → Type 0) where
  CallsOnly-of_silent : {A : Type 0} (m : Exec A) → IsSilent m → CallsOnly P m
  CallsOnly-of_silent m s = record { at = λ j. inl (s.at j) }

  continue-calls :
      {A B : Type 0} (f : A → Exec B)
      → ((a : A) → CallsOnly P (f a))
      → (t : Try A) (j : Journal) (old : List Call) → j.calls ≡ old
      → ((continue t f j).1.calls ≡ old)
        ⊎ ((c : Call) × P c × ((continue t f j).1.calls ≡ old ++ (c ∷ [])))
  continue-calls f h (ok a) j old e = elim ((h a).at j) [
    | inl s ↦ inl (s ∙ e)
    | inr (c, p, s) ↦ inr (c, p, s ∙ ap (λ (l : List Call). l ++ (c ∷ [])) e)
  ]
  continue-calls f h (err x) j old e = inl e

  -- Silent first.
  CallsOnly-bind :
      {A B : Type 0} (m : Exec A) (f : A → Exec B)
      → IsSilent m
      → ((a : A) → CallsOnly P (f a))
      → CallsOnly P (m >>= f)
  CallsOnly-bind m f sm cf = record {
    at = λ j. continue-calls f cf (m j).0 (m j).1 j.calls (sm.at j);
  }

  -- Silent afterwards.
  CallsOnly-then :
      {A B : Type 0} (m : Exec A) (f : A → Exec B)
      → CallsOnly P m
      → ((a : A) → IsSilent (f a))
      → CallsOnly P (m >>= f)
  CallsOnly-then m f cm sf = record {
    at = λ j. elim (cm.at j) [
      | inl s ↦ inl (continue-silent f sf (m j).0 (m j).1 ∙ s)
      | inr (c, p, s) ↦ inr (c, p, continue-silent f sf (m j).0 (m j).1 ∙ s)
    ];
  }

CallsOnly-map :
    {A : Type 0} (P Q : Call → Type 0) (m : Exec A)
    → ((c : Call) → P c → Q c)
    → CallsOnly P m
    → CallsOnly Q m
CallsOnly-map P Q m h cm = record {
  at = λ j. elim (cm.at j) [ inl s ↦ inl s | inr (c, p, s) ↦ inr (c, h c p, s) ];
}

-- The registered operation, the validated arguments and the decision from which the call was built.
pub record IsAuthorized (w : World) (r : Request) (p : Policy) (c : Call) : Type 0 where
  pub operation : Operation
  pub arguments : Fields
  pub registered : find operations r.operation ≡ some operation
  pub validated : operation.validator r.arguments ≡ ok arguments
  pub decision : Decision
  pub decided : decide w r p operation ≡ ok decision
  pub allowed : decision.outcome ≡ allow
  pub built : operation.handler r arguments decision ≡ ok c

module _ (w : World) (r : Request) where
  IsSilent-log : (e : Event) → IsSilent (log w r e)
  unfolding log
  IsSilent-log e = IsSilent-append w.state_directory w.files r.request_id e

  IsSilent-finish : (x : Response) → IsSilent (finish w r x)
  unfolding finish
  IsSilent-finish x = IsSilent-bind _ _ (IsSilent-log _) (λ _. IsSilent-lift (ok x))

  IsSilent-refuse : (reason : String) (e : Value) → IsSilent (refuse w r reason e)
  unfolding refuse
  IsSilent-refuse reason e = IsSilent-bind _ _ (IsSilent-log _) (λ _. IsSilent-finish _)

  invoke-CallsOnly :
      (o : Operation) (a : Fields) (d : Decision)
      → CallsOnly (λ c. o.handler r a d ≡ ok c) (invoke w r o a d)
  unfolding invoke
  invoke-CallsOnly o a d = record {
    at = λ j. elim (Result-cases (o.handler r a d)) [
      | inl (e, q) ↦ inl (rw (q, invoke))
      | inr (c, q) ↦ inr (c, q, rw (q, invoke))
    ];
  }

  perform-CallsOnly :
      (o : Operation) (a : Fields) (d : Decision)
      → CallsOnly (λ c. o.handler r a d ≡ ok c) (perform w r o a d)
  unfolding perform
  perform-CallsOnly o a d =
      CallsOnly-bind _ _ _ (IsSilent-log _)
        (λ _. CallsOnly-then _ _ _ (invoke-CallsOnly o a d) (λ x. IsSilent-finish _))

  CallsOnly-outcome :
      {A : Type 0} (P : Call → Type 0) (x : Outcome) (m k l : Exec A)
      → (x ≡ allow → CallsOnly P m)
      → IsSilent k
      → IsSilent l
      → CallsOnly P (elim x [ allow ↦ m | deny ↦ k | require_approval ↦ l ])
  CallsOnly-outcome P allow m k l cm sk sl = cm refl
  CallsOnly-outcome P deny m k l cm sk sl = CallsOnly-of_silent P k sk
  CallsOnly-outcome P require_approval m k l cm sk sl = CallsOnly-of_silent P l sl

  carry_out-CallsOnly :
      (P : Call → Type 0) (o : Operation) (a : Fields) (d : Decision)
      → ((c : Call) → d.outcome ≡ allow → o.handler r a d ≡ ok c → P c)
      → CallsOnly P (carry_out w r o a d)
  unfolding carry_out
  carry_out-CallsOnly P o a d h =
      CallsOnly-outcome P d.outcome _ _ _
        (λ e. CallsOnly-map _ P _ (λ c. h c e) (perform-CallsOnly o a d)) (IsSilent-finish _)
        (IsSilent-finish _)

  authorize-CallsOnly :
      (p : Policy) (o : Operation) (a : Fields)
      → find operations r.operation ≡ some o
      → o.validator r.arguments ≡ ok a
      → CallsOnly (IsAuthorized w r p) (authorize w r p o a)
  unfolding authorize
  authorize-CallsOnly p o a known valid = elim (Result-cases (decide w r p o)) [
    | inl (x, q) ↦ rw (q, authorize) (CallsOnly-of_silent _ _ (IsSilent-lift _))
    | inr (d, q) ↦
        rw (q, authorize)
          (CallsOnly-bind _ _ _ (IsSilent-log _) (λ _. carry_out-CallsOnly _ o a d (λ c e built.
            record {
              operation = o;
              arguments = a;
              registered = known;
              validated = valid;
              decision = d;
              decided = q;
              allowed = e;
              built = built;
            })))
  ]

  check_arguments-CallsOnly :
      (p : Policy) (o : Operation)
      → find operations r.operation ≡ some o
      → CallsOnly (IsAuthorized w r p) (check_arguments w r p o)
  unfolding check_arguments
  check_arguments-CallsOnly p o known = elim (Result-cases (o.validator r.arguments)) [
    | inl (broker e, q) ↦ rw (q, check_arguments) (CallsOnly-of_silent _ _ (IsSilent-refuse _ _))
    | inl (type_error, q) ↦ rw (q, check_arguments) (CallsOnly-of_silent _ _ (IsSilent-lift _))
    | inl (overflow_error, q) ↦ rw (q, check_arguments) (CallsOnly-of_silent _ _ (IsSilent-lift _))
    | inl (key_error, q) ↦ rw (q, check_arguments) (CallsOnly-of_silent _ _ (IsSilent-lift _))
    | inl (value_error, q) ↦ rw (q, check_arguments) (CallsOnly-of_silent _ _ (IsSilent-lift _))
    | inl (unicode_error, q) ↦ rw (q, check_arguments) (CallsOnly-of_silent _ _ (IsSilent-lift _))
    | inr (a, q) ↦ rw (q, check_arguments) (authorize-CallsOnly p o a known q)
  ]

  dispatch-CallsOnly :
      (p : Policy) (found : Option Operation)
      → find operations r.operation ≡ found
      → CallsOnly (IsAuthorized w r p) (dispatch w r p found)
  unfolding dispatch
  dispatch-CallsOnly p none known = CallsOnly-of_silent _ _ (IsSilent-refuse _ _)
  dispatch-CallsOnly p (some o) known = check_arguments-CallsOnly p o known

  IsSilent-is_complete : IsSilent (is_complete w.state_directory w.files r.request_id)
  IsSilent-is_complete = record {
    at = λ j.
        ap (λ (k : Journal). k.calls) (is_complete_keeps w.state_directory w.files r.request_id j);
  }

  IsSilent-request_lock : IsSilent (request_lock w.state_directory w.files r.request_id)
  unfolding request_lock
  IsSilent-request_lock = record { at = λ j. ground arith }

  after_check-CallsOnly :
      (p : Policy) (b : Bool)
      → CallsOnly (IsAuthorized w r p) (
          if b
          then duplicate w r
          else (log w r (requested r) >> dispatch w r p (find operations r.operation)))
  unfolding duplicate
  after_check-CallsOnly p true = CallsOnly-of_silent _ _ (IsSilent-lift _)
  after_check-CallsOnly p false =
      CallsOnly-bind _ _ _ (IsSilent-log _) (λ _. dispatch-CallsOnly p _ refl)

  pub execute_request-CallsOnly :
      (p : Policy) → CallsOnly (IsAuthorized w r p) (execute_request w r p)
  unfolding execute_request execute_locked
  execute_request-CallsOnly p =
      CallsOnly-bind _ _ _ IsSilent-request_lock
        (λ _. CallsOnly-bind _ _ _ IsSilent-is_complete (λ b. after_check-CallsOnly p b))
