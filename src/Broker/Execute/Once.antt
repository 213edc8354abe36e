-- ===== src/Broker/Execute/Once.antt =====
-- A request gets at most one terminal result, whatever fails on the way.
use jiritsu.Base.{
  ℕ, ◌+◌, ◌≤◌, String, Bool, true, false, Option, none, some, List, [], ◌∷◌, ◌==◌, ◌≡◌, refl, arith,
  if◌then◌else◌, ok, err, Result-cases, inl, inr, eq_iff,
}
use jiritsu.Json.{Value, Fields}
use jiritsu.Broker.Model.{
  broker, type_error, overflow_error, key_error, value_error, unicode_error, Try, Request,
}
use jiritsu.Broker.Policy.{Outcome, allow, deny, require_approval, Policy}
use jiritsu.Broker.Operations.{Operation, Decision, operations, find}
use jiritsu.Broker.Audit.{
  entry, Response, Event, requested, resulted, Journal, Files, Exec, lift, ◌>>=◌, ◌>>◌, continue,
  append, request_lock, is_complete, terminal_event,
}
use jiritsu.Broker.Audit.Records.{
  terminal_count, terminal_count-append, is_complete-eq-false, is_complete_keeps,
}
use jiritsu.Broker.Execute.{
  World, log, finish, refuse, decide, invoke, perform, carry_out, authorize, check_arguments,
  dispatch, execute_locked, execute_request,
}

-- `m` adds at most `n` terminal results to the request `id`, and none to another.
pub record Grows {A : Type 0} (id : String) (n : ℕ) (m : Exec A) : Type 0 where
  pub at :
      (i : String) (j : Journal)
      → terminal_count i (m j).1.lines ≤ terminal_count i j.lines + (if i == id then n else 0)

module _ (id : String) (n : ℕ) where
  Grows-lift : {A : Type 0} (r : Try A) → Grows id n (lift r)
  Grows-lift r = record { at = λ i j. omega arith }

  Grows-bind :
      {A B : Type 0} (m : Exec A) (f : A → Exec B)
      → Grows id 0 m
      → ((a : A) → Grows id n (f a))
      → Grows id n (m >>= f)
  Grows-bind {A} {B} m f gm gf = record { at = λ i j. step i j }
    where
      next :
          (i : String) (r : Try A) (j : Journal)
          → terminal_count i (continue r f j).1.lines
            ≤ terminal_count i j.lines + (if i == id then n else 0)
      next i (ok a) j = (gf a).at i j
      next i (err e) j = omega arith

      step :
          (i : String) (j : Journal)
          → terminal_count i ((m >>= f) j).1.lines
            ≤ terminal_count i j.lines + (if i == id then n else 0)
      step i j = ground (arith, gm.at i j, next i (m j).0 (m j).1)

  Grows-if :
      {A : Type 0} (b : Bool) (m k : Exec A)
      → Grows id n m
      → Grows id n k
      → Grows id n (if b then m else k)
  Grows-if true m k gm gk = gm
  Grows-if false m k gm gk = gk

  Grows-outcome :
      {A : Type 0} (x : Outcome) (m k l : Exec A)
      → Grows id n m
      → Grows id n k
      → Grows id n l
      → Grows id n (elim x [ allow ↦ m | deny ↦ k | require_approval ↦ l ])
  Grows-outcome allow m k l gm gk gl = gm
  Grows-outcome deny m k l gm gk gl = gk
  Grows-outcome require_approval m k l gm gk gl = gl

Grows-append_result :
    (path : String) (files : Files) (id : String) (e : Event) → Grows id 1 (append path files id e)
unfolding append
Grows-append_result path files id e = record {
  at = λ i j.
      ground (arith, eq_iff i id, eq_iff id i, terminal_count-append i j.lines (entry id e ∷ []));
}

Grows-append :
    (path : String) (files : Files) (id : String) (e : Event)
    → terminal_event e ≡ false
    → Grows id 0 (append path files id e)
unfolding append
Grows-append path files id e h = record {
  at = λ i j. ground (arith, eq_iff i id, terminal_count-append i j.lines (entry id e ∷ []));
}

Grows-request_lock :
    (path : String) (files : Files) (id r : String) → Grows id 0 (request_lock path files r)
unfolding request_lock
Grows-request_lock path files id r = record { at = λ i j. ground arith }

module _ (w : World) (r : Request) where
  Grows-finish : (x : Response) → Grows r.request_id 1 (finish w r x)
  unfolding finish
  Grows-finish x = record {
    at = λ i j.
        ground
          (arith, (Grows-append_result w.state_directory w.files r.request_id (resulted x)).at i j);
  }

  Grows-log : (e : Event) → terminal_event e ≡ false → Grows r.request_id 0 (log w r e)
  unfolding log
  Grows-log e h = Grows-append w.state_directory w.files r.request_id e h

  Grows-refuse : (reason : String) (e : Value) → Grows r.request_id 1 (refuse w r reason e)
  unfolding refuse
  Grows-refuse reason e = Grows-bind _ 1 _ _ (Grows-log _ refl) (λ _. Grows-finish _)

  Grows-invoke :
      (o : Operation) (a : Fields) (d : Decision) → Grows r.request_id 0 (invoke w r o a d)
  unfolding invoke
  Grows-invoke o a d = record { at = λ i j. ground arith }

  Grows-perform :
      (o : Operation) (a : Fields) (d : Decision) → Grows r.request_id 1 (perform w r o a d)
  unfolding perform
  Grows-perform o a d =
      Grows-bind _ 1 _ _ (Grows-log _ refl)
        (λ _. Grows-bind _ 1 _ _ (Grows-invoke o a d) (λ x. Grows-finish _))

  Grows-carry_out :
      (o : Operation) (a : Fields) (d : Decision) → Grows r.request_id 1 (carry_out w r o a d)
  unfolding carry_out
  Grows-carry_out o a d =
      Grows-outcome _ 1 d.outcome _ _ _ (Grows-perform o a d) (Grows-finish _) (Grows-finish _)

  Grows-authorize :
      (p : Policy) (o : Operation) (a : Fields) → Grows r.request_id 1 (authorize w r p o a)
  unfolding authorize
  Grows-authorize p o a = elim (Result-cases (decide w r p o)) [
    | inl (x, q) ↦ rw (q, authorize) (Grows-lift r.request_id 1 _)
    | inr (d, q) ↦
        rw (q, authorize) (Grows-bind _ 1 _ _ (Grows-log _ refl) (λ _. Grows-carry_out o a d))
  ]

  Grows-check_arguments :
      (p : Policy) (o : Operation) → Grows r.request_id 1 (check_arguments w r p o)
  unfolding check_arguments
  Grows-check_arguments p o = elim (Result-cases (o.validator r.arguments)) [
    | inl (broker e, q) ↦ rw (q, check_arguments) (Grows-refuse _ _)
    | inl (type_error, q) ↦ rw (q, check_arguments) (Grows-lift r.request_id 1 _)
    | inl (overflow_error, q) ↦ rw (q, check_arguments) (Grows-lift r.request_id 1 _)
    | inl (key_error, q) ↦ rw (q, check_arguments) (Grows-lift r.request_id 1 _)
    | inl (value_error, q) ↦ rw (q, check_arguments) (Grows-lift r.request_id 1 _)
    | inl (unicode_error, q) ↦ rw (q, check_arguments) (Grows-lift r.request_id 1 _)
    | inr (a, q) ↦ rw (q, check_arguments) (Grows-authorize p o a)
  ]

  Grows-dispatch : (p : Policy) (o : Option Operation) → Grows r.request_id 1 (dispatch w r p o)
  unfolding dispatch
  Grows-dispatch p none = Grows-refuse _ _
  Grows-dispatch p (some o) = Grows-check_arguments p o

  -- What follows the test for a duplicate.
  Grows-fresh :
      (p : Policy)
      → Grows r.request_id 1 (log w r (requested r) >> dispatch w r p (find operations r.operation))
  Grows-fresh p = Grows-bind _ 1 _ _ (Grows-log _ refl) (λ _. Grows-dispatch p _)

  execute_locked_count :
      (p : Policy) (i : String) (j : Journal)
      → terminal_count i j.lines ≤ 1
      → terminal_count i (execute_locked w r p j).1.lines ≤ 1
  unfolding execute_locked
  execute_locked_count p i j h =
      elim (Result-cases (is_complete w.state_directory w.files r.request_id j).0) [
        | inl (e, q) ↦ ground (arith, is_complete_keeps w.state_directory w.files r.request_id j)
        | inr (true, q) ↦ ground (arith, is_complete_keeps w.state_directory w.files r.request_id j)
        | inr (false, q) ↦ ground (
          arith,
          is_complete_keeps w.state_directory w.files r.request_id j,
          is_complete-eq-false w.state_directory w.files r.request_id j q,
          (Grows-fresh p).at i j,
          eq_iff i r.request_id,
        )
      ]

  -- No request has more than one terminal result afterwards if none had before, whatever the
  -- policy, the provider and the journal's files do.
  pub execute_request_once :
      (p : Policy) (i : String) (j : Journal)
      → terminal_count i j.lines ≤ 1
      → terminal_count i (execute_request w r p j).1.lines ≤ 1
  unfolding execute_request request_lock
  execute_request_once p i j h = ground (arith, execute_locked_count p i j h)

-- One execution in the life of a broker: the world of the moment, the request and the policy.
pub record Run : Type 0 where
  pub world : World
  pub request : Request
  pub policy : Policy

-- A sequence of executions. A call of `execute_request` that raises leaves the journal it reached.
pub serve : List Run → Journal → Journal
serve [] j = j
serve (x ∷ xs) j = serve xs (execute_request x.world x.request x.policy j).1

abbrev pub empty_journal : Journal
empty_journal = record { lines = []; calls = [] }

serve_from :
    (xs : List Run) (i : String) (j : Journal)
    → terminal_count i j.lines ≤ 1
    → terminal_count i (serve xs j).lines ≤ 1
unfolding serve
serve_from [] i j h = h
serve_from (x ∷ xs) i j h =
    serve_from xs i _ (execute_request_once x.world x.request x.policy i j h)

-- From an empty journal, any sequence of executions leaves each request identifier with at most one
-- terminal result, whatever the worlds answer: failing writes, changed policies, reused identifiers.
pub serve_once : (xs : List Run) (i : String) → terminal_count i (serve xs empty_journal).lines ≤ 1
serve_once xs i = serve_from xs i empty_journal (omega arith)
