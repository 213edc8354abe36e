-- ===== src/Broker/Execute/Replay.antt =====
-- A request that has its terminal result is never executed again.
use jiritsu.Base.{◌<◌, Bool, true, false, ◌≡◌, arith, Result, ok, err, Result-cases, inl, inr}
use jiritsu.Broker.Model.{Exception, Request}
use jiritsu.Broker.Policy.{Policy}
use jiritsu.Broker.Audit.{Journal, request_lock, is_complete}
use jiritsu.Broker.Audit.Records.{terminal_count, is_complete-eq-false, is_complete_keeps}
use jiritsu.Broker.Execute.{World, execute_locked, execute_request}

abbrev pub is_raised {ℓ} : {A : Type ℓ} → Result Exception A → Bool
is_raised (err e) = true
is_raised (ok a) = false

module _ (w : World) (r : Request) (p : Policy) (j : Journal) where
  locked_inert :
      0 < terminal_count r.request_id j.lines
      → (is_raised (execute_locked w r p j).0 ≡ true) × ((execute_locked w r p j).1 ≡ j)
  unfolding execute_locked
  locked_inert h = elim (Result-cases (is_complete w.state_directory w.files r.request_id j).0) [
    | inl (e, q) ↦ ground (arith, is_complete_keeps w.state_directory w.files r.request_id j)
    | inr (true, q) ↦ ground (arith, is_complete_keeps w.state_directory w.files r.request_id j)
    | inr (false, q) ↦
        absurd (omega (arith, is_complete-eq-false w.state_directory w.files r.request_id j q))
  ]

  -- Once the journal holds a terminal result of the request, executing it again raises an error,
  -- writes no line and calls no provider, under any policy and whatever the files answer.
  pub execute_request_replay :
      0 < terminal_count r.request_id j.lines
      → (is_raised (execute_request w r p j).0 ≡ true) × ((execute_request w r p j).1 ≡ j)
  unfolding execute_request request_lock
  execute_request_replay h = ground (arith, locked_inert h)
