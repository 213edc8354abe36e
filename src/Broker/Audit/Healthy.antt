-- ===== src/Broker/Audit/Healthy.antt =====
-- Files of the journal that answer and can be written: its methods then return.
use jiritsu.Base.{
  ℕ, String, Bool, true, false, none, [], ◌∷◌, ◌++◌, ◌≡◌, refl, arith, ok, List-cases, inl, inr,
  eqb, length,
}
use jiritsu.Broker.Policy.Load.{Metadata}
use jiritsu.Broker.Audit.{
  entry, Event, Journal, Files, any_terminal, append, request_lock, is_complete, records, select,
}
use jiritsu.Broker.Audit.Records.{AreEntries, select_answers}

-- The files answer, are what they should be, and every record can be encoded and written.
pub record AreHealthy (f : Files) : Type 0 where
  pub directory :
      (m : Metadata) × (f.directory ≡ ok m)
      × (m.is_symlink ≡ false)
      × (m.is_directory ≡ true)
      × (eqb m.uid f.euid ≡ true)
  pub journal :
      (m : Metadata) × (f.journal ≡ ok m) × (m.is_regular ≡ true) × (eqb m.uid f.euid ≡ true)
  pub locks :
      (m : Metadata) × (f.locks ≡ ok m)
      × (m.is_symlink ≡ false)
      × (m.is_directory ≡ true)
      × (eqb m.uid f.euid ≡ true)
  pub lock : (m : Metadata) × (f.lock ≡ ok m) × (m.is_regular ≡ true) × (eqb m.uid f.euid ≡ true)
  pub encodes : (e : Event) → f.encodes e ≡ true
  pub write : (n : ℕ) → f.write n ≡ none
  pub read : f.read ≡ none

pub append_healthy :
    (path : String) (f : Files) (id : String) (e : Event) (j : Journal)
    → AreHealthy f
    → append path f id e j ≡ (ok tt, record j { lines = j.lines ++ (entry id e ∷ []) })
unfolding append
append_healthy path f id e j h =
    let (m, p, q, s, u) = h.directory in
    let (m', p', s', u') = h.journal in ground (arith, h.encodes e, h.write (length j.lines))

pub request_lock_healthy :
    (path : String) (f : Files) (id : String) (j : Journal)
    → AreHealthy f
    → request_lock path f id j ≡ (ok tt, j)
unfolding request_lock
request_lock_healthy path f id j h =
    let (m, p, q, s, u) = h.directory in
    let (m1, p1, q1, s1, u1) = h.locks in let (m2, p2, s2, u2) = h.lock in ground arith

records_healthy :
    (path : String) (f : Files) (id : String) (j : Journal)
    → AreHealthy f
    → records path f id j ≡ (select 1 id j.lines, j)
unfolding records
records_healthy path f id j h =
    let (m, p, q, s, u) = h.directory in
    let (m1, p1, s1, u1) = h.journal in
    elim (List-cases j.lines) [
      | inl e ↦ ground (arith, h.read)
      | inr (l, ls, e) ↦ ground (arith, h.read)
    ]

-- The test for a duplicate answers.
pub is_complete_healthy :
    (path : String) (f : Files) (id : String) (j : Journal)
    → AreHealthy f
    → AreEntries j.lines
    → (b : Bool) × (is_complete path f id j ≡ (ok b, j))
unfolding is_complete
is_complete_healthy path f id j h e =
    let (es, q) = select_answers 1 id j.lines e in
    (any_terminal es, rw (records_healthy path f id j h, is_complete) (rw q refl))
