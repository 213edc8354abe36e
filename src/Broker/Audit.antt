-- ===== src/Broker/Audit.antt =====
-- jiritsu_broker/audit.py: the journal of one broker, as a state that its methods read and extend.
-- Times are left out of the records: nothing reads them back. A record is one line: the line
-- separators of Unicode, which `append` does not escape and `records` splits at, are not modelled.
pub mod Records
pub mod Healthy
use jiritsu.Base.{
  ℕ, ◌+◌, String, ◌<>◌, Bool, true, false, not, ◌||◌, Option, none, some, List, [], ◌∷◌, ◌++◌, ◌==◌,
  decimal, eqb, length, if◌then◌else◌, Result, ok, err,
}
use jiritsu.Json.{Value, Fields}
use jiritsu.Broker.Model.{Exception, unicode_error, Try, error, Request}
use jiritsu.Broker.Policy.Load.{Metadata}
use jiritsu.Broker.Operations.{Call, Decision}

pub record Action : Type 0 where
  pub operation : String
  pub effect : String
  pub authority : List String
  pub adapter : String

-- What a provider returns.
pub record ProviderResult : Type 0 where
  pub status : String
  pub selected_provider : String
  pub source : Option String
  pub fallback_errors : List Fields
  pub content : Option Fields

pub data Status : Type 0 where
  succeeded failed denied approval_required : Status

pub record Response : Type 0 where
  pub status : Status
  pub request_id : String
  pub operation : String
  pub decision : Option Decision
  pub action : Option Action
  pub result : Option ProviderResult
  pub errors : List Value

-- The four types of an event, each with its payload.
pub data Event : Type 0 where
  requested : Request → Event
  decided : Decision → Event
  acted : Action → Event
  resulted : Response → Event

-- A line of the journal's file: a record, or what `json` cannot read or reads as no object.
pub data Line : Type 0 where
  entry : (request_id : String) → Event → Line
  not_json : (why : String) → Line
  not_object : Line

-- The file, and the calls that providers received so far.
pub record Journal : Type 0 where
  pub lines : List Line
  pub calls : List Call

-- What the operating system answers for the files of the journal: the metadata, or why it failed.
pub record Files : Type 0 where
  pub euid : ℕ
  pub directory : Result String Metadata
  pub journal : Result String Metadata
  pub locks : Result String Metadata
  pub lock : Result String Metadata
  -- if the text of an event can be encoded: one with a lone surrogate cannot
  pub encodes : Event → Bool
  -- what writing the line at an index fails with
  pub write : ℕ → Option String
  -- what reading fails with, other than that there is no file
  pub read : Option String

abbrev pub Exec : Type 0 → Type 0
Exec A = Journal → Try A × Journal

module _ {A : Type 0} where
  abbrev pub pure : A → Exec A
  pure a j = (ok a, j)

  abbrev pub raise : Exception → Exec A
  raise e j = (err e, j)

  abbrev pub lift : Try A → Exec A
  lift r j = (r, j)

  abbrev pub raise_when : Bool → Exception → Exec A → Exec A
  raise_when b e rest = if b then raise e else rest

module _ {A B : Type 0} where
  abbrev pub continue : Try A → (A → Exec B) → Exec B
  continue (ok a) f j = f a j
  continue (err e) f j = (err e, j)

  infixl 5 ◌>>=◌ ◌>>◌
  abbrev pub ◌>>=◌ : Exec A → (A → Exec B) → Exec B
  ◌>>=◌ m f j = let (r, j') = m j in continue r f j'

  abbrev pub ◌>>◌ : Exec A → Exec B → Exec B
  m >> k = m >>= λ _. k

unavailable : String → Exception
unavailable message = error "audit_unavailable" message

-- A directory of the broker: no link, and owned by the effective user.
check_directory : ℕ → Result String Metadata → (kind owner fault : String) → Try Unit
unfolding unavailable
check_directory euid (err why) kind owner fault = err (unavailable (fault <> why))
check_directory euid (ok m) kind owner fault =
    if m.is_symlink || not m.is_directory
    then err (unavailable kind)
    else if not (eqb m.uid euid)
    then err (unavailable owner)
    else ok tt

-- A file of the broker: regular, and owned by the effective user. Links are not followed.
check_file : ℕ → Result String Metadata → (kind fault : String) → Try Unit
unfolding unavailable
check_file euid (err why) kind fault = err (unavailable (fault <> why))
check_file euid (ok m) kind fault =
    if not m.is_regular || not (eqb m.uid euid) then err (unavailable kind) else ok tt

-- The loop of `records` from line `n`, for one request.
unfoldable pub select : ℕ → String → List Line → Try (List Event)
select n request_id [] = ok []
select n request_id (not_json why ∷ ls) =
    err (error "audit_corrupt" ("audit record " <> (decimal n <> (" is invalid JSON: " <> why))))
select n request_id (not_object ∷ ls) =
    err (error "audit_corrupt" ("audit record " <> (decimal n <> " is not an object")))
select n request_id (entry id e ∷ ls) = elim (select (n + 1) request_id ls) [
  | err x ↦ err x
  | ok es ↦ ok (if id == request_id then e ∷ es else es)
]

module _ (path : String) (files : Files) where
  -- `_ensure`
  unfoldable pub ensure : Try Unit
  unfolding check_directory
  ensure =
      check_directory files.euid files.directory ("broker state path is not a directory: " <> path)
        ("broker state directory has an untrusted owner: " <> path)
        ("cannot secure broker state directory " <> (path <> ": "))

  -- `append`: one line at the end of the file, or an error and no line. That the text cannot be
  -- encoded is no `OSError`, and passes its handler.
  unfoldable pub append : String → Event → Exec Unit
  unfolding ensure check_file unavailable
  append request_id event = do
    lift ensure
    lift (
        check_file files.euid files.journal "audit journal is not a trusted regular file"
          "cannot append broker audit journal: ")
    λ j.
        if files.encodes event
        then elim (files.write (length j.lines)) [
          | some why ↦ (err (unavailable ("cannot append broker audit journal: " <> why)), j)
          | none ↦ (ok tt, record j { lines = j.lines ++ (entry request_id event ∷ []) })
        ]
        else (err unicode_error, j)

  -- The part of `request_lock` before the body runs. The lock itself keeps two bodies for one
  -- request apart: a body runs to its end before the next one starts.
  unfoldable pub request_lock : String → Exec Unit
  unfolding ensure check_directory check_file
  request_lock request_id = do
    lift ensure
    lift (
        check_directory files.euid files.locks "request lock path is not a directory"
          "request lock directory has an untrusted owner"
          ("cannot lock broker request " <> (request_id <> ": ")))
    lift (
        check_file files.euid files.lock "request lock is not a trusted regular file"
          ("cannot lock broker request " <> (request_id <> ": ")))

  -- `records`, for one request. A file that is not there has no lines.
  unfoldable pub records : String → Exec (List Event)
  unfolding ensure check_file unavailable select
  records request_id = do
    lift ensure
    λ j. elim j.lines [
      | [] ↦ (ok [], j)
      | l ∷ ls ↦
          (do
            lift (
                check_file files.euid files.journal "audit journal is not a trusted regular file"
                  "cannot read broker audit journal: ")
            lift (elim files.read [
              | some why ↦ err (unavailable ("cannot read broker audit journal: " <> why))
              | none ↦ ok tt
            ])
            lift (select 1 request_id (l ∷ ls)))
            j
    ]

abbrev pub is_terminal : Status → Bool
is_terminal approval_required = false
is_terminal s = true

-- A result that ends its request.
abbrev pub terminal_event : Event → Bool
terminal_event (resulted r) = is_terminal r.status
terminal_event e = false

abbrev pub any_terminal : List Event → Bool
any_terminal [] = false
any_terminal (e ∷ es) = terminal_event e || any_terminal es

-- `is_complete`
unfoldable pub is_complete : String → Files → String → Exec Bool
is_complete path files request_id = do
  events ← records path files request_id
  pure (any_terminal events)
