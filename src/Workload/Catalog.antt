-- ===== src/Workload/Catalog.antt =====
-- jiritsu_workload/contracts.py: loading, discovering and selecting contracts.
pub mod Dict
pub mod Selection
pub mod Discovery
use jiritsu.Base.{
  String, ◌<>◌, Bool, true, false, not, Option, none, some, List, [], ◌∷◌, ◌==◌, null, contains,
  sorted, unique, if◌then◌else◌, Result, ok, err, ◌>>=◌, ◌>>◌,
}
use jiritsu.Json.{Value}
use jiritsu.Workload.Model.{Exception, contract, unicode_error, Try, WorkloadContract}
use jiritsu.Workload.Contracts.{parse_contract}

-- What opening a contract's file and reading its TOML fails with.
pub data Fault : Type 0 where
  not_found denied not_utf8 : Fault
  not_toml unreadable : (why : String) → Fault

-- A file of contracts: its path, and its TOML or what reading it fails with.
pub record ContractFile : Type 0 where
  pub path : String
  pub payload : Result Fault Value

-- The directory of the user's contracts.
pub data Directory : Type 0 where
  absent : Directory
  no_directory : (path : String) → Directory
  files : List ContractFile → Directory

unfoldable pub failure : String → String → String → Exception
failure code message file =
    contract (record { code = code; message = message; path = some file; at = none })

-- The handlers around `tomllib.load`. A file that is not UTF-8 raises what none of them expects.
unfoldable pub fault_error : String → Fault → Exception
unfolding failure
fault_error file not_found = failure "contract_not_found" "contract file does not exist" file
fault_error file denied = failure "contract_denied" "cannot read contract file" file
fault_error file (not_toml why) = failure "contract_invalid" ("invalid TOML: " <> why) file
fault_error file (unreadable why) =
    failure "contract_unreadable" ("cannot read contract file: " <> why) file
fault_error file not_utf8 = unicode_error

unfoldable pub load_contract : ContractFile → String → Try WorkloadContract
unfolding fault_error parse_contract
load_contract f source_kind = elim f.payload [
  | err fault ↦ err (fault_error f.path fault)
  | ok payload ↦ parse_contract f.path payload source_kind
]

-- A dictionary of contracts by their identifiers.
abbrev pub Contracts : Type 0
Contracts = List (String × WorkloadContract)

unfoldable pub find : Contracts → String → Option WorkloadContract
find [] id = none
find ((i, c) ∷ cs) id = if i == id then some c else find cs id

-- `contracts[contract.contract_id] = contract`
unfoldable pub put : WorkloadContract → Contracts → Contracts
put c [] = (c.contract_id, c) ∷ []
put c ((i, d) ∷ cs) = if i == c.contract_id then (i, c) ∷ cs else (i, d) ∷ put c cs

unfoldable pub ids : Contracts → List String
ids [] = []
ids ((i, c) ∷ cs) = i ∷ ids cs

-- The loop over the default contracts.
unfoldable pub load_defaults : List ContractFile → Contracts → Try Contracts
unfolding load_contract put
load_defaults [] cs = ok cs
load_defaults (f ∷ fs) cs = load_contract f "default" >>= λ c. load_defaults fs (put c cs)

unfoldable pub duplicate : String → String → Exception
duplicate file other = contract (record {
  code = "duplicate_workload";
  message = "user contract ID also occurs in " <> other;
  path = some file;
  at = some "id";
})

-- `user_sources.get(id)`
unfoldable pub source_of : List (String × String) → String → Option String
source_of [] id = none
source_of ((i, file) ∷ seen) id = if i == id then some file else source_of seen id

-- The loop over the user's contracts, which take the place of default ones but not of each other.
unfoldable pub load_user : List ContractFile → List (String × String) → Contracts → Try Contracts
unfolding load_contract put duplicate source_of
load_user [] seen cs = ok cs
load_user (f ∷ fs) seen cs = load_contract f "user" >>= λ c. elim (source_of seen c.contract_id) [
  | some other ↦ err (duplicate f.path other)
  | none ↦ load_user fs ((c.contract_id, f.path) ∷ seen) (put c cs)
]

unfoldable pub load_directory : Directory → Contracts → Try Contracts
unfolding load_user failure
load_directory absent cs = ok cs
load_directory (no_directory path) cs =
    err (failure "config_invalid" "the config path is not a directory" path)
load_directory (files fs) cs = load_user fs [] cs

-- `[contracts[id] for id in ids]`, for identifiers that are there
unfoldable pub take_all : Contracts → List String → List WorkloadContract
unfolding find
take_all cs [] = []
take_all cs (i ∷ is) = elim (find cs i) [ none ↦ take_all cs is | some c ↦ c ∷ take_all cs is ]

-- `discover_contracts`. Both lists of files are in the order of their paths.
unfoldable pub discover_contracts : List ContractFile → Directory → Try (List WorkloadContract)
unfolding load_defaults load_directory take_all ids
discover_contracts defaults directory = do
  standard ← load_defaults defaults []
  contracts ← load_directory directory standard
  ok (take_all contracts (sorted (ids contracts)))

-- `{contract.contract_id: contract for contract in contracts}`
unfoldable pub by_id : List WorkloadContract → Contracts → Contracts
unfolding put
by_id [] cs = cs
by_id (c ∷ rest) cs = by_id rest (put c cs)

-- `[selector for selector in selected if selector not in available]`
unfoldable pub missing : Contracts → List String → List String
unfolding ids
missing cs [] = []
missing cs (s ∷ ss) = let rest = missing cs ss in if contains (ids cs) s then rest else s ∷ rest

-- `select_contracts`
unfoldable pub select_contracts : List WorkloadContract → List String → Try (List WorkloadContract)
unfolding by_id take_all missing ids
select_contracts contracts selectors =
    let available = by_id contracts [] in
    if null selectors
    then ok (take_all available (sorted (ids available)))
    else elim (missing available selectors) [
      | u ∷ us ↦ err (
          contract (record {
            code = "unknown_workload";
            message = "unknown workload: " <> u;
            path = none;
            at = some "selectors";
          }))
      | [] ↦ ok (take_all available (unique selectors))
    ]
