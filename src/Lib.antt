-- ===== src/Lib.antt =====
-- Verification of jiritsu, agentic glue for an Omarchy system: six small modules through which an
-- agent observes a machine, proposes changes and gets them applied under a policy.
--
-- The parts and how they interact. An agent sends requests to jiritsu-broker, which checks them
-- against a policy, writes an audit journal and calls the other modules as processes,
-- jiritsu-proposals among them, which keeps the record of every change of the user's configuration.
--
-- Json: JSON values with exact finite floats. Base: texts, sets of texts, results and identifiers.
-- Broker.Model (jiritsu-broker/src/jiritsu_broker/model.py): requests, errors, parse_request.
-- Broker.Policy and Broker.Policy.Load (policy.py): rules, evaluate and the loader of a policy.
-- Broker.Approvals (approvals.py): check_approval over what the operating system answers.
-- Broker.Arguments and Broker.Operations (operations.py): validators, handlers and the catalog.
-- Broker.Audit (audit.py): the journal as a list of lines; every method is an action that may raise
-- and leaves the lines that it wrote. Broker.Execute (broker.py): execute_request and its steps.
--
-- Proposals.Model (jiritsu-proposals/src/jiritsu_proposals/model.py and the records that
-- operations.py fills), Proposals.Store (store.py): the directories with one file each, as a session
-- that operations read and change, and the lock. Proposals.Operations (operations.py): create,
-- classify, approve and reject. Proposals.Scope and Proposals.Promotion: the checks of
-- promote_proposal, its steps, and _finish_rollback. Proposals.Lifecycle: the steps of a proposal's
-- life and its history; Proposals.Kept, Moves, PromotionMoves and Runs: what the operations keep.
-- Proposals.Validation (validation.py): parse_definition. Proposals.Files (actions.py):
-- apply_actions and rollback_actions on a tree of files, Files.Tree; Files.Inspect: inspect_actions
-- and verify_actions; Files.Restore, Rollback, Verified and Passing hold the proofs. For the
-- operations, actions.py and providers.py are an interface: records of functions on an abstract
-- tree.
--
-- Workload.Model, Checks, StatedChecks and Contracts (jiritsu-workload/src/jiritsu_workload/model.py
-- and contracts.py): the tables of a contract and parse_contract. Workload.Catalog: load_contract,
-- discover_contracts and select_contracts, on a list of files. Workload.State (state.py): the one
-- query of jiritsu-stated. Workload.Facts, Machine, Probes and StatedProbe (probes.py): checks of the
-- machine and of stated facts, and run_check; Workload.Output: _short_output. Workload.Assessment
-- (assessment.py): assess_contract and assess_contracts. Contracts.Parsed, ParsedFacts and Sound,
-- Catalog.Dict, Selection and Discovery, State.Coverage, Output.Length, and Assessment.Levels, Report, Sources
-- and Fallbacks hold the proofs. The machine, the process of the query and the files are
-- records of functions and lists that the operations take.
--
-- Loops over collections are recursions on lists, so no fuel is needed; decimal and the octal digits
-- of a mode take the number plus one as their fuel, and a number has no more digits than that.
-- Parameters: paths, the digest of a request, the parser of times, the answers of the operating
-- system and the results of providers. Not modelled: times in records, descriptions and schemas of
-- the catalog, the command lines, torn writes of a journal line, the details of proposal errors,
-- the constant texts of a classification, durations and times of an assessment, the text of the
-- Python error where a fact does not match its check, what a probe of the machine raises and no
-- handler catches, temporary files, install_contract, symbolic links, the choice
-- of directories and commands from the environment, and the modules checkpoints, stated and skills.
mod Base
pub mod Json
pub mod Broker
pub mod Proposals
pub mod Workload
