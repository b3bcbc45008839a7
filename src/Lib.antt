-- ===== src/Lib.antt =====
-- A port of a Fortran region is accepted from evidence: checks run behind a gateway, each files a
-- claim in an append-only ledger, and a region's status is computed from the claims. This library
-- models that core: the ledger (equivalent/ledger), the requests that run a check and submit a tree
-- (equivalent/gateway), the comparison of outputs (equivalent/capture), the analyzer of a region
-- (equivalent/analyzers/check_sese.py), the oracle that holds the expected answers (services/oracle)
-- and the mutation run that tests the gate itself (services/builder, tools/fmutate).
--
-- The parts and how they interact:
-- * Prelude and Errors hold what the components share: Boolean tests, lists, equality, text as code
--   points, a stable sort (Python's `sorted`), and exceptions as values.
-- * Ledger.Workflow is equivalent/ledger/workflow.py: the catalog of actions and predicates, and
--   `_validate`. Ledger.Acceptance (acceptance.py, predicates.py) and Ledger.Table (table.py)
--   project the catalog: what a finished region needs, and what each action needs and emits.
-- * Ledger.Subject and Ledger.FileSet are subjects.py, Ledger.Record is records.py, Ledger.Artifact
--   is artifacts.py over the JSON values of Ledger.Value.
-- * Ledger.Store is store.py: the state is a record of the claims and the requests in file order
--   and what is kept under a content hash; `append_claim`, `record_claim`, `append_request`,
--   `put_artifact` and `keep` are functions to the next state, `latest` and `find_duplicate` are
--   queries. Ledger.Store.Ids holds the ids.
-- * Ledger.Evidence and Ledger.Cohort are evidence.py: the materials a claim has to rest on.
-- * Ledger.Status is status.py: `requirement_status`, `compute_status`, `accepted_by`,
--   `compute_history`.
-- * Gateway.Context, Gateway.Reading, Gateway.Retained and Gateway.Run are one POST /run:
--   `RunService.execute`, its guards, and its writes to the store. Gateway.Exec is the effect: code
--   that writes to the ledger and may raise, where what was written before a raise stays written.
-- * Region.Glob is the rule for patterns (`glob_matches` of ledger/subjects.py) with its readers, and
--   Region.AllowList is `resolve_allow_globs` of equivalent/region/current.py, which reads the ledger
--   for the patterns that a region may edit.
-- * Region.Submit and Region.Branch are equivalent/gateway/submit.py: the tree of a submission, and
--   its commit. `_commit_tree_if_changed` is cut in two, `begin` and `finish`, between which another
--   process may move the branch; Region.Branch.History has the steps.
-- * Capture is equivalent/capture: arrays as bit patterns (variables.py, npy.py), and compare.py as
--   Ulp (`_ulp_diff`), Tolerance (`tolerance_problem`), Compare (`compare_variable`) and Cases
--   (`compare_case`).
-- * Checks.Manifest is the judgement of a tolerance policy in equivalent/components/manifest_check.py,
--   whose bands Capture.Tolerance reads later.
-- * Sese is equivalent/analyzers/check_sese.py: Lexer (`code_part`), Statements
--   (`logical_statements`), Procedures (`procedures`), Scan (`scan`), Resolve (`analyze` from the
--   ranges on) and Specification (`spec_problems` and `ranges_to_scan`, over YAML values).
-- * Checks.Property is a property run: what services/builder/stage_property.py counts and answers, and
--   `run_module` of equivalent/components/property_check.py, which makes a verdict of it.
-- * Oracle is services/oracle/app.py: Policy (`_check_policy`) and Serve (`create_app` with its
--   endpoints), which compares what a port wrote by Capture.Cases. An image is a record of what the
--   files of the container hold.
-- * Mutation is the harness asking whether its own gate would notice a fault. Mutation.Source is the
--   generator, services/builder/mutation_source.py: Changes has one function for each operator, with
--   the regular expressions written out as scans (Mutation.Words), and the loop of `generate`.
--   Mutation.Classify is `classify` of services/builder/mutate.py; Mutation.Score is
--   services/builder/stage_mutation.py, `score_mutant` over a record of how its commands come out,
--   with what a case's status shows in Score.Observed and which case decides in Score.First, and
--   Score.Pool is its `_score_all`; Mutation.Standalone is `_score_one` of tools/fmutate/fmutate.py.
--
-- Parameters, which stand for code outside the program: the SHA-256 digest of a text, the checks
-- (`handlers`), the clock, the builder's answer for a workspace, `fnmatchcase`, the arithmetic of
-- double precision, what the regular expressions of the analyzer and of pytest's summary match, `\s`,
-- `\w` and `str.lower`, the reading of an NPY file, and `==` on YAML values that are no strings.
-- Nothing is assumed of them, but that `np.isfinite` and `math.isfinite` answer alike for integers of
-- at most 64 bits and for floats, which the two statements about them name as a hypothesis. Git is a
-- parameter too, and `IsGit` states what its manual says of commit-tree and update-ref.
--
-- Bounds and fuel: `_validate`'s recursion takes fuel, the number of actions, since each step adds a
-- new action to the ones being visited. A number is written in decimal on fuel one above itself, more
-- than it has digits. Sizes and counts are written to eight bytes in the hash of a file set, which
-- the statement about it bounds by 2^64.
--
-- Not modelled: the wording of messages, the file locks (an operation of the store is one critical
-- section), the JSON lines on disk and the parse cache, the HTTP layer and the reading of a region
-- before a request is resolved, the other checks, the analyzers that run compilers, the files of
-- a captured case, the loading of manifests and strategies, the identity that the oracle computes of
-- its inputs, what `math.isfinite` and `np.isfinite` raise at an integer that they cannot hold, what
-- `properties` refuses before pytest runs, the builder's workspace and commands, the coverage run and
-- the report of fmutate, and the command line.
pub mod Prelude
pub mod Errors
pub mod Ledger
pub mod Gateway
pub mod Region
pub mod Capture
pub mod Checks
pub mod Sese
pub mod Oracle
pub mod Mutation
pub mod Tests
