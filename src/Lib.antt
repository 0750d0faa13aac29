-- ===== src/Lib.antt =====
-- Verification of sigmacatch, which watches the event logs of a machine, matches the events against
-- the rules of a Sigma repository and commits regression data for the rules that matched.
--
-- The parts of the program and how they interact. A collector (sigmacatch/src/inputs) reads a log and
-- turns lines into events (sigmacatch/src/types.rs), each with the logsource fields that rules ask
-- for. The events are matched against the rule set (sigmacatch/src/rule). A match becomes an alert,
-- for which sigmacatch/src/regression generates the data files of its rule, once. The results are
-- committed and pushed by the git layer (sigmacatch/src/repo), which packs its own objects.
--
-- The files:
-- Prelude: Boolean tests and lists over native numbers, maps, the order of byte slices.
-- Json: the values of serde_json.
-- Event: the tables and functions of types.rs that find and inject the logsource fields
-- (Services, Categories, Logsource, Tables), `eventdata_to_string` (EventData), the parser and the
-- printer of decimals of the standard library (Decimal), and the type `Event` (Payload). Xml converts
-- the nodes of roxmltree into the two JSON views (Scalars, Views, Parsing); Ids is about the event's id.
-- Text, Lines: operations of `str` on native texts (Words splits them) and on lists of code points.
-- Tail: the driver of inputs/tail.rs. Its state is `TailState`, the handler's state and the
-- channel; `poll`, `drain_lines`, `check_rotation`, `reopen`, `send_all` and the loop of `run` are
-- functions of the same names (`run_loop` for the loop). What the operating system returns in a poll
-- is an argument, `Calls`. Lines and Polls hold the theorems.
-- Auditd: inputs/auditd.rs. Values holds `parse_line`, RawFields the scan of `extract_raw_fields`,
-- Handler the type `AuditdHandler` with `flush_group`, `on_line`, `on_idle` and `on_rotate`. Groups and
-- Pipeline hold the theorems; Pipeline joins the handler to the driver of Tail.
-- Rules: rule/mod.rs and rule/thresholds.rs. Loading models `new_from_path` over a tree of files,
-- Filter `filter`, Lookup `get` and `remove_id`, Fingerprint `fingerprint`, Hex `to_hex`.
-- Regression: regression/mod.rs. State holds `SigmahqRegression` and its failure tracking, Generate
-- the type `RegressionData` and `generate` over a store of files, TestsPath
-- `update_regression_tests_path`, Adding `add`.
-- Runner: runner.rs. `process_and_generate` and `upload_regression` are functions of these names, a
-- round of the loop is `round`, the loop `rounds`, with what `select!` takes as its argument; Cycle,
-- Rounds and Limit hold the theorems. The engine and the regression data are an interface, `Parts`.
-- Detection: detection/mod.rs. Cache models `hir_cache_key`, `read_hir_cache`, `write_hir_cache`,
-- `load_hir_cache` and the start in `new_with_hir_cache`, over the interface `Compiler` of rsigma-eval.
-- Engine holds `DetectionEngine` with `put_events`, `process_events`, `get_alerts`, `reload_rules` and
-- `new_lenient`; Queue and Alerts are about any sequence of these.
-- Linux: the collectors beside auditd. Syslog and Sysmon hold the handlers of inputs/syslog.rs and
-- inputs/sysmon.rs with `parse_line` and `build_event`, Sources the choice and the run of the collectors
-- in inputs/linux.rs; Once joins the handlers to the driver of Tail.
-- Ebpf: inputs/ebpf_event.rs, inputs/ebpf.rs and ebpf_common.rs. Wire reads the records of the ring
-- buffer, Proc what stands below /proc, Render holds `escape`, `data` and `system_block`,
-- HashCache `cached_sha256`, Builder the type `EventBuilder`, Events its five kinds of event, Query
-- `parse_query_name`, Ring the loop. Tracking, Numbering, CacheLaws and Oversize hold the theorems. What the
-- system answers in a call is an argument, `World`.
-- Repo: the git layer. Branch holds `validate_branch_name`, Refs `set_head_after_fetch` and
-- `fast_forward_branch` of repo/plumbing/refs.rs, Trees `add_tree_to_index` and `collect_tree_paths`,
-- Commit `git_commit` with `commit_tree`, Worktree `remove_untracked` of repo/plumbing/checkout.rs. The
-- objects, indices and references of grit-lib are interfaces (`Objects`, `RefOps`).
-- Check: bin/regressiondata-check.rs. Args holds the options, Paths `validate_regression_paths` and
-- `validate_declared_tests`, Newlines and Indent the checks of the files and their repairs, Events the
-- events of a stored log, Replay the loop of `main` (`check_entry`) with its counters.
-- Pack: repo/plumbing/pack.rs, the header of a pack entry and the bytes of a V2 index.
--
-- Parameters. The parser of linux_audit_parser, the YAML parser and serializers, the crates uuid and
-- sha1, the parser of roxmltree, the evaluation of rsigma-eval and the export of event logs are
-- arguments. So are conversions between texts and bytes and
-- Unicode's tables. The properties assume nothing about them, with these
-- exceptions: a second start from the cache of compiled rules takes it that a digest is made of bytes
-- and that the engine accepts its own blob; the properties of alerts, that a batch evaluates each of
-- its events alone, in order, that the texts of two uuids differ; that of the
-- cache of hashes, that the time of a file's last modification determines its digest; those of
-- commits and references, that an index finds the entry of a path that was added last, and that a write to
-- a reference is read back by that name only and makes no other reference symbolic; that of the repair of
-- the indentation, that the repaired file parses to a document of the same canonical text.
--
-- Fuel. `drain_lines` and the scan of pairs take one unit for each byte, and each round takes a byte
-- off; `size_bytes` takes the size, which falls in each round; `load_pending` takes the number of
-- directories of the tree, each of which is visited once; `read_labels` takes the 17
-- rounds that the bound of the source on labels allows. The theorems on these hold with this fuel and
-- state results, so a run that stops early would contradict them. `u64_to_string` takes 20 units, one
-- for each digit of the largest number below 2^64.
--
-- Numbers are natural numbers; words of 32 bits wrap where they are summed (Pack). Counters that are
-- bounded by the length of a list in memory are not wrapped.
--
-- Not modelled: the compression of objects, the threads and sleeps, logs, the configuration and the
-- command line, the Windows collectors and the EVTX writer, the kernel's probes and their
-- loading, the choice of channels, the printed reports of the check tool, the start-up of the runner, and in the git
-- layer the clone, the transport, the staging of files and the creation of branches.
pub mod Prelude
pub mod Json
pub mod Text
pub mod Lines
pub mod Event
pub mod Pack
pub mod Tail
pub mod Auditd
pub mod Rules
pub mod Regression
pub mod Runner
pub mod Ebpf
pub mod Repo
pub mod Detection
pub mod Check
pub mod Linux
