-- ===== src/Linux/Sources.antt =====
-- `discover_sources` of syslog.rs, and the selection of sources in sigmacatch/src/inputs/linux.rs:
-- `mode_for`, `select_collectors` and the run of several collectors at once.
use Prim.Native.String.{◌++◌ as text_append}
use sigmacatch.Linux.Syslog.{SourceKind, central, auth, cron, paths}
use sigmacatch.Prelude.{
  Bool, Bool-cases, List, Option, String, [], ap, arith, false, if◌then◌else◌, inl, inr, length,
  none, not, refl, some, suc, true, ◌&&◌, ◌++◌, ◌<◌, ◌==◌, ◌||◌, ◌↔◌, ◌∙◌, ◌∷◌, ◌≡◌, ◌≤◌,
}

abbrev existing : (exists : String → Bool) → SourceKind → List String → List (String × SourceKind)
existing exists kind [] = []
existing exists kind (p ∷ ps) =
    let rest = existing exists kind ps in if exists p then (p, kind) ∷ rest else rest

-- `discover_sources`
unfoldable pub discover_sources : (exists : String → Bool) → List (String × SourceKind)
unfolding paths
discover_sources exists =
    existing exists central (paths central)
    ++ (existing exists auth (paths auth) ++ existing exists cron (paths cron))

abbrev pub any_source : List (String × SourceKind) → Bool
any_source [] = false
any_source (s ∷ ss) = true

-- `default_log_exists`
unfoldable pub default_log_exists : (exists : String → Bool) → Bool
unfolding discover_sources
default_log_exists exists = any_source (discover_sources exists)

-- `join("+")`
abbrev pub joined : List String → String
joined [] = ""
joined (p ∷ []) = p
joined (p ∷ q ∷ ps) = text_append p (text_append "+" (joined (q ∷ ps)))

unfoldable pub mode_parts : (auditd_ok syslog_ok ebpf_planned : Bool) → List String
mode_parts auditd_ok syslog_ok ebpf_planned =
    (if auditd_ok then "auditd" ∷ [] else [])
    ++ ((if syslog_ok then "syslog" ∷ [] else [])
        ++ (if ebpf_planned then "sysmon(ebpf)" ∷ [] else []))

-- `mode_for`
unfoldable pub mode_for : (auditd_ok syslog_ok ebpf_planned : Bool) → String
unfolding mode_parts
mode_for auditd_ok syslog_ok ebpf_planned =
    if not auditd_ok && (not syslog_ok && not ebpf_planned)
    then "linux (no source)"
    else text_append "linux " (joined (mode_parts auditd_ok syslog_ok ebpf_planned))

abbrev pub Source : Type 0
Source = String

-- The features that the binary is built with.
pub record Features : Type 0 where
  pub auditd : Bool
  pub builtin : Bool
  pub sysmon : Bool
  pub ebpf : Bool

pub data SysmonSource : Type 0 where
  probes tail : SysmonSource

-- `make_sysmon_collector`: `loads` tells whether the eBPF collector could be made.
unfoldable pub make_sysmon_collector : Features → (loads syslog_ok : Bool) → Option SysmonSource
make_sysmon_collector f loads syslog_ok =
    if f.ebpf && loads then some probes else (if f.sysmon && syslog_ok then some tail else none)

abbrev named : Option SysmonSource → List Source
named none = []
named (some s) = "sysmon" ∷ []

-- `select_collectors`, by name
unfoldable pub select_collectors : Features → (loads auditd_ok syslog_ok : Bool) → List Source
unfolding make_sysmon_collector
select_collectors f loads auditd_ok syslog_ok =
    (if f.auditd && auditd_ok then "auditd" ∷ [] else [])
    ++ ((if f.builtin && syslog_ok then "syslog" ∷ [] else [])
        ++ named (make_sysmon_collector f loads syslog_ok))

-- How the task of a collector ends.
pub data Ended : Type 0 where
  finished errored panicked : Ended

pub data ProducerError : Type 0 where
  no_source : ProducerError
  collector : Source → ProducerError
  panic : ProducerError

abbrev pub failure : Source → Ended → List ProducerError → List ProducerError
failure name finished es = es
failure name errored es = collector name ∷ es
failure name panicked es = panic ∷ es

unfoldable pub failures : List (Source × Ended) → List ProducerError
failures [] = []
failures ((name, e) ∷ tasks) = failure name e (failures tasks)

abbrev first_of : List ProducerError → Option ProducerError
first_of [] = none
first_of (e ∷ es) = some e

-- `MultiCollector::run`: the error, if every collector failed.
unfoldable pub run_collectors : List (Source × Ended) → Option ProducerError
unfolding failures
run_collectors tasks =
    if length tasks == 0
    then some no_source
    else (if length (failures tasks) == length tasks then first_of (failures tasks) else none)

failures-le : (tasks : List (Source × Ended)) → length (failures tasks) ≤ length tasks
unfolding failures
failures-le [] = omega arith
failures-le ((name, finished) ∷ tasks) = omega (arith, failures-le tasks)
failures-le ((name, errored) ∷ tasks) = omega (arith, failures-le tasks)
failures-le ((name, panicked) ∷ tasks) = omega (arith, failures-le tasks)

abbrev pub is_finished : Ended → Bool
is_finished finished = true
is_finished errored = false
is_finished panicked = false

abbrev pub any_finished : List (Source × Ended) → Bool
any_finished [] = false
any_finished ((name, e) ∷ tasks) = is_finished e || any_finished tasks

failures-any_finished :
    (tasks : List (Source × Ended))
    → (length (failures tasks) == length tasks) ≡ not (any_finished tasks)
unfolding failures
failures-any_finished [] = refl
failures-any_finished ((name, finished) ∷ tasks) = ground (arith, failures-le tasks)
failures-any_finished ((name, errored) ∷ tasks) = ground (arith, failures-any_finished tasks)
failures-any_finished ((name, panicked) ∷ tasks) = ground (arith, failures-any_finished tasks)

first_of-ne-none : (es : List ProducerError) → 0 < length es → first_of es ≡ none → ⊥
first_of-ne-none [] h e = omega arith
first_of-ne-none (x ∷ es) h e = cc

-- The collectors together fail exactly when no one of them finished without an error.
pub run_collectors-any_finished :
    (tasks : List (Source × Ended)) → (run_collectors tasks ≡ none) ↔ (any_finished tasks ≡ true)
unfolding run_collectors
run_collectors-any_finished [] = ((λ h. absurd (cc)), (λ h. absurd (cc)))
run_collectors-any_finished (t ∷ ts) =
    let same = failures-any_finished (t ∷ ts) in
    let some_task : (length (t ∷ ts) == 0) ≡ false = ground arith in
    elim (Bool-cases (any_finished (t ∷ ts))) [
      | inl some_one ↦
          let differ : (length (failures (t ∷ ts)) == length (t ∷ ts)) ≡ false =
            same ∙ ap not some_one in
          ((λ h. some_one), (λ h. rw (some_task, differ) refl))
      | inr no_one ↦
          let equal : (length (failures (t ∷ ts)) == length (t ∷ ts)) ≡ true =
            same ∙ ap not no_one in
          let counted : length (failures (t ∷ ts)) ≡ suc (length ts) = ground arith in
          (
            (λ h.
                absurd (
                  first_of-ne-none (failures (t ∷ ts)) (omega arith) (rw (some_task, equal) at h))),
            (λ h. absurd (cc)),
          )
    ]
