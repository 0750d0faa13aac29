-- ===== src/Ebpf/BuilderExamples.antt =====
-- The builder of events at concrete inputs.
use Prim.Native.String.{len, ◌++◌ as text_append}
use sigmacatch.Event.Xml.Views.{no_node}
use sigmacatch.Event.Xml.Parsing.{max_xml_size}
use sigmacatch.Ebpf.Builder.{EventBuilder, Platform, full_cmdline, image_hash, user_name}
use sigmacatch.Ebpf.CacheLaws.{IsFaithful, IsOld, after_requests, cached_sha256-direct, direct}
use sigmacatch.Ebpf.Events.{exec_text, exit_text, record_text}
use sigmacatch.Ebpf.HashCache.{cached_sha256}
use sigmacatch.Ebpf.Numbering.{AreNumbered, texts_of, texts_of-AreNumbered}
use sigmacatch.Ebpf.Oversize.{run_ring-long_cmdline}
use sigmacatch.Ebpf.Proc.{World}
use sigmacatch.Ebpf.Ring.{panic, run_ring}
use sigmacatch.Ebpf.Tracking.{ExitOf, History, after, exit_text-tracked, identity, tracked}
use sigmacatch.Ebpf.Wire.{ExecEvent, ExitEvent, exec, exit, cstr, exec_from_bytes, read_record}
use sigmacatch.Prelude.{
  List, String, [], ap, arith, find_entry, if◌then◌else◌, length, none, refl, some, suc, sym, zero,
  ℕ, ◌%◌, ◌+◌, ◌<◌, ◌==◌, ◌^◌, ◌∙◌, ◌∷◌, ◌≡◌, ◌⊎◌,
}

-- A system in which a file has the time `t` and the digest `hash`, and all else is missing.
abbrev world : ℕ → String → World
world t hash = record {
  utc_time = "2026-01-01 00:00:00.000";
  system_time = "2026-01-01T00:00:00.000000000Z";
  uuid = "u";
  read_link = λ p. none;
  read = λ p. none;
  read_to_string = λ p. none;
  mtime = λ p. some t;
  sha256 = λ p. some hash;
}

abbrev double : String → String
double s = text_append s s

abbrev twice : ℕ → String → String
twice zero s = s
twice (suc n) s = twice n (double s)

-- Every field of a kernel record reads as `s`.
abbrev reading : String → Platform
reading s = record {
  from_utf8 = λ bs. some s;
  lossy = λ bs. bs;
  text_of = λ bs. s;
  utf8 = λ x. [];
  ipv6 = λ bs. "::";
  parse_xml = λ x. some no_node;
}

abbrev exec_7 : ExecEvent
exec_7 = record { pid = 7; uid = 0; gid = 0; comm = []; image = 97 ∷ []; arg0 = [] }

abbrev exec_8 : ExecEvent
exec_8 = record { pid = 8; uid = 0; gid = 0; comm = []; image = 97 ∷ []; arg0 = [] }

abbrev exit_8 : ExitEvent
exit_8 = record { pid = 8 }

abbrev history : History
history = (world 1 "x", exec exec_7) ∷ (world 1 "x", exec exec_8) ∷ (world 2 "y", exit exit_8) ∷ []

abbrev start : EventBuilder
start = record {
  record_id = 0;
  hostname = "h";
  exec_pid = 1;
  euid = 0;
  parents = [];
  users = [];
  hashes = record { hashes = []; order = [] };
}

tracked_example :
    ExitOf
      (world 3 "z")
      7
      (after (reading "/bin/a") history start)
      (tracked (reading "/bin/a") 7 history (identity (find_entry 7 start.parents)))
      (exit_text (reading "/bin/a") (world 3 "z") 7 (after (reading "/bin/a") history start)).0
tracked_example = exit_text-tracked (reading "/bin/a") history start (world 3 "z") 7

-- The process 7 is known with its guid, the process 8 is gone.
tracked_test :
    (tracked (reading "/bin/a") 7 history none ≡ some ("{u}", "/bin/a", "/bin/a /bin/a"))
    × (tracked (reading "/bin/a") 8 history none ≡ none)
unfolding full_cmdline cstr
tracked_test = (refl, refl)

numbered_example :
    AreNumbered 0 (texts_of (reading "/bin/a") history start).0
    × ((texts_of (reading "/bin/a") history start).1
        ≡ (0 + length (texts_of (reading "/bin/a") history start).0) % 2 ^ 64)
numbered_example = texts_of-AreNumbered (reading "/bin/a") history start (omega arith)

numbered_test : (texts_of (reading "/bin/a") history start).1 ≡ 3
unfolding record_text exec_text exit_text user_name image_hash cached_sha256
numbered_test = refl

-- Contents by the time of the modification.
abbrev content : String → ℕ → String
content p m = if m == 1 then "x" else "y"

first_world-IsFaithful : IsFaithful content (world 1 "x")
first_world-IsFaithful p m h time now =
    let same : 1 ≡ m = cc in let hash : "x" ≡ h = cc in sym hash ∙ ap (content p) same

second_world-IsFaithful : IsFaithful content (world 2 "y")
second_world-IsFaithful p m h time now =
    let same : 2 ≡ m = cc in let hash : "y" ≡ h = cc in sym hash ∙ ap (content p) same

cache_answer_example :
    (let answer =
        (cached_sha256
          (world 2 "y")
          "/a"
          (after_requests ((world 1 "x", "/a") ∷ []) (record { hashes = []; order = [] }))).0 in
      (answer ≡ direct (world 2 "y") "/a") ⊎ IsOld content (world 2 "y") "/a" answer)
cache_answer_example =
    cached_sha256-direct content ((world 1 "x", "/a") ∷ []) (world 2 "y") "/a"
      (first_world-IsFaithful, tt) second_world-IsFaithful

-- A file that was modified is put into the order of eviction again.
order_test :
    (after_requests
      ((world 1 "x", "/a") ∷ (world 2 "y", "/a") ∷ [])
      (record { hashes = []; order = [] })).order
    ≡ "/a" ∷ "/a" ∷ []
unfolding cached_sha256
order_test = refl

abbrev zeros : ℕ → List ℕ
zeros zero = []
zeros (suc n) = 0 ∷ zeros n

abbrev long_text : String
long_text = twice 20 "ab"

abbrev exec_bytes : List ℕ
exec_bytes = 1 ∷ 0 ∷ 0 ∷ 0 ∷ zeros 292

abbrev long_exec : ExecEvent
long_exec = record {
  pid = 0;
  uid = 0;
  gid = 0;
  comm = zeros 16;
  image = zeros 128;
  arg0 = zeros 128;
}

long_read : read_record exec_bytes ≡ some (exec long_exec)
unfolding read_record exec_from_bytes
long_read = refl

long_cmdline : max_xml_size < len (full_cmdline (reading long_text) (world 1 "x") long_exec)
unfolding full_cmdline cstr
long_cmdline = omega arith

oversize_example :
    run_ring
      (reading long_text)
      ((world 1 "x", exec_bytes) ∷ (world 1 "x", exec_bytes) ∷ [])
      5
      start
    ≡ ([], panic)
oversize_example =
    run_ring-long_cmdline (reading long_text) (world 1 "x") exec_bytes long_exec
      ((world 1 "x", exec_bytes) ∷ []) 5 start long_read long_cmdline
