-- ===== src/Linux/Syslog.antt =====
-- sigmacatch/src/inputs/syslog.rs: the lines of a central syslog file as events.
use Prim.Native.Char.{Char, code}
use sigmacatch.Json.{string, object, Fields, end, insert}
use sigmacatch.Text.{to_ascii_lowercase}
use sigmacatch.Event.Payload.{Event, new_injected}
use sigmacatch.Event.Xml.Views.{Nodes}
use sigmacatch.Tail.{LineHandler}
use sigmacatch.Prelude.{
  Bool, List, Option, String, [], if◌then◌else◌, none, some, str_eq, ℕ, ◌==◌, ◌||◌, ◌∷◌,
}

-- `SourceKind`
pub data SourceKind : Type 0 where
  central auth cron : SourceKind

unfoldable pub paths : SourceKind → List String
paths central = "/var/log/messages" ∷ "/var/log/syslog" ∷ []
paths auth = "/var/log/secure" ∷ "/var/log/auth.log" ∷ []
paths cron = "/var/log/cron" ∷ "/var/log/cron.log" ∷ []

unfoldable pub fallback_service : SourceKind → Option String
fallback_service central = none
fallback_service auth = some "auth"
fallback_service cron = some "cron"

-- What the regular expression of a line captures.
pub record Captures : Type 0 where
  pub host : Option String
  pub program : String
  pub msg : Option String

-- What syslog.rs takes from UTF-8, from the crate regex with the pattern of `syslog_re`, from
-- Unicode's tables and from roxmltree.
pub record Platform : Type 0 where
  pub from_utf8 : List ℕ → Option String
  pub captures : String → Option Captures
  pub to_lowercase : String → String
  pub parse_xml : String → Option Nodes

-- `Record`
pub record SyslogRecord : Type 0 where
  pub host : Option String
  pub program : String
  pub message : String
  pub bytes : List ℕ

-- `trim_end_matches(['\n', '\r', ' '])`
abbrev pub is_line_end : Char → Bool
is_line_end c = (code c == 10) || (code c == 13) || (code c == 32)

abbrev pub unless_line_end : Char → String → String
unless_line_end c String.[] = if is_line_end c then "" else String.◌∷◌ c ""
unless_line_end c (String.◌∷◌ d s) = String.◌∷◌ c (String.◌∷◌ d s)

unfoldable pub trim_line_end : String → String
trim_line_end String.[] = ""
trim_line_end (String.◌∷◌ c s) = unless_line_end c (trim_line_end s)

unfoldable pub mapped_service : (to_lowercase : String → String) → String → Option String
mapped_service to_lowercase program =
    let p = to_lowercase program in
    if str_eq p "sshd" || str_eq p "sshd-session"
    then some "sshd"
    else (if str_eq p "cron" || str_eq p "crond"
        then some "cron"
        else (if str_eq p "vsftpd" || str_eq p "proftpd" || str_eq p "pure-ftpd"
            then some "vsftpd"
            else (if str_eq p "clamd"
                  || str_eq p "clamd.scan"
                  || str_eq p "clamonacc"
                  || str_eq p "freshclam"
                then some "clamav"
                else (if str_eq p "guacamole" || str_eq p "guac"
                    then some "guacamole"
                    else (if str_eq p "sudo"
                        then some "sudo"
                        else (if str_eq p "syslog" || str_eq p "rsyslogd" || str_eq p "rsyslog"
                            then some "syslog"
                            else none))))))

abbrev pub or_whole : String → Option String → String
or_whole t none = t
or_whole t (some m) = m

module _ (platform : Platform) where
  open platform use {from_utf8, captures, to_lowercase}

  abbrev pub record_of : List ℕ → String → Option Captures → Option SyslogRecord
  record_of line t none = none
  record_of line t (some c) =
      some (record { host = c.host; program = c.program; message = or_whole t c.msg; bytes = line })

  abbrev pub captured : List ℕ → String → Option SyslogRecord
  captured line String.[] = none
  captured line (String.◌∷◌ c s) = record_of line (String.◌∷◌ c s) (captures (String.◌∷◌ c s))

  abbrev pub decoded : List ℕ → Option String → Option SyslogRecord
  decoded line none = none
  decoded line (some t) = captured line (trim_line_end t)

  -- `parse_line`
  unfoldable pub parse_line : List ℕ → Option SyslogRecord
  unfolding trim_line_end
  parse_line line = decoded line (from_utf8 line)

  abbrev pub with_host : Option String → Fields → Fields
  with_host none fs = fs
  with_host (some h) fs = insert "host" (string h) fs

  abbrev pub or_else : Option String → Option String → Option String
  or_else none o = o
  or_else (some s) o = some s

  abbrev pub service_or : String → Option String → String
  service_or p none = to_lowercase p
  service_or p (some s) = s

  unfoldable pub service_of : SourceKind → String → String
  unfolding mapped_service fallback_service
  service_of kind program =
      service_or program (or_else (mapped_service to_lowercase program) (fallback_service kind))

  -- `build_event`: both views have the same fields.
  unfoldable pub build_event : SourceKind → List ℕ → SyslogRecord → Event
  unfolding insert new_injected service_of
  build_event kind raw r =
      let fields =
        with_host r.host
          (insert "program" (string r.program) (insert "message" (string r.message) end)) in
      new_injected (object fields) (object fields) raw "linux" (some (service_of kind r.program))

  abbrev pub is_sysmon : String → Bool
  is_sysmon program = str_eq (to_ascii_lowercase program) "sysmon"

  abbrev pub line_events : SourceKind → List ℕ → Option SyslogRecord → List Event
  line_events kind line none = []
  line_events kind line (some r) = if is_sysmon r.program then [] else build_event kind line r ∷ []

  -- `SyslogHandler::on_line`; it never fails.
  unfoldable pub on_line : SourceKind → List ℕ → List Event
  unfolding parse_line build_event to_ascii_lowercase
  on_line kind line = line_events kind line (parse_line line)

  -- `SyslogHandler`, with the default `on_idle` and `on_rotate` of the trait.
  abbrev pub handler : SourceKind → LineHandler Event
  handler kind = record {
    State = Unit {0};
    on_line = λ s line. (some (on_line kind line), s);
    on_idle = λ s. (some [], s);
    on_rotate = λ s. s;
  }
