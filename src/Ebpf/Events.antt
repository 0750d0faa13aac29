-- ===== src/Ebpf/Events.antt =====
-- The five kinds of event that `EventBuilder` of inputs/ebpf_event.rs makes.
use sigmacatch.Event.Decimal.{u64_to_string}
use sigmacatch.Ebpf.Builder.{
  EventBuilder, Made, ParentInfo, Platform, counted, format_addr, full_cmdline, image_hash,
  new_guid, next_id, nothing, null_guid, or_dash, resolve_target, system, to_event, user_name,
}
use sigmacatch.Ebpf.Proc.{World, read_cwd, read_ppid, read_session_id}
use sigmacatch.Ebpf.Query.{parse_query_name, word_at}
use sigmacatch.Ebpf.Render.{System, event_text}
use sigmacatch.Ebpf.Wire.{
  DnsEvent, ExecEvent, FileCreateEvent, NetEvent, RingRecord, cstr, exec, exit, file, dns, net,
}
use sigmacatch.Prelude.{
  Bool, List, Option, String, [], false, find_entry, if◌then◌else◌, insert_entry, length, ltb, none,
  remove_entry, some, take, true, ℕ, ◌==◌, ◌∷◌,
}

abbrev pub Data : Type 0
Data = List (String × String)

-- The text of an event, if there is one, and the builder after it.
abbrev pub Rendered : Type 0
Rendered = Option String × EventBuilder

abbrev pub rendered : System → Data → EventBuilder → Rendered
rendered s ds b = (some (event_text s (next_id b) ds), counted b)

-- The fields about the parent of a process: its id and what is known about it.
abbrev pub parent_data : Option ℕ → Option ParentInfo → Data
parent_data none info =
    ("ParentProcessGuid", null_guid)
    ∷ ("ParentProcessId", "-")
    ∷ ("ParentImage", "-")
    ∷ ("ParentCommandLine", "-")
    ∷ ("ParentUser", "-")
    ∷ []
parent_data (some ppid) none =
    ("ParentProcessGuid", null_guid)
    ∷ ("ParentProcessId", "-")
    ∷ ("ParentImage", "-")
    ∷ ("ParentCommandLine", "-")
    ∷ ("ParentUser", "-")
    ∷ []
parent_data (some ppid) (some info) =
    ("ParentProcessGuid", info.guid)
    ∷ ("ParentProcessId", u64_to_string ppid)
    ∷ ("ParentImage", info.image)
    ∷ ("ParentCommandLine", info.cmdline)
    ∷ ("ParentUser", info.user)
    ∷ []

abbrev pub find_parent : Option ℕ → List (ℕ × ParentInfo) → Option ParentInfo
find_parent none ps = none
find_parent (some ppid) ps = find_entry ppid ps

abbrev pub number_or_zero : Option ℕ → ℕ
number_or_zero none = 0
number_or_zero (some n) = n

abbrev pub bool_text : Bool → String
bool_text false = "false"
bool_text true = "true"

-- The identity of a process that may be unknown, with the guid that stands for an unknown one.
abbrev pub guid_or : String → Option ParentInfo → String
guid_or guid none = guid
guid_or guid (some info) = info.guid

abbrev pub known_image : Option ParentInfo → String
known_image none = "-"
known_image (some info) = info.image

abbrev pub named_data : World → (guid : String) → (pid : ℕ) → (image : String) → Data → Data
named_data w guid pid image ds =
    ("RuleName", "-")
    ∷ ("UtcTime", w.utc_time)
    ∷ ("ProcessGuid", guid)
    ∷ ("ProcessId", u64_to_string pid)
    ∷ ("Image", image)
    ∷ ds

abbrev pub exec_data : World → ExecEvent → ParentInfo → (hash : String) → Option ParentInfo → Data
exec_data w ev info hash parent = named_data w info.guid ev.pid info.image (
    ("FileVersion", "-")
    ∷ ("Description", "-")
    ∷ ("Product", "-")
    ∷ ("Company", "-")
    ∷ ("OriginalFileName", "-")
    ∷ ("CommandLine", info.cmdline)
    ∷ ("CurrentDirectory", or_dash (read_cwd w ev.pid))
    ∷ ("User", info.user)
    ∷ ("LogonGuid", null_guid)
    ∷ ("LogonId", "0")
    ∷ ("TerminalSessionId", u64_to_string (number_or_zero (read_session_id w ev.pid)))
    ∷ ("IntegrityLevel", "no level")
    ∷ ("Hashes", hash)
    ∷ parent_data (read_ppid w ev.pid) parent)

abbrev pub remember : ℕ → ParentInfo → Rendered → Rendered
remember pid info (xml, b) = (xml, record b { parents = insert_entry pid info b.parents })

module _ (platform : Platform) where
  open platform use {from_utf8, lossy, text_of}

  abbrev pub exec_info : World → ExecEvent → String → ParentInfo
  exec_info w ev user = record {
    guid = new_guid w;
    image = cstr from_utf8 ev.image;
    cmdline = full_cmdline platform w ev;
    user = user;
  }

  -- `exec_event`, before `to_event`
  unfoldable pub exec_text : World → ExecEvent → EventBuilder → Rendered
  unfolding cstr full_cmdline user_name image_hash read_ppid read_cwd read_session_id event_text
      u64_to_string
  exec_text w ev b =
      let (user, b₁) = user_name w ev.uid b in
      let info = exec_info w ev user in
      let parent = find_parent (read_ppid w ev.pid) b₁.parents in
      let (hash, b₂) = image_hash w ev.pid info.image b₁ in
      remember ev.pid info (rendered (system w 1 5 1 b₂) (exec_data w ev info hash parent) b₂)

  abbrev pub net_data : World → NetEvent → Option ParentInfo → String → Data
  net_data w ev info user =
      (named_data w (guid_or null_guid info) ev.pid (known_image info) (
        ("User", user)
        ∷ ("Protocol", "tcp")
        ∷ ("Initiated", "true")
        ∷ ("SourceIsIpv6", bool_text (ev.family == 10))
        ∷ ("SourceIp", if ev.family == 10 then "::" else "0.0.0.0")
        ∷ ("SourceHostname", "-")
        ∷ ("SourcePort", "0")
        ∷ ("SourcePortName", "-")
        ∷ ("DestinationIsIpv6", bool_text (ev.family == 10))
        ∷ ("DestinationIp", format_addr platform ev.addr (ev.family == 10))
        ∷ ("DestinationHostname", "-")
        ∷ ("DestinationPort", u64_to_string (word_at 0 ev.port_bytes))
        ∷ ("DestinationPortName", "-")
        ∷ []))

  abbrev pub file_data : World → FileCreateEvent → Option ParentInfo → String → Data
  file_data w ev info user =
      (named_data w (guid_or (new_guid w) info) ev.pid (known_image info) (
        ("TargetFilename", resolve_target platform w ev)
        ∷ ("CreationUtcTime", w.utc_time)
        ∷ ("User", user)
        ∷ []))

  abbrev pub dns_data : World → DnsEvent → List ℕ → Option ParentInfo → String → Data
  dns_data w ev name info user =
      (named_data w (guid_or (new_guid w) info) ev.pid (known_image info) (
        ("User", user)
        ∷ ("QueryName", text_of name)
        ∷ ("QueryStatus", "0")
        ∷ ("QueryResults", "-")
        ∷ []))

  -- `exit_event`, before `to_event`
  abbrev pub exit_of : World → ℕ → EventBuilder → Option ParentInfo → Rendered
  exit_of w pid b none = (none, b)
  exit_of w pid b (some info) =
      rendered (system w 5 3 5 b) (named_data w info.guid pid info.image (("User", info.user) ∷ []))
        (record b { parents = remove_entry pid b.parents })

  unfoldable pub exit_text : World → ℕ → EventBuilder → Rendered
  unfolding event_text u64_to_string
  exit_text w pid b = exit_of w pid b (find_entry pid b.parents)

  -- `net_event`, before `to_event`
  unfoldable pub net_text : World → NetEvent → EventBuilder → Rendered
  unfolding user_name format_addr event_text u64_to_string
  net_text w ev b =
      let info = find_entry ev.pid b.parents in
      let (user, b₁) = user_name w ev.uid b in
      rendered (system w 3 5 3 b₁) (net_data w ev info user) b₁

  -- `file_create_event`, before `to_event`
  unfoldable pub file_text : World → FileCreateEvent → EventBuilder → Rendered
  unfolding user_name resolve_target event_text u64_to_string
  file_text w ev b =
      let info = find_entry ev.pid b.parents in
      let (user, b₁) = user_name w ev.uid b in
      rendered (system w 11 2 11 b₁) (file_data w ev info user) b₁

  -- `dns_event`, before `to_event`
  abbrev pub dns_of : World → DnsEvent → EventBuilder → Option (List ℕ) → Rendered
  dns_of w ev b none = (none, b)
  dns_of w ev b (some name) =
      let info = find_entry ev.pid b.parents in
      let (user, b₁) = user_name w ev.uid b in
      rendered (system w 22 5 22 b₁) (dns_data w ev name info user) b₁

  unfoldable pub dns_text : World → DnsEvent → EventBuilder → Rendered
  unfolding parse_query_name user_name event_text u64_to_string
  dns_text w ev b =
      if ltb (length ev.payload) ev.payload_len
      then (none, b)
      else dns_of w ev b (parse_query_name lossy (take ev.payload_len ev.payload))

  -- The event of a record, as a text.
  unfoldable pub record_text : World → RingRecord → EventBuilder → Rendered
  unfolding exec_text exit_text file_text dns_text net_text
  record_text w (exec ev) b = exec_text w ev b
  record_text w (exit ev) b = exit_text w ev.pid b
  record_text w (file ev) b = file_text w ev b
  record_text w (dns ev) b = dns_text w ev b
  record_text w (net ev) b = net_text w ev b

  abbrev pub made_of : Option String → Made
  made_of none = nothing
  made_of (some xml) = to_event platform xml

  -- `exec_event`, `exit_event`, `file_create_event`, `dns_event` and `net_event`
  unfoldable pub make_event : World → RingRecord → EventBuilder → Made × EventBuilder
  unfolding record_text to_event
  make_event w r b = let (xml, b') = record_text w r b in (made_of xml, b')
