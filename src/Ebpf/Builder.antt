-- ===== src/Ebpf/Builder.antt =====
-- `EventBuilder` of inputs/ebpf_event.rs, but for the five kinds of event.
use Prim.Native.Char.{code}
use Prim.Native.String.{◌++◌ as text_append}
use sigmacatch.Text.{is_blank, trim}
use sigmacatch.Ebpf.Query.{byte_or}
use sigmacatch.Event.Decimal.{u64_to_string}
use sigmacatch.Event.Payload.{Event, new_injected}
use sigmacatch.Event.Xml.Views.{Nodes}
use sigmacatch.Event.Xml.Parsing.{Parsed, parse_winevt_xml_both}
use sigmacatch.Ebpf.HashCache.{HashCache, cached_sha256}
use sigmacatch.Ebpf.Proc.{World, in_proc, lookup_user, read_euid}
use sigmacatch.Ebpf.Render.{System}
use sigmacatch.Ebpf.Wire.{ExecEvent, FileCreateEvent, cstr}
use sigmacatch.Prelude.{
  Bool, List, Option, String, [], false, find_entry, get_elem?, if◌then◌else◌, inl, inr,
  insert_entry, keep, ltb, none, some, true, ℕ, ◌%◌, ◌+◌, ◌==◌, ◌^◌, ◌∷◌,
}

pub record ParentInfo : Type 0 where
  pub guid : String
  pub image : String
  pub cmdline : String
  pub user : String

-- `hashes` has the two fields of the cache of hashes.
pub record EventBuilder : Type 0 where
  pub record_id : ℕ
  pub hostname : String
  pub exec_pid : ℕ
  pub euid : ℕ
  pub parents : List (ℕ × ParentInfo)
  pub users : List (ℕ × String)
  pub hashes : HashCache

-- What the collector takes from UTF-8 (the strict and the lossy decoding), from the printing of
-- addresses, and from roxmltree.
pub record Platform : Type 0 where
  pub from_utf8 : List ℕ → Option String
  pub lossy : List ℕ → List ℕ
  pub text_of : List ℕ → String
  pub utf8 : String → List ℕ
  pub ipv6 : List ℕ → String
  pub parse_xml : String → Option Nodes

abbrev pub or_dash : Option String → String
or_dash none = "-"
or_dash (some s) = s

abbrev pub null_guid : String
null_guid = "{00000000-0000-0000-0000-000000000000}"

-- `new_guid`
abbrev pub new_guid : World → String
new_guid w = text_append "{" (text_append w.uuid "}")

abbrev pub trimmed_or : Option String → String
unfolding trim
trimmed_or none = "localhost"
trimmed_or (some s) = trim s

-- `EventBuilder::new`, with the id of this process
unfoldable pub new_builder : World → ℕ → EventBuilder
unfolding read_euid trim
new_builder w process_id = record {
  record_id = 0;
  hostname = trimmed_or (w.read_to_string "/proc/sys/kernel/hostname");
  exec_pid = process_id;
  euid = read_euid w;
  parents = [];
  users = [];
  hashes = record { hashes = []; order = [] };
}

-- `user_name`
abbrev pub name_or_id : ℕ → Option String → String
unfolding u64_to_string
name_or_id uid none = u64_to_string uid
name_or_id uid (some name) = name

abbrev pub with_user : ℕ → String → EventBuilder → String × EventBuilder
with_user uid name b = (name, record b { users = insert_entry uid name b.users })

abbrev pub known_user : World → ℕ → EventBuilder → Option String → String × EventBuilder
unfolding lookup_user u64_to_string
known_user w uid b (some name) = (name, b)
known_user w uid b none = with_user uid (name_or_id uid (lookup_user w uid)) b

unfoldable pub user_name : World → ℕ → EventBuilder → String × EventBuilder
unfolding lookup_user u64_to_string
user_name w uid b = known_user w uid b (find_entry uid b.users)

-- `image_hash`
abbrev pub or_image : String → Option String → String
or_image image none = image
or_image image (some p) = p

abbrev pub hash_text : Option String → String
hash_text none = "-"
hash_text (some hex) = text_append "SHA256=" hex

unfoldable pub image_hash : World → ℕ → String → EventBuilder → String × EventBuilder
unfolding cached_sha256 u64_to_string
image_hash w pid image b =
    let resolved = or_image image (w.read_link (in_proc pid "exe")) in
    let (hash, cache) = cached_sha256 w resolved b.hashes in
    (hash_text hash, record b { hashes = cache })

-- `system_block`: the next id, and what it prints besides.
abbrev pub system : World → (event_id version task : ℕ) → EventBuilder → System
system w event_id version task b = record {
  event_id = event_id;
  version = version;
  task = task;
  system_time = w.system_time;
  hostname = b.hostname;
  exec_pid = b.exec_pid;
  euid = b.euid;
}

abbrev pub next_id : EventBuilder → ℕ
next_id b = (b.record_id + 1) % 2 ^ 64

abbrev pub counted : EventBuilder → EventBuilder
counted b = record b { record_id = next_id b }

-- How the building of an event ends: there is none, it panics, or there is one.
pub data Made : Type 0 where
  nothing : Made
  panicked : Made
  made : Event → Made

module _ (platform : Platform) where
  open platform use {from_utf8, lossy, text_of, utf8, ipv6, parse_xml}

  abbrev pub event_or_panic : String → Parsed → Made
  unfolding new_injected
  event_or_panic xml (inr e) = panicked
  event_or_panic xml (inl (json_raw, json)) =
      made (new_injected json_raw json (utf8 xml) "linux" none)

  -- `to_event`
  unfoldable pub to_event : String → Made
  unfolding parse_winevt_xml_both new_injected
  to_event xml = event_or_panic xml (parse_winevt_xml_both parse_xml xml)

  -- `full_cmdline`
  abbrev pub nul_parts : List ℕ → List ℕ × List (List ℕ)
  nul_parts [] = ([], [])
  nul_parts (b ∷ bs) = let (p, ps) = nul_parts bs in if b == 0 then ([], p ∷ ps) else (b ∷ p, ps)

  abbrev pub joined_parts : List (List ℕ) → String
  joined_parts [] = ""
  joined_parts (p ∷ []) = text_of (lossy p)
  joined_parts (p ∷ q ∷ ps) =
      text_append (text_of (lossy p)) (text_append " " (joined_parts (q ∷ ps)))

  abbrev pub has_bytes : List ℕ → Bool
  has_bytes [] = false
  has_bytes (b ∷ bs) = true

  abbrev pub proc_cmdline : Option (List ℕ) → String
  proc_cmdline none = ""
  proc_cmdline (some raw) = let (p, ps) = nul_parts raw in joined_parts (keep has_bytes (p ∷ ps))

  abbrev pub kernel_cmdline : String → String → String
  kernel_cmdline image arg0 =
      if is_blank arg0
      then image
      else (if is_blank image then arg0 else text_append image (text_append " " arg0))

  unfoldable pub full_cmdline : World → ExecEvent → String
  unfolding cstr u64_to_string is_blank
  full_cmdline w ev =
      let joined = proc_cmdline (w.read (in_proc ev.pid "cmdline")) in
      if is_blank joined
      then kernel_cmdline (cstr from_utf8 ev.image) (cstr from_utf8 ev.arg0)
      else joined

  -- `resolve_target`
  abbrev pub is_absolute : String → Bool
  is_absolute String.[] = true
  is_absolute (String.◌∷◌ c s) = code c == b'/'

  abbrev pub below_base : String → Option String → String
  below_base raw none = raw
  below_base raw (some base) = if is_blank base then raw else text_append base (text_append "/" raw)

  unfoldable pub resolve_target : World → FileCreateEvent → String
  unfolding cstr u64_to_string is_blank
  resolve_target w ev =
      let raw = cstr from_utf8 ev.path in
      let handle = text_append "fd/" (u64_to_string ev.dirfd) in
      let base = w.read_link (in_proc ev.pid (if ltb ev.dirfd (2 ^ 31) then handle else "cwd")) in
      if is_absolute raw then raw else below_base raw base

  -- `format_addr`
  abbrev pub byte_text : ℕ → List ℕ → String
  unfolding u64_to_string
  byte_text i addr = u64_to_string (byte_or (get_elem? addr i))

  unfoldable pub format_addr : List ℕ → Bool → String
  unfolding u64_to_string
  format_addr addr is_v6 =
      if is_v6
      then ipv6 addr
      else text_append (byte_text 0 addr) (
          text_append "." (
            text_append (byte_text 1 addr) (
              text_append "."
                (text_append (byte_text 2 addr) (text_append "." (byte_text 3 addr))))))
