-- ===== src/Ebpf/Render.antt =====
-- The text of an event in inputs/ebpf_event.rs: `escape`, `data` and `system_block`.
use Prim.Native.Char.{code}
use Prim.Native.String.{[], ◌∷◌, ◌++◌}
use sigmacatch.Event.Decimal.{u64_to_string}
use sigmacatch.Prelude.{List, String, if◌then◌else◌, ℕ, ◌==◌}

-- `str::replace` of a character by a text
abbrev pub replace_char : ℕ → String → String → String
replace_char n t [] = []
replace_char n t (c ∷ s) =
    let rest = replace_char n t s in if code c == n then t ++ rest else c ∷ rest

-- `escape`
unfoldable pub escape : String → String
escape s = replace_char b'>' "&gt;" (replace_char b'<' "&lt;" (replace_char b'&' "&amp;" s))

-- `data`
unfoldable pub data_element : String → String → String
unfolding escape
data_element name value = "<Data Name=\"" ++ (escape name ++ ("\">" ++ (escape value ++ "</Data>")))

-- The array of data, concatenated.
unfoldable pub data_text : List (String × String) → String
unfolding data_element
data_text List.[] = ""
data_text (List.◌∷◌ (name, value) ds) = data_element name value ++ data_text ds

-- What `system_block` prints besides the record's id.
pub record System : Type 0 where
  pub event_id : ℕ
  pub version : ℕ
  pub task : ℕ
  pub system_time : String
  pub hostname : String
  pub exec_pid : ℕ
  pub euid : ℕ

abbrev pub provider_guid : String
provider_guid = "{ff032593-a8d3-4f13-b0d6-01fc615a0f97}"

unfoldable pub before_id : System → String
unfolding u64_to_string
before_id s =
    "<Provider Name=\"Linux-Sysmon\" Guid=\""
    ++ (provider_guid
        ++ ("\"/><EventID>"
            ++ (u64_to_string s.event_id
                ++ ("</EventID><Version>"
                    ++ (u64_to_string s.version
                        ++ ("</Version><Level>4</Level><Task>"
                            ++ (u64_to_string s.task
                                ++ ("</Task><Opcode>0</Opcode><Keywords>0x8000000000000000</Keywords><TimeCreated SystemTime=\""
                                    ++ (s.system_time ++ "\"/>")))))))))

unfoldable pub after_id : System → String
unfolding u64_to_string
after_id s =
    "<Correlation/><Execution ProcessID=\""
    ++ (u64_to_string s.exec_pid
        ++ ("\" ThreadID=\""
            ++ (u64_to_string s.exec_pid
                ++ ("\"/><Channel>Linux-Sysmon/Operational</Channel><Computer>"
                    ++ (s.hostname
                        ++ ("</Computer><Security UserId=\""
                            ++ (u64_to_string s.euid ++ "\"/>")))))))

abbrev pub id_element : ℕ → String
unfolding u64_to_string
id_element n = "<EventRecordID>" ++ (u64_to_string n ++ "</EventRecordID>")

-- `system_block`, given the id that it counted up to.
unfoldable pub system_block : System → ℕ → String
unfolding before_id after_id u64_to_string
system_block s n = before_id s ++ (id_element n ++ after_id s)

-- The whole text.
unfoldable pub event_text : System → ℕ → List (String × String) → String
unfolding system_block data_text
event_text s n ds =
    "<Event><System>"
    ++ (system_block s n ++ ("</System><EventData>" ++ (data_text ds ++ "</EventData></Event>")))
