-- ===== src/Ebpf/Oversize.antt =====
-- The sizes of the texts of inputs/ebpf_event.rs, and the exec of a long command line.
use Prim.Native.Char.{Char, code, len_utf8, len_utf8_def}
use Prim.Native.String.{len, ◌++◌ as text_append}
use Prim.Native.String.len
use text.Mathlib.TextPositions.{len-append}
use sigmacatch.Event.Xml.Parsing.{max_xml_size, parse_winevt_xml_both}
use sigmacatch.Ebpf.Builder.{
  EventBuilder, Platform, full_cmdline, image_hash, next_id, panicked, system, to_event, user_name,
}
use sigmacatch.Ebpf.Events.{
  Data, exec_data, exec_info, exec_text, find_parent, make_event, record_text,
}
use sigmacatch.Ebpf.Proc.{World, read_ppid}
use sigmacatch.Ebpf.Render.{
  data_element, data_text, escape, event_text, replace_char, System, system_block,
}
use sigmacatch.Ebpf.Ring.{on_item, panic, run_ring}
use sigmacatch.Ebpf.Wire.{ExecEvent, exec, read_record}
use sigmacatch.Prelude.{
  Bool-cases, List, String, [], ap, arith, get_elem?, inl, inr, ltb, refl, some, suc, true, zero, ℕ,
  ◌+◌, ◌<◌, ◌==◌, ◌∙◌, ◌∷◌, ◌≡◌, ◌≤◌,
}

len_utf8-ascii : (c : Char) → code c < 128 → len_utf8 c ≡ 1
len_utf8-ascii c small = len_utf8_def c ∙ ground arith

len-cons : (c : Char) (s : String) → len (String.◌∷◌ c s) ≡ len_utf8 c + len s
len-cons c s = len.cons c s

replace_char-len : (n : ℕ) (t s : String) → n < 128 → 0 < len t → len s ≤ len (replace_char n t s)
replace_char-len n t String.[] small some_text = omega arith
replace_char-len n t (String.◌∷◌ c s) small some_text =
    let rest = replace_char-len n t s small some_text in
    elim (Bool-cases (code c == n)) [
      | inl same ↦ rw same (
          omega (
            arith,
            rest,
            len-cons c s,
            len_utf8-ascii c (ground arith),
            len-append t (replace_char n t s),
          ))
      | inr other ↦ rw other (omega (arith, rest, len-cons c s, len-cons c (replace_char n t s)))
    ]

escape-len : (s : String) → len s ≤ len (escape s)
unfolding escape
escape-len s =
    let a = replace_char b'&' "&amp;" s in
    let b = replace_char b'<' "&lt;" a in
    omega (
      arith,
      replace_char-len b'&' "&amp;" s (omega arith) (omega arith),
      replace_char-len b'<' "&lt;" a (omega arith) (omega arith),
      replace_char-len b'>' "&gt;" b (omega arith) (omega arith),
    )

append-len_left : (s t : String) → len s ≤ len (text_append s t)
append-len_left s t = omega (arith, len-append s t)

append-len_right : (s t : String) → len t ≤ len (text_append s t)
append-len_right s t = omega (arith, len-append s t)

data_element-len : (name value : String) → len value ≤ len (data_element name value)
unfolding data_element
data_element-len name value =
    let e = escape value in
    let c = text_append e "</Data>" in
    let d = text_append "\">" c in
    let f = text_append (escape name) d in
    omega (
      arith,
      escape-len value,
      append-len_left e "</Data>",
      append-len_right "\">" c,
      append-len_right (escape name) d,
      append-len_right "<Data Name=\"" f,
    )

data_text-len :
    (ds : Data) (i : ℕ) (name value : String)
    → get_elem? ds i ≡ some (name, value)
    → len value ≤ len (data_text ds)
unfolding data_text
data_text-len [] i name value e = absurd (cc)
data_text-len ((n, v) ∷ ds) zero name value e =
    let here : v ≡ value = cc in
    omega
      (arith, ap len here, data_element-len n v, append-len_left (data_element n v) (data_text ds))
data_text-len ((n, v) ∷ ds) (suc i) name value e =
    omega
      (arith, data_text-len ds i name value e, append-len_right (data_element n v) (data_text ds))

event_text-len : (s : System) (n : ℕ) (ds : Data) → len (data_text ds) ≤ len (event_text s n ds)
unfolding event_text
event_text-len s n ds =
    let c = text_append (data_text ds) "</EventData></Event>" in
    let d = text_append "</System><EventData>" c in
    let f = text_append (system_block s n) d in
    omega (
      arith,
      append-len_left (data_text ds) "</EventData></Event>",
      append-len_right "</System><EventData>" c,
      append-len_right (system_block s n) d,
      append-len_right "<Event><System>" f,
    )

module _ (platform : Platform) where
  to_event-too_large : (xml : String) → max_xml_size < len xml → to_event platform xml ≡ panicked
  unfolding to_event parse_winevt_xml_both
  to_event-too_large xml long =
      let over : ltb max_xml_size (len xml) ≡ true = ground arith in rw over refl

  -- An exec whose command line has more than 1048576 bytes ends the collector by a panic, whatever
  -- was read before and whatever the parser of XML is: no later item is read and no event is sent.
  pub run_ring-long_cmdline :
      (w : World) (bytes : List ℕ) (ev : ExecEvent) (items : List (World × List ℕ)) (k : ℕ)
      (b : EventBuilder)
      → read_record bytes ≡ some (exec ev)
      → max_xml_size < len (full_cmdline platform w ev)
      → run_ring platform ((w, bytes) ∷ items) k b ≡ ([], panic)
  unfolding run_ring on_item make_event record_text exec_text image_hash
  run_ring-long_cmdline w bytes ev items k b read long =
      let (user, b₁) = user_name w ev.uid b in
      let info = exec_info platform w ev user in
      let (hash, b₂) = image_hash w ev.pid info.image b₁ in
      let ds = exec_data w ev info hash (find_parent (read_ppid w ev.pid) b₁.parents) in
      let s = system w 1 5 1 b₂ in
      let large : max_xml_size < len (event_text s (next_id b₂) ds) = omega (
        arith,
        long,
        data_text-len ds 10 "CommandLine" (full_cmdline platform w ev) refl,
        event_text-len s (next_id b₂) ds,
      ) in
      let fails = to_event-too_large (event_text s (next_id b₂) ds) large in rw read (rw fails refl)
