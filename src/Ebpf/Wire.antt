-- ===== src/Ebpf/Wire.antt =====
-- sigmacatch/src/ebpf_common.rs: the records of the ring buffer, as `from_bytes` reads them.
use sigmacatch.Prelude.{
  List, Option, String, [], drop, if◌then◌else◌, length, ltb, none, refl, some, take, ℕ, ◌*◌, ◌+◌,
  ◌==◌, ◌∷◌, ◌≡◌,
}

-- `u32::from_le_bytes` and the numbers in a record of a little-endian machine.
abbrev pub little_endian : List ℕ → ℕ
little_endian [] = 0
little_endian (b ∷ bs) = b + 256 * little_endian bs

abbrev pub bytes_at : ℕ → ℕ → List ℕ → List ℕ
bytes_at i n bs = take n (drop i bs)

abbrev pub number_at : ℕ → ℕ → List ℕ → ℕ
number_at i n bs = little_endian (bytes_at i n bs)

-- `cstr`, over the bytes of the field; `from_utf8` is that of the standard library.
abbrev pub until_nul : List ℕ → List ℕ
until_nul [] = []
until_nul (b ∷ bs) = let rest = until_nul bs in if b == 0 then [] else b ∷ rest

abbrev pub text_or_empty : Option String → String
text_or_empty none = ""
text_or_empty (some s) = s

unfoldable pub cstr : (from_utf8 : List ℕ → Option String) → List ℕ → String
cstr from_utf8 field = text_or_empty (from_utf8 (until_nul field))

pub record ExecEvent : Type 0 where
  pub pid : ℕ
  pub uid : ℕ
  pub gid : ℕ
  pub comm : List ℕ
  pub image : List ℕ
  pub arg0 : List ℕ

pub record ExitEvent : Type 0 where
  pub pid : ℕ

pub record NetEvent : Type 0 where
  pub pid : ℕ
  pub uid : ℕ
  pub gid : ℕ
  pub family : ℕ
  pub port_bytes : List ℕ
  pub addr : List ℕ
  pub comm : List ℕ

-- `dirfd` is an `i32`, here with its 32 bits as a number: it is negative from `2 ^ 31` on.
pub record FileCreateEvent : Type 0 where
  pub pid : ℕ
  pub uid : ℕ
  pub gid : ℕ
  pub dirfd : ℕ
  pub path : List ℕ
  pub comm : List ℕ

pub record DnsEvent : Type 0 where
  pub pid : ℕ
  pub uid : ℕ
  pub gid : ℕ
  pub payload_len : ℕ
  pub comm : List ℕ
  pub payload : List ℕ

abbrev pub sized {ℓ} : {A : Type ℓ} → ℕ → List ℕ → A → Option A
sized n bs a = if length bs == n then some a else none

-- `ExecEvent::from_bytes` and its siblings: exactly the size of the record.
unfoldable pub exec_from_bytes : List ℕ → Option ExecEvent
exec_from_bytes bs = sized 296 bs (record {
  pid = number_at 4 4 bs;
  uid = number_at 8 4 bs;
  gid = number_at 12 4 bs;
  comm = bytes_at 20 16 bs;
  image = bytes_at 36 128 bs;
  arg0 = bytes_at 164 128 bs;
})

unfoldable pub exit_from_bytes : List ℕ → Option ExitEvent
exit_from_bytes bs = sized 8 bs (record { pid = number_at 4 4 bs })

unfoldable pub net_from_bytes : List ℕ → Option NetEvent
net_from_bytes bs = sized 56 bs (record {
  pid = number_at 4 4 bs;
  uid = number_at 8 4 bs;
  gid = number_at 12 4 bs;
  family = number_at 16 2 bs;
  port_bytes = bytes_at 20 2 bs;
  addr = bytes_at 24 16 bs;
  comm = bytes_at 40 16 bs;
})

unfoldable pub file_from_bytes : List ℕ → Option FileCreateEvent
file_from_bytes bs = sized 296 bs (record {
  pid = number_at 4 4 bs;
  uid = number_at 8 4 bs;
  gid = number_at 12 4 bs;
  dirfd = number_at 16 4 bs;
  path = bytes_at 24 256 bs;
  comm = bytes_at 280 16 bs;
})

unfoldable pub dns_from_bytes : List ℕ → Option DnsEvent
dns_from_bytes bs = sized 296 bs (record {
  pid = number_at 4 4 bs;
  uid = number_at 8 4 bs;
  gid = number_at 12 4 bs;
  payload_len = number_at 16 4 bs;
  comm = bytes_at 24 16 bs;
  payload = bytes_at 40 256 bs;
})

-- A record of the ring buffer.
pub data RingRecord : Type 0 where
  exec : ExecEvent → RingRecord
  exit : ExitEvent → RingRecord
  file : FileCreateEvent → RingRecord
  dns : DnsEvent → RingRecord
  net : NetEvent → RingRecord

abbrev pub as_record {ℓ} : {A : Type ℓ} → (A → RingRecord) → Option A → Option RingRecord
as_record f none = none
as_record f (some a) = some (f a)

-- The dispatch by the first four bytes.
unfoldable pub read_record : List ℕ → Option RingRecord
unfolding exec_from_bytes exit_from_bytes net_from_bytes file_from_bytes dns_from_bytes
read_record bs =
    let tag = number_at 0 4 bs in
    if ltb (length bs) 4
    then none
    else (if tag == 1
        then as_record exec (exec_from_bytes bs)
        else (if tag == 2
            then as_record exit (exit_from_bytes bs)
            else (if tag == 4
                then as_record file (file_from_bytes bs)
                else (if tag == 5
                    then as_record dns (dns_from_bytes bs)
                    else (if tag == 3 then as_record net (net_from_bytes bs) else none)))))

wire_tests :
    (read_record (2 ∷ 0 ∷ 0 ∷ 0 ∷ 7 ∷ 1 ∷ 0 ∷ 0 ∷ []) ≡ some (exit (record { pid = 263 })))
    × (read_record (1 ∷ 0 ∷ 0 ∷ 0 ∷ 7 ∷ 1 ∷ 0 ∷ 0 ∷ []) ≡ none)
    × (read_record (2 ∷ 0 ∷ []) ≡ none)
unfolding read_record
wire_tests = (refl, refl, refl)
