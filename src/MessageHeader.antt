-- ===== src/MessageHeader.antt =====
-- message.go: the header of a message, as readMessageHeader reads it and as
-- WriteMessageWithEncodingN writes it. A command is its bytes.
pub mod Bytes
pub mod Extended
pub mod RoundTrip
use go_wire.Prelude.{◌∷◌, ℕ, ◌==◌, Bool, replicate, if◌then◌else◌, true, List, false, ◌&&◌, []}
use go_wire.Element.{
  bool, bytes4, command, ip, hash, bitcoin_net, service_flag, inv_type, reject_code, int64_time,
  uint32_kind, uint64_kind, uint8_kind, int32, Kind, read_element, Value, int64, Values,
  write_elements, bloom_update_type, uint32_time,
}
use go_wire.Io.{err, ◌>>=◌, read_full, Read, Put, ok, ◌>>◌, pure}
use go_wire.Tx.Scripts.{copy_at}

abbrev pub message_header_size : ℕ
message_header_size = 24

abbrev pub command_size : ℕ
command_size = 12

pub record MessageHeader : Type 0 where
  pub magic : ℕ
  pub command : List ℕ
  pub length : ℕ
  pub checksum : List ℕ
  pub ext_length : ℕ

-- `bytes.TrimRight(b, "\x00")`
unfoldable pub trim_step : ℕ → List ℕ → List ℕ
trim_step b [] = if b == 0 then [] else (b ∷ [])
trim_step b (c ∷ rest) = b ∷ c ∷ rest

unfoldable pub trim_zeros : List ℕ → List ℕ
trim_zeros [] = []
trim_zeros (b ∷ bs) = trim_step b (trim_zeros bs)

unfoldable pub same_bytes : List ℕ → List ℕ → Bool
same_bytes [] [] = true
same_bytes (x ∷ xs) (y ∷ ys) = (x == y) && same_bytes xs ys
same_bytes xs ys = false

-- The values of variables that a call of readElements whose error is dropped has not reached. An
-- array that is read in part is not told apart from one that is not read.
abbrev pub zero_value : (k : Kind) → Value k
zero_value bool = false
zero_value bytes4 = replicate 4 0
zero_value command = replicate 12 0
zero_value ip = replicate 16 0
zero_value hash = replicate 32 0
zero_value int32 = 0
zero_value uint32_kind = 0
zero_value int64 = 0
zero_value uint64_kind = 0
zero_value uint32_time = 0
zero_value int64_time = 0
zero_value service_flag = 0
zero_value inv_type = 0
zero_value bitcoin_net = 0
zero_value bloom_update_type = 0
zero_value reject_code = 0
zero_value uint8_kind = 0

abbrev pub zero_values : (ks : List Kind) → Values ks
zero_values [] = tt
zero_values (k ∷ ks) = (zero_value k, zero_values ks)

-- `_ = readElements(hr, …)`: what the variables hold afterwards, and what is left of `hr`
unfoldable pub read_kept : (ks : List Kind) → List ℕ → Values ks × List ℕ
read_kept [] s = (tt, s)
read_kept (k ∷ ks) s = elim (read_element k s) [
  | ok v rest ↦ let (vs, left) = read_kept ks rest in ((v, vs), left)
  | err e rest ↦ (zero_values (k ∷ ks), rest)
]

abbrev pub message_header_kinds : List Kind
message_header_kinds = bitcoin_net ∷ command ∷ uint32_kind ∷ bytes4 ∷ []

abbrev pub extension_kinds : List Kind
extension_kinds = command ∷ uint64_kind ∷ []

-- "extmsg"
abbrev pub ext_msg_command : List ℕ
ext_msg_command = 0x65 ∷ 0x78 ∷ 0x74 ∷ 0x6d ∷ 0x73 ∷ 0x67 ∷ []

unfoldable pub announces_extension : List ℕ → ℕ → List ℕ → Bool
announces_extension cmd len checksum =
    same_bytes cmd ext_msg_command
    && ((len == 0xffff_ffff) && same_bytes checksum (0 ∷ 0 ∷ 0 ∷ 0 ∷ []))

-- the header with what the second call of readElements gives
unfoldable pub extended : MessageHeader → Values extension_kinds × List ℕ → MessageHeader
extended hdr ((actual, (n, _)), left) = record hdr { command = trim_zeros actual; ext_length = n }

unfoldable pub parse_header : Values message_header_kinds × List ℕ → MessageHeader
parse_header ((m, (c, (n, (k, _)))), hr) =
    let hdr : MessageHeader = record {
      magic = m;
      command = trim_zeros c;
      length = n;
      checksum = k;
      ext_length = 0;
    } in
    if announces_extension (trim_zeros c) n k
    then extended hdr (read_kept extension_kinds hr)
    else hdr

-- readMessageHeader, less the count of bytes read.
unfoldable pub read_message_header : Read MessageHeader
read_message_header = do
  header_bytes ← read_full message_header_size
  pure (parse_header (read_kept message_header_kinds header_bytes))

-- `copy(command[:], cmd)` and the header that WriteMessageWithEncodingN writes
unfoldable pub write_message_header : MessageHeader → Put
write_message_header hdr = write_elements message_header_kinds (
  hdr.magic,
  (copy_at (replicate command_size 0) 0 hdr.command, (hdr.length, (hdr.checksum, tt))),
)
