-- ===== src/Examples/Headers.antt =====
-- Headers of messages.
use go_wire.Prelude.{refl, List, arith, [], ℕ, replicate, ◌++◌, ◌≡◌, ◌∷◌}
use go_wire.Binary.{from_le, of_order, uint_of, uint64, uint32}
use go_wire.Element.{read_element}
use go_wire.Io.{ok, read_full}
use go_wire.Io.Reads.{RoundTrips}
use go_wire.MessageHeader.{
  read_kept, trim_zeros, ext_msg_command, read_message_header, parse_header, MessageHeader,
  write_message_header, same_bytes, extended, announces_extension, trim_step,
}
use go_wire.MessageHeader.Extended.{read_message_header-unextended}
use go_wire.MessageHeader.RoundTrip.{read_message_header-write_message_header, IsPlainHeader}

-- "verack"
abbrev verack_header : MessageHeader
verack_header = record {
  magic = 0xe8f3_e1e3;
  command = 0x76 ∷ 0x65 ∷ 0x72 ∷ 0x61 ∷ 0x63 ∷ 0x6b ∷ [];
  length = 0;
  checksum = 0x5d ∷ 0xf6 ∷ 0xe0 ∷ 0xe2 ∷ [];
  ext_length = 0;
}

verack_header-IsPlainHeader : IsPlainHeader verack_header
unfolding trim_zeros trim_step announces_extension same_bytes
verack_header-IsPlainHeader = record {
  magic = omega arith;
  short = omega arith;
  bytes = omega arith;
  trimmed = refl;
  size = omega arith;
  checksum = (refl, omega arith);
  plain = refl;
  no_extension = refl;
}

read_message_header-write_message_header_example :
    RoundTrips (write_message_header verack_header) read_message_header verack_header
read_message_header-write_message_header_example =
    read_message_header-write_message_header verack_header verack_header-IsPlainHeader

-- The header of an extended message, and after it the command "tx" and the length 5 of its payload.
abbrev extended_input : List ℕ
extended_input =
    (0xe3 ∷ 0xe1 ∷ 0xf3 ∷ 0xe8 ∷ [])
    ++ (ext_msg_command
        ++ (replicate 6 0
            ++ (replicate 4 0xff
                ++ (replicate 4 0 ++ (0x74 ∷ 0x78 ∷ (replicate 10 0 ++ (5 ∷ replicate 7 0)))))))

abbrev read_header : MessageHeader
read_header = record {
  magic = 0xe8f3_e1e3;
  command = [];
  length = 0xffff_ffff;
  checksum = replicate 4 0;
  ext_length = 0;
}

-- The command and the length behind the header are not read.
read_extended :
    read_message_header extended_input
    ≡ ok read_header (0x74 ∷ 0x78 ∷ (replicate 10 0 ++ (5 ∷ replicate 7 0)))
unfolding read_message_header parse_header extended read_kept announces_extension same_bytes
    trim_zeros trim_step read_full read_element uint32 uint64 uint_of of_order from_le
read_extended = refl

read_message_header-unextended_example : read_header.ext_length ≡ 0
read_message_header-unextended_example =
    read_message_header-unextended extended_input read_header _
      (record { bytes = omega arith; short = omega arith }) read_extended
