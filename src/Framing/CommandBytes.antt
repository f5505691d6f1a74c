-- ===== src/Framing/CommandBytes.antt =====
-- message.go: the commands fit the header, and what is left of them there is the command.
use go_wire.Prelude.{
  leb, ◌≤◌, false, All, [], refl, length, ltb, List, ℕ, ◌≡◌, ◌∷◌, ◌<◌, true, ◌&&◌, arith, not, Bool,
}
use go_wire.Framing.Utf8.{after_first, valid_from, valid_string}
use go_wire.Io.{IsByte}
use go_wire.Message.{command_of}
use go_wire.Message.Types.{
  msg_get_cfheaders, msg_create_stream, msg_not_found, msg_headers, msg_version, msg_pong,
  msg_filter_clear, msg_send_cmpct, msg_auth_ch, msg_protoconf, msg_cfcheckpt, msg_get_cfilters,
  msg_cf_headers, msg_ver_ack, msg_addr, msg_reject, msg_get_cfcheckpt, MessageType,
  msg_send_headers, msg_filter_load, msg_extended_tx, msg_mem_pool, msg_auth_resp, msg_ext_msg,
  msg_get_headers, msg_stream_ack, msg_get_blocks, msg_merkle_block, msg_cfilter, msg_get_data,
  msg_tx, msg_get_addr, msg_block, msg_filter_add, msg_inv, msg_ping, msg_fee_filter,
}
use go_wire.MessageHeader.{trim_zeros, same_bytes, trim_step, command_size, ext_msg_command}
use go_wire.MessageHeader.Bytes.{same_bytes-eq}

unfoldable pub all_bytes : List ℕ → Bool
all_bytes [] = true
all_bytes (b ∷ s) = ltb b 256 && all_bytes s

-- at most 12 bytes, none of them a zero at the end, valid UTF-8, and not "extmsg"
unfoldable pub fits_header : List ℕ → Bool
fits_header c =
    leb (length c) command_size
    && (all_bytes c
        && (same_bytes (trim_zeros c) c && (valid_string c && not (same_bytes c ext_msg_command))))

pub all_bytes-IsByte : (s : List ℕ) → all_bytes s ≡ true → All IsByte s
unfolding all_bytes
all_bytes-IsByte [] h = tt
all_bytes-IsByte (b ∷ s) h =
    let both : (b < 256) × (all_bytes s ≡ true) = ground (arith, h) in
    (both.0, all_bytes-IsByte s both.1)

pub command_of-fits : (t : MessageType) → fits_header (command_of t) ≡ true
unfolding fits_header command_of all_bytes same_bytes trim_zeros trim_step valid_string valid_from
    after_first
command_of-fits msg_version = refl
command_of-fits msg_ver_ack = refl
command_of-fits msg_get_addr = refl
command_of-fits msg_addr = refl
command_of-fits msg_get_blocks = refl
command_of-fits msg_inv = refl
command_of-fits msg_get_data = refl
command_of-fits msg_not_found = refl
command_of-fits msg_block = refl
command_of-fits msg_tx = refl
command_of-fits msg_extended_tx = refl
command_of-fits msg_get_headers = refl
command_of-fits msg_headers = refl
command_of-fits msg_ping = refl
command_of-fits msg_pong = refl
command_of-fits msg_mem_pool = refl
command_of-fits msg_filter_add = refl
command_of-fits msg_filter_clear = refl
command_of-fits msg_filter_load = refl
command_of-fits msg_merkle_block = refl
command_of-fits msg_reject = refl
command_of-fits msg_send_headers = refl
command_of-fits msg_fee_filter = refl
command_of-fits msg_get_cfilters = refl
command_of-fits msg_get_cfheaders = refl
command_of-fits msg_get_cfcheckpt = refl
command_of-fits msg_cfilter = refl
command_of-fits msg_cf_headers = refl
command_of-fits msg_cfcheckpt = refl
command_of-fits msg_protoconf = refl
command_of-fits msg_ext_msg = refl
command_of-fits msg_auth_ch = refl
command_of-fits msg_auth_resp = refl
command_of-fits msg_send_cmpct = refl
command_of-fits msg_create_stream = refl
command_of-fits msg_stream_ack = refl

-- What is left of a command in the header.
pub record IsCommand (c : List ℕ) : Type 0 where
  pub short : length c ≤ command_size
  pub bytes : All IsByte c
  pub trimmed : trim_zeros c ≡ c
  pub valid : valid_string c ≡ true
  pub plain : same_bytes c ext_msg_command ≡ false

pub command_of-IsCommand : (t : MessageType) → IsCommand (command_of t)
unfolding fits_header
command_of-IsCommand t =
    let c = command_of t in
    let h : (length c ≤ command_size)
        × (all_bytes c ≡ true)
        × (same_bytes (trim_zeros c) c ≡ true)
        × (valid_string c ≡ true)
        × (same_bytes c ext_msg_command ≡ false) =
      ground (arith, command_of-fits t) in
    record {
      short = h.0;
      bytes = all_bytes-IsByte c h.1;
      trimmed = same_bytes-eq (trim_zeros c) c h.2;
      valid = h.3;
      plain = h.4;
    }
