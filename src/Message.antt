-- ===== src/Message.antt =====
-- message.go: the Message interface, as the operations of each type that implements it, and
-- makeEmptyMessage. What the messages take from other packages is a parameter.
pub mod Types
pub mod MaxPayload
pub mod Commands
pub mod Coding
pub mod Valid
pub mod RoundTrip
pub mod Unread
pub mod AtMost
pub mod New
pub mod PartBounds
pub mod Bounds
use go_wire.Message.Commands.*
use go_wire.Message.Types.*
use go_wire.Prelude.{some, List, ℕ, Option, ◌∷◌, if◌then◌else◌, [], none}
use go_wire.Auth.{auth_resp_max_payload_length, auth_ch_max_payload_length}
use go_wire.Inventory.{inv_max_payload_length}
use go_wire.Message.MaxPayload.{
  not_found_max_payload_length, merkle_block_max_payload_length, block_max_payload_length,
  get_headers_max_payload_length, cfcheckpt_max_payload_length, get_blocks_max_payload_length,
  create_stream_max_payload_length, cfilter_max_payload_length, tx_max_payload_length,
  get_cfcheckpt_max_payload_length, send_cmpct_max_payload_length, get_data_max_payload_length,
  headers_max_payload_length, fee_filter_max_payload_length, filter_add_max_payload_length,
  get_cfheaders_max_payload_length, stream_ack_max_payload_length, extended_tx_max_payload_length,
  cf_headers_max_payload_length, filter_load_max_payload_length, pong_max_payload_length,
  get_cfilters_max_payload_length,
}
use go_wire.MessageHeader.{same_bytes}
use go_wire.NetAddress.{addr_max_payload_length}
use go_wire.Ping.{ping_max_payload_length}
use go_wire.Protoconf.{max_protoconf_payload}
use go_wire.Reject.{reject_max_payload_length}
use go_wire.Version.{version_max_payload_length}

-- Command: an extmsg has the command of a protoconf.
unfoldable pub command_of : MessageType → List ℕ
command_of msg_version = cmd_version
command_of msg_ver_ack = cmd_ver_ack
command_of msg_get_addr = cmd_get_addr
command_of msg_addr = cmd_addr
command_of msg_get_blocks = cmd_get_blocks
command_of msg_inv = cmd_inv
command_of msg_get_data = cmd_get_data
command_of msg_not_found = cmd_not_found
command_of msg_block = cmd_block
command_of msg_tx = cmd_tx
command_of msg_extended_tx = cmd_extended_tx
command_of msg_get_headers = cmd_get_headers
command_of msg_headers = cmd_headers
command_of msg_ping = cmd_ping
command_of msg_pong = cmd_pong
command_of msg_mem_pool = cmd_mem_pool
command_of msg_filter_add = cmd_filter_add
command_of msg_filter_clear = cmd_filter_clear
command_of msg_filter_load = cmd_filter_load
command_of msg_merkle_block = cmd_merkle_block
command_of msg_reject = cmd_reject
command_of msg_send_headers = cmd_send_headers
command_of msg_fee_filter = cmd_fee_filter
command_of msg_get_cfilters = cmd_get_cfilters
command_of msg_get_cfheaders = cmd_get_cfheaders
command_of msg_get_cfcheckpt = cmd_get_cfcheckpt
command_of msg_cfilter = cmd_cfilter
command_of msg_cf_headers = cmd_cf_headers
command_of msg_cfcheckpt = cmd_cfcheckpt
command_of msg_protoconf = cmd_protoconf
command_of msg_ext_msg = cmd_protoconf
command_of msg_auth_ch = cmd_auth_ch
command_of msg_auth_resp = cmd_auth_resp
command_of msg_send_cmpct = cmd_send_cmpct
command_of msg_create_stream = cmd_create_stream
command_of msg_stream_ack = cmd_stream_ack

unfoldable pub max_payload_length : ℕ → ℕ → MessageType → ℕ
max_payload_length ebs pver msg_version = version_max_payload_length pver
max_payload_length ebs pver msg_ver_ack = 0
max_payload_length ebs pver msg_get_addr = 0
max_payload_length ebs pver msg_addr = addr_max_payload_length pver
max_payload_length ebs pver msg_get_blocks = get_blocks_max_payload_length
max_payload_length ebs pver msg_inv = inv_max_payload_length
max_payload_length ebs pver msg_get_data = get_data_max_payload_length
max_payload_length ebs pver msg_not_found = not_found_max_payload_length
max_payload_length ebs pver msg_block = block_max_payload_length ebs
max_payload_length ebs pver msg_tx = tx_max_payload_length ebs
max_payload_length ebs pver msg_extended_tx = extended_tx_max_payload_length ebs
max_payload_length ebs pver msg_get_headers = get_headers_max_payload_length
max_payload_length ebs pver msg_headers = headers_max_payload_length
max_payload_length ebs pver msg_ping = ping_max_payload_length pver
max_payload_length ebs pver msg_pong = pong_max_payload_length pver
max_payload_length ebs pver msg_mem_pool = 0
max_payload_length ebs pver msg_filter_add = filter_add_max_payload_length
max_payload_length ebs pver msg_filter_clear = 0
max_payload_length ebs pver msg_filter_load = filter_load_max_payload_length
max_payload_length ebs pver msg_merkle_block = merkle_block_max_payload_length ebs
max_payload_length ebs pver msg_reject = reject_max_payload_length ebs pver
max_payload_length ebs pver msg_send_headers = 0
max_payload_length ebs pver msg_fee_filter = fee_filter_max_payload_length
max_payload_length ebs pver msg_get_cfilters = get_cfilters_max_payload_length
max_payload_length ebs pver msg_get_cfheaders = get_cfheaders_max_payload_length
max_payload_length ebs pver msg_get_cfcheckpt = get_cfcheckpt_max_payload_length
max_payload_length ebs pver msg_cfilter = cfilter_max_payload_length
max_payload_length ebs pver msg_cf_headers = cf_headers_max_payload_length
max_payload_length ebs pver msg_cfcheckpt = cfcheckpt_max_payload_length ebs
max_payload_length ebs pver msg_protoconf = max_protoconf_payload
max_payload_length ebs pver msg_ext_msg = max_protoconf_payload
max_payload_length ebs pver msg_auth_ch = auth_ch_max_payload_length
max_payload_length ebs pver msg_auth_resp = auth_resp_max_payload_length
max_payload_length ebs pver msg_send_cmpct = send_cmpct_max_payload_length
max_payload_length ebs pver msg_create_stream = create_stream_max_payload_length
max_payload_length ebs pver msg_stream_ack = stream_ack_max_payload_length

-- the cases of the switch of makeEmptyMessage, which has none for CmdGetCFHeaders
abbrev pub message_cases : List (List ℕ × MessageType)
message_cases =
    (cmd_version, msg_version)
    ∷ (cmd_ver_ack, msg_ver_ack)
    ∷ (cmd_get_addr, msg_get_addr)
    ∷ (cmd_addr, msg_addr)
    ∷ (cmd_get_blocks, msg_get_blocks)
    ∷ (cmd_inv, msg_inv)
    ∷ (cmd_get_data, msg_get_data)
    ∷ (cmd_not_found, msg_not_found)
    ∷ (cmd_block, msg_block)
    ∷ (cmd_tx, msg_tx)
    ∷ (cmd_extended_tx, msg_extended_tx)
    ∷ (cmd_get_headers, msg_get_headers)
    ∷ (cmd_headers, msg_headers)
    ∷ (cmd_ping, msg_ping)
    ∷ (cmd_pong, msg_pong)
    ∷ (cmd_mem_pool, msg_mem_pool)
    ∷ (cmd_filter_add, msg_filter_add)
    ∷ (cmd_filter_clear, msg_filter_clear)
    ∷ (cmd_filter_load, msg_filter_load)
    ∷ (cmd_merkle_block, msg_merkle_block)
    ∷ (cmd_reject, msg_reject)
    ∷ (cmd_send_headers, msg_send_headers)
    ∷ (cmd_fee_filter, msg_fee_filter)
    ∷ (cmd_get_cfilters, msg_get_cfilters)
    ∷ (cmd_get_cfcheckpt, msg_get_cfcheckpt)
    ∷ (cmd_cfilter, msg_cfilter)
    ∷ (cmd_cf_headers, msg_cf_headers)
    ∷ (cmd_cfcheckpt, msg_cfcheckpt)
    ∷ (cmd_protoconf, msg_protoconf)
    ∷ (cmd_ext_msg, msg_ext_msg)
    ∷ (cmd_auth_ch, msg_auth_ch)
    ∷ (cmd_auth_resp, msg_auth_resp)
    ∷ (cmd_send_cmpct, msg_send_cmpct)
    ∷ (cmd_create_stream, msg_create_stream)
    ∷ (cmd_stream_ack, msg_stream_ack)
    ∷ []

-- `switch command { … }`
unfoldable pub switch : List ℕ → List (List ℕ × MessageType) → Option MessageType
switch command [] = none
switch command ((c, t) ∷ cases) = if same_bytes command c then some t else switch command cases

unfoldable pub make_empty_message : List ℕ → Option MessageType
make_empty_message command = switch command message_cases
