-- ===== src/Message/MaxPayload.antt =====
-- MaxPayloadLength of the messages whose bound is a constant or the limit of all messages, each by
-- the name of its message; the other modules have those that depend on the protocol version.
use go_wire.Prelude.{◌*◌, ◌+◌, ℕ, if◌then◌else◌, ltb}
use go_wire.BlockHeader.{max_block_header_payload}
use go_wire.CompactFilters.{max_cf_headers_per_msg, max_cfilter_data_size}
use go_wire.FilterMessages.{max_filter_add_data_size, max_filter_load_filter_size}
use go_wire.Headers.{max_block_headers_per_msg}
use go_wire.Inventory.{max_inv_vect_payload, max_inv_per_msg}
use go_wire.Limits.{max_var_int_payload, max_block_payload, max_message_payload, hash_size}
use go_wire.Locator.{max_block_locators_per_msg}
use go_wire.Ping.{bip0031_version}
use go_wire.Streams.{max_association_id_len}
use go_wire.VarInt.{var_int_serialize_size}
use go_wire.Version.{max_user_agent_len}

abbrev pub get_data_max_payload_length : ℕ
get_data_max_payload_length = max_var_int_payload + max_inv_per_msg * max_inv_vect_payload

abbrev pub not_found_max_payload_length : ℕ
not_found_max_payload_length = max_var_int_payload + max_inv_per_msg * max_inv_vect_payload

abbrev pub get_blocks_max_payload_length : ℕ
get_blocks_max_payload_length =
    4 + max_var_int_payload + max_block_locators_per_msg * hash_size + hash_size

abbrev pub get_headers_max_payload_length : ℕ
get_headers_max_payload_length =
    4 + max_var_int_payload + max_block_locators_per_msg * hash_size + hash_size

abbrev pub headers_max_payload_length : ℕ
headers_max_payload_length =
    max_var_int_payload + (max_block_header_payload + 1) * max_block_headers_per_msg

abbrev pub fee_filter_max_payload_length : ℕ
fee_filter_max_payload_length = 8

abbrev pub filter_add_max_payload_length : ℕ
filter_add_max_payload_length =
    var_int_serialize_size max_filter_add_data_size + max_filter_add_data_size

abbrev pub filter_load_max_payload_length : ℕ
filter_load_max_payload_length =
    var_int_serialize_size max_filter_load_filter_size + max_filter_load_filter_size + 9

abbrev pub get_cfilters_max_payload_length : ℕ
get_cfilters_max_payload_length = 1 + 4 + hash_size

abbrev pub get_cfheaders_max_payload_length : ℕ
get_cfheaders_max_payload_length = 1 + 4 + hash_size

abbrev pub get_cfcheckpt_max_payload_length : ℕ
get_cfcheckpt_max_payload_length = 1 + hash_size

abbrev pub cfilter_max_payload_length : ℕ
cfilter_max_payload_length =
    var_int_serialize_size max_cfilter_data_size + max_cfilter_data_size + hash_size + 1

abbrev pub cf_headers_max_payload_length : ℕ
cf_headers_max_payload_length =
    1 + hash_size + hash_size + max_var_int_payload + hash_size * max_cf_headers_per_msg

abbrev pub stream_ack_max_payload_length : ℕ
stream_ack_max_payload_length = max_var_int_payload + max_association_id_len + 1

abbrev pub create_stream_max_payload_length : ℕ
create_stream_max_payload_length =
    max_var_int_payload + max_association_id_len + 1 + max_var_int_payload + max_user_agent_len

abbrev pub send_cmpct_max_payload_length : ℕ
send_cmpct_max_payload_length = 1 + 8

unfoldable pub pong_max_payload_length : ℕ → ℕ
pong_max_payload_length pver = if ltb bip0031_version pver then 8 else 0

unfoldable pub cfcheckpt_max_payload_length : ℕ → ℕ
cfcheckpt_max_payload_length ebs = max_message_payload ebs

-- MaxPayloadLength of block, tx, exttx and merkleblock
unfoldable pub block_max_payload_length : ℕ → ℕ
block_max_payload_length ebs = max_block_payload ebs

unfoldable pub tx_max_payload_length : ℕ → ℕ
tx_max_payload_length ebs = max_block_payload ebs

unfoldable pub extended_tx_max_payload_length : ℕ → ℕ
extended_tx_max_payload_length ebs = max_block_payload ebs

unfoldable pub merkle_block_max_payload_length : ℕ → ℕ
merkle_block_max_payload_length ebs = max_block_payload ebs
