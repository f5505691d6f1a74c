-- ===== src/Message/New.antt =====
-- The constructors of the messages; a receiver's remaining fields are zero, and a capacity is not
-- modelled.
use go_wire.Prelude.{ℕ, [], replicate, List, Bool}
use go_wire.BlockHeader.{BlockHeader}
use go_wire.CompactFilters.{
  MsgCfCheckpt, MsgGetCfCheckpt, MsgCFilter, MsgGetCfHeaders, MsgCfHeaders, MsgGetCFilters,
}
use go_wire.FilterMessages.{MsgFilterLoad, MsgFilterAdd, MsgMerkleBlock}
use go_wire.Headers.{MsgHeaders}
use go_wire.Inventory.{MsgGetData, MsgNotFound, MsgInv}
use go_wire.Locator.{MsgGetBlocks, MsgGetHeaders}
use go_wire.NetAddress.{MsgAddr}
use go_wire.Ping.{MsgFeeFilter, MsgPing, MsgPong}
use go_wire.Streams.{MsgStreamAck, MsgCreateStream, MsgSendcmpct}

-- ProtocolVersion of protocol.go
abbrev pub latest_protocol_version : ℕ
latest_protocol_version = 70016

-- the zero chainhash.Hash
abbrev pub zero_hash : List ℕ
zero_hash = replicate 32 0

unfoldable pub new_msg_ping : ℕ → MsgPing
new_msg_ping nonce = record { nonce = nonce }

unfoldable pub new_msg_pong : ℕ → MsgPong
new_msg_pong nonce = record { nonce = nonce }

unfoldable pub new_msg_fee_filter : ℕ → MsgFeeFilter
new_msg_fee_filter min_fee = record { min_fee = min_fee }

unfoldable pub new_msg_inv : MsgInv
new_msg_inv = record { inv_list = [] }

unfoldable pub new_msg_inv_size_hint : ℕ → MsgInv
new_msg_inv_size_hint size_hint = record { inv_list = [] }

unfoldable pub new_msg_get_data : MsgGetData
new_msg_get_data = record { inv_list = [] }

unfoldable pub new_msg_get_data_size_hint : ℕ → MsgGetData
new_msg_get_data_size_hint size_hint = record { inv_list = [] }

unfoldable pub new_msg_not_found : MsgNotFound
new_msg_not_found = record { inv_list = [] }

unfoldable pub new_msg_get_blocks : List ℕ → MsgGetBlocks
new_msg_get_blocks stop = record {
  protocol_version = latest_protocol_version;
  block_locator_hashes = [];
  hash_stop = stop;
}

unfoldable pub new_msg_get_headers : MsgGetHeaders
new_msg_get_headers = record {
  protocol_version = 0;
  block_locator_hashes = [];
  hash_stop = zero_hash;
}

unfoldable pub new_msg_headers : MsgHeaders
new_msg_headers = record { headers = [] }

unfoldable pub new_msg_filter_add : List ℕ → MsgFilterAdd
new_msg_filter_add bs = record { data_bytes = bs }

unfoldable pub new_msg_filter_load : List ℕ → ℕ → ℕ → ℕ → MsgFilterLoad
new_msg_filter_load f n t u = record { filter = f; hash_funcs = n; tweak = t; flags = u }

unfoldable pub new_msg_merkle_block : BlockHeader → MsgMerkleBlock
new_msg_merkle_block bh = record { header = bh; transactions = 0; hashes = []; flags = [] }

unfoldable pub new_msg_get_cfilters : ℕ → ℕ → List ℕ → MsgGetCFilters
new_msg_get_cfilters t n h = record { filter_type = t; start_height = n; stop_hash = h }

unfoldable pub new_msg_get_cfheaders : ℕ → ℕ → List ℕ → MsgGetCfHeaders
new_msg_get_cfheaders t n h = record { filter_type = t; start_height = n; stop_hash = h }

unfoldable pub new_msg_get_cfcheckpt : ℕ → List ℕ → MsgGetCfCheckpt
new_msg_get_cfcheckpt t h = record { filter_type = t; stop_hash = h }

unfoldable pub new_msg_cfilter : ℕ → List ℕ → List ℕ → MsgCFilter
new_msg_cfilter t h bs = record { filter_type = t; block_hash = h; data_bytes = bs }

unfoldable pub new_msg_cf_headers : MsgCfHeaders
new_msg_cf_headers = record {
  filter_type = 0;
  stop_hash = zero_hash;
  prev_filter_header = zero_hash;
  filter_hashes = [];
}

unfoldable pub new_msg_cfcheckpt : ℕ → List ℕ → ℕ → MsgCfCheckpt
new_msg_cfcheckpt t h headers_count = record { filter_type = t; stop_hash = h; filter_headers = [] }

unfoldable pub new_msg_stream_ack : List ℕ → ℕ → MsgStreamAck
new_msg_stream_ack id t = record { association_id = id; stream_type = t }

unfoldable pub new_msg_create_stream : List ℕ → ℕ → List ℕ → MsgCreateStream
new_msg_create_stream id t name = record {
  association_id = id;
  stream_type = t;
  stream_policy_name = name;
}

unfoldable pub new_msg_send_cmpct : Bool → MsgSendcmpct
new_msg_send_cmpct b = record { send_cmpct = b; version = 1 }

unfoldable pub new_msg_addr : MsgAddr
new_msg_addr = record { addr_list = [] }

unfoldable pub clear_addresses : MsgAddr → MsgAddr
clear_addresses msg = record { addr_list = [] }
