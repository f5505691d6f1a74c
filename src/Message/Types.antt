-- ===== src/Message/Types.antt =====
-- message.go: the Message interface: the types that implement it and what a value of each holds.
use go_wire.Auth.{MsgAuthch, MsgAuthresp}
use go_wire.Block.{MsgBlock}
use go_wire.CompactFilters.{
  MsgCfCheckpt, MsgCfHeaders, MsgCFilter, MsgGetCfHeaders, MsgGetCfCheckpt, MsgGetCFilters,
}
use go_wire.Empty.{MsgExtMsg}
use go_wire.ExtendedTx.Data.{MsgExtendedTx}
use go_wire.FilterMessages.{MsgFilterLoad, MsgMerkleBlock, MsgFilterAdd}
use go_wire.Headers.{MsgHeaders}
use go_wire.Inventory.{MsgGetData, MsgInv, MsgNotFound}
use go_wire.Locator.{MsgGetBlocks, MsgGetHeaders}
use go_wire.NetAddress.{MsgAddr}
use go_wire.Ping.{MsgFeeFilter, MsgPing, MsgPong}
use go_wire.Protoconf.{MsgProtoconf}
use go_wire.Reject.{MsgReject}
use go_wire.Streams.{MsgCreateStream, MsgSendcmpct, MsgStreamAck}
use go_wire.Tx.Data.{MsgTx}
use go_wire.Version.{MsgVersion}

-- The types that implement Message; the prefix is that of their names.
pub data MessageType : Type 0 where
  msg_version msg_ver_ack msg_get_addr msg_addr : MessageType
  msg_get_blocks msg_inv msg_get_data msg_not_found : MessageType
  msg_block msg_tx msg_extended_tx msg_get_headers : MessageType
  msg_headers msg_ping msg_pong msg_mem_pool : MessageType
  msg_filter_add msg_filter_clear msg_filter_load msg_merkle_block : MessageType
  msg_reject msg_send_headers msg_fee_filter msg_get_cfilters : MessageType
  msg_get_cfheaders msg_get_cfcheckpt msg_cfilter msg_cf_headers : MessageType
  msg_cfcheckpt msg_protoconf msg_ext_msg msg_auth_ch : MessageType
  msg_auth_resp msg_send_cmpct msg_create_stream msg_stream_ack : MessageType

abbrev pub Payload : MessageType → Type 0
Payload msg_version = MsgVersion
Payload msg_ver_ack = Unit {0}
Payload msg_get_addr = Unit {0}
Payload msg_addr = MsgAddr
Payload msg_get_blocks = MsgGetBlocks
Payload msg_inv = MsgInv
Payload msg_get_data = MsgGetData
Payload msg_not_found = MsgNotFound
Payload msg_block = MsgBlock
Payload msg_tx = MsgTx
Payload msg_extended_tx = MsgExtendedTx
Payload msg_get_headers = MsgGetHeaders
Payload msg_headers = MsgHeaders
Payload msg_ping = MsgPing
Payload msg_pong = MsgPong
Payload msg_mem_pool = Unit {0}
Payload msg_filter_add = MsgFilterAdd
Payload msg_filter_clear = Unit {0}
Payload msg_filter_load = MsgFilterLoad
Payload msg_merkle_block = MsgMerkleBlock
Payload msg_reject = MsgReject
Payload msg_send_headers = Unit {0}
Payload msg_fee_filter = MsgFeeFilter
Payload msg_get_cfilters = MsgGetCFilters
Payload msg_get_cfheaders = MsgGetCfHeaders
Payload msg_get_cfcheckpt = MsgGetCfCheckpt
Payload msg_cfilter = MsgCFilter
Payload msg_cf_headers = MsgCfHeaders
Payload msg_cfcheckpt = MsgCfCheckpt
Payload msg_protoconf = MsgProtoconf
Payload msg_ext_msg = MsgExtMsg
Payload msg_auth_ch = MsgAuthch
Payload msg_auth_resp = MsgAuthresp
Payload msg_send_cmpct = MsgSendcmpct
Payload msg_create_stream = MsgCreateStream
Payload msg_stream_ack = MsgStreamAck

pub record Message : Type 0 where
  pub type_of : MessageType
  pub payload : Payload type_of
