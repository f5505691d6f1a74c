-- ===== src/Empty.antt =====
-- msg_verack.go, msg_get_addr.go, msg_mempool.go, msg_filter_clear.go, msg_send_headers.go and
-- msg_ext_msg.go: the messages whose decoders read nothing. The decoder of an extmsg reads nothing
-- of what its encoder writes.
use go_wire.Prelude.{ℕ, ltb, ◌∷◌, []}
use go_wire.Element.{write_elements, uint64_kind}
use go_wire.FilterMessages.{bip0037_version}
use go_wire.Io.{◌>>◌, pure, done, refuse_if, message_error, Read, refuse_put, Put}

abbrev pub bip0035_version : ℕ
bip0035_version = 60002

abbrev pub send_headers_version : ℕ
send_headers_version = 70012

abbrev pub protoconf_version : ℕ
protoconf_version = 70013

unfoldable pub ver_ack_bsv_decode : Read (Unit {0})
ver_ack_bsv_decode = pure tt

unfoldable pub ver_ack_bsv_encode : Put
ver_ack_bsv_encode = done []

unfoldable pub get_addr_bsv_decode : Read (Unit {0})
get_addr_bsv_decode = pure tt

unfoldable pub get_addr_bsv_encode : Put
get_addr_bsv_encode = done []

unfoldable pub mem_pool_bsv_decode : ℕ → Read (Unit {0})
mem_pool_bsv_decode pver =
    refuse_if (ltb pver bip0035_version) (message_error "MsgMemPool.Bsvdecode")

unfoldable pub mem_pool_bsv_encode : ℕ → Put
mem_pool_bsv_encode pver =
    refuse_put (ltb pver bip0035_version) (message_error "MsgMemPool.BsvEncode") (done [])

unfoldable pub filter_clear_bsv_decode : ℕ → Read (Unit {0})
filter_clear_bsv_decode pver =
    refuse_if (ltb pver bip0037_version) (message_error "MsgFilterClear.Bsvdecode")

unfoldable pub filter_clear_bsv_encode : ℕ → Put
filter_clear_bsv_encode pver =
    refuse_put (ltb pver bip0037_version) (message_error "MsgFilterClear.BsvEncode") (done [])

unfoldable pub send_headers_bsv_decode : ℕ → Read (Unit {0})
send_headers_bsv_decode pver =
    refuse_if (ltb pver send_headers_version) (message_error "MsgSendHeaders.Bsvdecode")

unfoldable pub send_headers_bsv_encode : ℕ → Put
send_headers_bsv_encode pver =
    refuse_put (ltb pver send_headers_version) (message_error "MsgSendHeaders.BsvEncode") (done [])

pub record MsgExtMsg : Type 0 where
  pub number_of_fields : ℕ
  pub max_recv_payload_length : ℕ

-- The receiver is a new message.
unfoldable pub ext_msg_bsv_decode : ℕ → Read MsgExtMsg
ext_msg_bsv_decode pver = do
  refuse_if (ltb pver protoconf_version) (message_error "MsgExtMsg.Bsvdecode")
  pure (record { number_of_fields = 0; max_recv_payload_length = 0 })

unfoldable pub ext_msg_bsv_encode : ℕ → MsgExtMsg → Put
ext_msg_bsv_encode pver msg =
    refuse_put (ltb pver protoconf_version) (message_error "MsgExtMsg.BsvEncode") (
      write_elements (uint64_kind ∷ uint64_kind ∷ [])
        (msg.number_of_fields, (msg.max_recv_payload_length, tt)))

unfoldable pub new_msg_ext_msg : ℕ → MsgExtMsg
new_msg_ext_msg n = record { number_of_fields = 1; max_recv_payload_length = n }
