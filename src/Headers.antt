-- ===== src/Headers.antt =====
-- msg_headers.go: a list of block headers, each followed by a count of no transactions.
pub mod Transfer
pub mod RoundTrip
use go_wire.Prelude.{length, ◌≤◌, All, List, ltb, ℕ}
use go_wire.BlockHeader.{IsHeader, read_block_header, write_block_header, BlockHeader}
use go_wire.Counted.{Added, write_counted, add_bounded, or_fail, read_counted}
use go_wire.Io.{pure, Put, refuse_if, refuse_put, message_error, ◌▸◌, Read, ◌>>◌, ◌>>=◌}
use go_wire.VarInt.{read_var_int, write_var_int}

abbrev pub max_block_headers_per_msg : ℕ
max_block_headers_per_msg = 2000

pub record MsgHeaders : Type 0 where
  pub headers : List BlockHeader

unfoldable pub add_block_header : List BlockHeader → BlockHeader → Added (List BlockHeader)
add_block_header headers bh =
    add_bounded "MsgHeaders.AddBlockHeader" max_block_headers_per_msg headers bh

-- one round of the decoder's loop, up to the call of AddBlockHeader
unfoldable pub read_lone_header : Read BlockHeader
read_lone_header = do
  bh ← read_block_header
  tx_count ← read_var_int
  refuse_if (ltb 0 tx_count) (message_error "MsgHeaders.Bsvdecode")
  pure bh

unfoldable pub write_lone_header : BlockHeader → Put
write_lone_header bh = write_block_header bh ▸ write_var_int 0

unfoldable pub headers_bsv_decode : Read MsgHeaders
headers_bsv_decode = do
  list ←
      read_counted "MsgHeaders.Bsvdecode" max_block_headers_per_msg read_lone_header
        (λ l bh. or_fail (add_block_header l bh))
  pure (record { headers = list })

unfoldable pub headers_bsv_encode : MsgHeaders → Put
headers_bsv_encode msg =
    refuse_put (ltb max_block_headers_per_msg (length msg.headers))
      (message_error "MsgHeaders.BsvEncode") (write_counted write_lone_header msg.headers)

abbrev pub IsHeaderList : List BlockHeader → Type 0
IsHeaderList list = (length list ≤ max_block_headers_per_msg) × All IsHeader list
