-- ===== src/Message/Commands.antt =====
-- message.go: the commands, each the bytes of its string.
use go_wire.Prelude.{ℕ, ◌∷◌, List, []}

-- "version"
abbrev pub cmd_version : List ℕ
cmd_version = 0x76 ∷ 0x65 ∷ 0x72 ∷ 0x73 ∷ 0x69 ∷ 0x6f ∷ 0x6e ∷ []

-- "verack"
abbrev pub cmd_ver_ack : List ℕ
cmd_ver_ack = 0x76 ∷ 0x65 ∷ 0x72 ∷ 0x61 ∷ 0x63 ∷ 0x6b ∷ []

-- "getaddr"
abbrev pub cmd_get_addr : List ℕ
cmd_get_addr = 0x67 ∷ 0x65 ∷ 0x74 ∷ 0x61 ∷ 0x64 ∷ 0x64 ∷ 0x72 ∷ []

-- "addr"
abbrev pub cmd_addr : List ℕ
cmd_addr = 0x61 ∷ 0x64 ∷ 0x64 ∷ 0x72 ∷ []

-- "getblocks"
abbrev pub cmd_get_blocks : List ℕ
cmd_get_blocks = 0x67 ∷ 0x65 ∷ 0x74 ∷ 0x62 ∷ 0x6c ∷ 0x6f ∷ 0x63 ∷ 0x6b ∷ 0x73 ∷ []

-- "inv"
abbrev pub cmd_inv : List ℕ
cmd_inv = 0x69 ∷ 0x6e ∷ 0x76 ∷ []

-- "getdata"
abbrev pub cmd_get_data : List ℕ
cmd_get_data = 0x67 ∷ 0x65 ∷ 0x74 ∷ 0x64 ∷ 0x61 ∷ 0x74 ∷ 0x61 ∷ []

-- "notfound"
abbrev pub cmd_not_found : List ℕ
cmd_not_found = 0x6e ∷ 0x6f ∷ 0x74 ∷ 0x66 ∷ 0x6f ∷ 0x75 ∷ 0x6e ∷ 0x64 ∷ []

-- "block"
abbrev pub cmd_block : List ℕ
cmd_block = 0x62 ∷ 0x6c ∷ 0x6f ∷ 0x63 ∷ 0x6b ∷ []

-- "tx"
abbrev pub cmd_tx : List ℕ
cmd_tx = 0x74 ∷ 0x78 ∷ []

-- "exttx"
abbrev pub cmd_extended_tx : List ℕ
cmd_extended_tx = 0x65 ∷ 0x78 ∷ 0x74 ∷ 0x74 ∷ 0x78 ∷ []

-- "getheaders"
abbrev pub cmd_get_headers : List ℕ
cmd_get_headers = 0x67 ∷ 0x65 ∷ 0x74 ∷ 0x68 ∷ 0x65 ∷ 0x61 ∷ 0x64 ∷ 0x65 ∷ 0x72 ∷ 0x73 ∷ []

-- "headers"
abbrev pub cmd_headers : List ℕ
cmd_headers = 0x68 ∷ 0x65 ∷ 0x61 ∷ 0x64 ∷ 0x65 ∷ 0x72 ∷ 0x73 ∷ []

-- "ping"
abbrev pub cmd_ping : List ℕ
cmd_ping = 0x70 ∷ 0x69 ∷ 0x6e ∷ 0x67 ∷ []

-- "pong"
abbrev pub cmd_pong : List ℕ
cmd_pong = 0x70 ∷ 0x6f ∷ 0x6e ∷ 0x67 ∷ []

-- "mempool"
abbrev pub cmd_mem_pool : List ℕ
cmd_mem_pool = 0x6d ∷ 0x65 ∷ 0x6d ∷ 0x70 ∷ 0x6f ∷ 0x6f ∷ 0x6c ∷ []

-- "filteradd"
abbrev pub cmd_filter_add : List ℕ
cmd_filter_add = 0x66 ∷ 0x69 ∷ 0x6c ∷ 0x74 ∷ 0x65 ∷ 0x72 ∷ 0x61 ∷ 0x64 ∷ 0x64 ∷ []

-- "filterclear"
abbrev pub cmd_filter_clear : List ℕ
cmd_filter_clear = 0x66 ∷ 0x69 ∷ 0x6c ∷ 0x74 ∷ 0x65 ∷ 0x72 ∷ 0x63 ∷ 0x6c ∷ 0x65 ∷ 0x61 ∷ 0x72 ∷ []

-- "filterload"
abbrev pub cmd_filter_load : List ℕ
cmd_filter_load = 0x66 ∷ 0x69 ∷ 0x6c ∷ 0x74 ∷ 0x65 ∷ 0x72 ∷ 0x6c ∷ 0x6f ∷ 0x61 ∷ 0x64 ∷ []

-- "merkleblock"
abbrev pub cmd_merkle_block : List ℕ
cmd_merkle_block = 0x6d ∷ 0x65 ∷ 0x72 ∷ 0x6b ∷ 0x6c ∷ 0x65 ∷ 0x62 ∷ 0x6c ∷ 0x6f ∷ 0x63 ∷ 0x6b ∷ []

-- "reject"
abbrev pub cmd_reject : List ℕ
cmd_reject = 0x72 ∷ 0x65 ∷ 0x6a ∷ 0x65 ∷ 0x63 ∷ 0x74 ∷ []

-- "sendheaders"
abbrev pub cmd_send_headers : List ℕ
cmd_send_headers = 0x73 ∷ 0x65 ∷ 0x6e ∷ 0x64 ∷ 0x68 ∷ 0x65 ∷ 0x61 ∷ 0x64 ∷ 0x65 ∷ 0x72 ∷ 0x73 ∷ []

-- "feefilter"
abbrev pub cmd_fee_filter : List ℕ
cmd_fee_filter = 0x66 ∷ 0x65 ∷ 0x65 ∷ 0x66 ∷ 0x69 ∷ 0x6c ∷ 0x74 ∷ 0x65 ∷ 0x72 ∷ []

-- "getcfilters"
abbrev pub cmd_get_cfilters : List ℕ
cmd_get_cfilters = 0x67 ∷ 0x65 ∷ 0x74 ∷ 0x63 ∷ 0x66 ∷ 0x69 ∷ 0x6c ∷ 0x74 ∷ 0x65 ∷ 0x72 ∷ 0x73 ∷ []

-- "getcfheaders"
abbrev pub cmd_get_cfheaders : List ℕ
cmd_get_cfheaders =
    0x67 ∷ 0x65 ∷ 0x74 ∷ 0x63 ∷ 0x66 ∷ 0x68 ∷ 0x65 ∷ 0x61 ∷ 0x64 ∷ 0x65 ∷ 0x72 ∷ 0x73 ∷ []

-- "getcfcheckpt"
abbrev pub cmd_get_cfcheckpt : List ℕ
cmd_get_cfcheckpt =
    0x67 ∷ 0x65 ∷ 0x74 ∷ 0x63 ∷ 0x66 ∷ 0x63 ∷ 0x68 ∷ 0x65 ∷ 0x63 ∷ 0x6b ∷ 0x70 ∷ 0x74 ∷ []

-- "cfilter"
abbrev pub cmd_cfilter : List ℕ
cmd_cfilter = 0x63 ∷ 0x66 ∷ 0x69 ∷ 0x6c ∷ 0x74 ∷ 0x65 ∷ 0x72 ∷ []

-- "cfheaders"
abbrev pub cmd_cf_headers : List ℕ
cmd_cf_headers = 0x63 ∷ 0x66 ∷ 0x68 ∷ 0x65 ∷ 0x61 ∷ 0x64 ∷ 0x65 ∷ 0x72 ∷ 0x73 ∷ []

-- "cfcheckpt"
abbrev pub cmd_cfcheckpt : List ℕ
cmd_cfcheckpt = 0x63 ∷ 0x66 ∷ 0x63 ∷ 0x68 ∷ 0x65 ∷ 0x63 ∷ 0x6b ∷ 0x70 ∷ 0x74 ∷ []

-- "protoconf"
abbrev pub cmd_protoconf : List ℕ
cmd_protoconf = 0x70 ∷ 0x72 ∷ 0x6f ∷ 0x74 ∷ 0x6f ∷ 0x63 ∷ 0x6f ∷ 0x6e ∷ 0x66 ∷ []

-- "extmsg"
abbrev pub cmd_ext_msg : List ℕ
cmd_ext_msg = 0x65 ∷ 0x78 ∷ 0x74 ∷ 0x6d ∷ 0x73 ∷ 0x67 ∷ []

-- "authch"
abbrev pub cmd_auth_ch : List ℕ
cmd_auth_ch = 0x61 ∷ 0x75 ∷ 0x74 ∷ 0x68 ∷ 0x63 ∷ 0x68 ∷ []

-- "authresp"
abbrev pub cmd_auth_resp : List ℕ
cmd_auth_resp = 0x61 ∷ 0x75 ∷ 0x74 ∷ 0x68 ∷ 0x72 ∷ 0x65 ∷ 0x73 ∷ 0x70 ∷ []

-- "sendcmpct"
abbrev pub cmd_send_cmpct : List ℕ
cmd_send_cmpct = 0x73 ∷ 0x65 ∷ 0x6e ∷ 0x64 ∷ 0x63 ∷ 0x6d ∷ 0x70 ∷ 0x63 ∷ 0x74 ∷ []

-- "createstrm"
abbrev pub cmd_create_stream : List ℕ
cmd_create_stream = 0x63 ∷ 0x72 ∷ 0x65 ∷ 0x61 ∷ 0x74 ∷ 0x65 ∷ 0x73 ∷ 0x74 ∷ 0x72 ∷ 0x6d ∷ []

-- "streamack"
abbrev pub cmd_stream_ack : List ℕ
cmd_stream_ack = 0x73 ∷ 0x74 ∷ 0x72 ∷ 0x65 ∷ 0x61 ∷ 0x6d ∷ 0x61 ∷ 0x63 ∷ 0x6b ∷ []
