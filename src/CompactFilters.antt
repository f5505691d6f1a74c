-- ===== src/CompactFilters.antt =====
-- msg_get_cfilters.go, msg_get_cfheaders.go, msg_get_cfcheckpoint.go, msg_cfilter.go,
-- msg_cf_headers.go and msg_cfcheckpoint.go: the messages of committed filters. A FilterType is a
-- byte.
pub mod Transfer
pub mod RoundTrip
use go_wire.Prelude.{List, ◌*◌, ltb, ℕ, length, ◌∷◌, [], ◌==◌, ◌++◌, if◌then◌else◌}
use go_wire.Counted.{add_bounded, write_counted, Added, or_keep, read_counted, too_many, added}
use go_wire.Element.{hash, uint8_kind, uint32_kind, read_element, write_element}
use go_wire.Io.{
  plain_error, refuse_put, ◌>>◌, refuse_if, ◌▸◌, read_times, Put, message_error, pure, Read, ◌>>=◌,
}
use go_wire.ScriptPool.Invariant.{count}
use go_wire.VarBytes.{write_var_bytes, read_var_bytes}
use go_wire.VarInt.{read_var_int}

abbrev pub max_cf_headers_per_msg : ℕ
max_cf_headers_per_msg = 2000

abbrev pub max_cfilter_data_size : ℕ
max_cfilter_data_size = 256 * 1024

abbrev pub max_cf_headers_len : ℕ
max_cf_headers_len = 100000

-- The two requests for a range of blocks have the same fields.
pub record MsgGetCFilters : Type 0 where
  pub filter_type : ℕ
  pub start_height : ℕ
  pub stop_hash : List ℕ

unfoldable pub get_cfilters_bsv_decode : Read MsgGetCFilters
get_cfilters_bsv_decode = do
  t ← read_element uint8_kind
  n ← read_element uint32_kind
  h ← read_element hash
  pure (record { filter_type = t; start_height = n; stop_hash = h })

unfoldable pub get_cfilters_bsv_encode : MsgGetCFilters → Put
get_cfilters_bsv_encode msg =
    write_element uint8_kind msg.filter_type
    ▸ write_element uint32_kind msg.start_height
    ▸ write_element hash msg.stop_hash

pub record MsgGetCfHeaders : Type 0 where
  pub filter_type : ℕ
  pub start_height : ℕ
  pub stop_hash : List ℕ

unfoldable pub get_cfheaders_bsv_decode : Read MsgGetCfHeaders
get_cfheaders_bsv_decode = do
  t ← read_element uint8_kind
  n ← read_element uint32_kind
  h ← read_element hash
  pure (record { filter_type = t; start_height = n; stop_hash = h })

unfoldable pub get_cfheaders_bsv_encode : MsgGetCfHeaders → Put
get_cfheaders_bsv_encode msg =
    write_element uint8_kind msg.filter_type
    ▸ write_element uint32_kind msg.start_height
    ▸ write_element hash msg.stop_hash

pub record MsgGetCfCheckpt : Type 0 where
  pub filter_type : ℕ
  pub stop_hash : List ℕ

unfoldable pub get_cfcheckpt_bsv_decode : Read MsgGetCfCheckpt
get_cfcheckpt_bsv_decode = do
  t ← read_element uint8_kind
  h ← read_element hash
  pure (record { filter_type = t; stop_hash = h })

unfoldable pub get_cfcheckpt_bsv_encode : MsgGetCfCheckpt → Put
get_cfcheckpt_bsv_encode msg =
    write_element uint8_kind msg.filter_type ▸ write_element hash msg.stop_hash

pub record MsgCFilter : Type 0 where
  pub filter_type : ℕ
  pub block_hash : List ℕ
  pub data_bytes : List ℕ

-- Bsvdecode, and Deserialize, which calls it.
unfoldable pub cfilter_bsv_decode : Read MsgCFilter
cfilter_bsv_decode = do
  t ← read_element uint8_kind
  h ← read_element hash
  bs ← read_var_bytes max_cfilter_data_size
  pure (record { filter_type = t; block_hash = h; data_bytes = bs })

unfoldable pub cfilter_bsv_encode : MsgCFilter → Put
cfilter_bsv_encode msg =
    refuse_put (ltb max_cfilter_data_size (length msg.data_bytes))
      (message_error "MsgCFilter.BsvEncode")
      (write_element uint8_kind msg.filter_type
        ▸ write_element hash msg.block_hash
        ▸ write_var_bytes msg.data_bytes)

pub record MsgCfHeaders : Type 0 where
  pub filter_type : ℕ
  pub stop_hash : List ℕ
  pub prev_filter_header : List ℕ
  pub filter_hashes : List (List ℕ)

unfoldable pub add_cf_hash : List (List ℕ) → List ℕ → Added (List (List ℕ))
add_cf_hash hashes h = add_bounded "MsgCFHeaders.AddCFHash" max_cf_headers_per_msg hashes h

-- Bsvdecode, and Deserialize, which calls it. The error of AddCFHash is ignored.
unfoldable pub cf_headers_bsv_decode : Read MsgCfHeaders
cf_headers_bsv_decode = do
  t ← read_element uint8_kind
  h ← read_element hash
  prev ← read_element hash
  list ←
      read_counted "MsgCFHeaders.Bsvdecode" max_cf_headers_per_msg (read_element hash)
        (λ l x. or_keep l (add_cf_hash l x))
  pure (record { filter_type = t; stop_hash = h; prev_filter_header = prev; filter_hashes = list })

-- The count is checked after the first three fields are written.
unfoldable pub cf_headers_bsv_encode : MsgCfHeaders → Put
cf_headers_bsv_encode msg =
    write_element uint8_kind msg.filter_type
    ▸ write_element hash msg.stop_hash
    ▸ write_element hash msg.prev_filter_header
    ▸ refuse_put (ltb max_cf_headers_per_msg (length msg.filter_hashes))
        (message_error "MsgCFHeaders.BsvEncode")
        (write_counted (write_element hash) msg.filter_hashes)

pub record MsgCfCheckpt : Type 0 where
  pub filter_type : ℕ
  pub stop_hash : List ℕ
  pub filter_headers : List (List ℕ)

-- AddCFHeader, which adds a header while the slice has room in its capacity
unfoldable pub add_cf_header : ℕ → List (List ℕ) → List ℕ → Added (List (List ℕ))
add_cf_header capacity headers h =
    if length headers == capacity
    then too_many (message_error "MsgCFCheckpt.AddCFHeader")
    else added (headers ++ (h ∷ []))

-- Bsvdecode, and Deserialize, which calls it. The slice has its length before the loop fills it.
unfoldable pub cfcheckpt_bsv_decode : Read MsgCfCheckpt
cfcheckpt_bsv_decode = do
  t ← read_element uint8_kind
  h ← read_element hash
  count ← read_var_int
  refuse_if (ltb max_cf_headers_len count) (plain_error "ErrInsaneCFHeaderCount")
  list ← read_times count (read_element hash)
  pure (record { filter_type = t; stop_hash = h; filter_headers = list })

-- The encoder has no bound on the headers.
unfoldable pub cfcheckpt_bsv_encode : MsgCfCheckpt → Put
cfcheckpt_bsv_encode msg =
    write_element uint8_kind msg.filter_type
    ▸ write_element hash msg.stop_hash
    ▸ write_counted (write_element hash) msg.filter_headers
