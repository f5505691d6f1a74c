-- ===== src/Auth.antt =====
-- msg_auth_ch.go and msg_auth_resp.go: the challenge of an authentication and the response.
pub mod Mismatch
use go_wire.Prelude.{length, ◌%◌, ◌^◌, ◌∷◌, List, ℕ, ◌+◌, []}
use go_wire.Element.{int32, uint64_kind, read_element, write_elements, uint32_kind, write_element}
use go_wire.Io.{Read, ◌>>=◌, pure, ◌>>◌, Put, write, ◌▸◌}
use go_wire.VarBytes.{read_var_bytes}

pub record MsgAuthch : Type 0 where
  pub version : ℕ
  pub length_field : ℕ
  pub challenge : List ℕ

abbrev pub auth_ch_max_payload_length : ℕ
auth_ch_max_payload_length = 40

unfoldable pub auth_ch_bsv_decode : Read MsgAuthch
auth_ch_bsv_decode = do
  v ← read_element int32
  c ← read_var_bytes auth_ch_max_payload_length
  pure (record { version = v; length_field = length c % 2 ^ 32; challenge = c })

-- The last element, a []byte, takes the fallback of writeElement.
unfoldable pub auth_ch_bsv_encode : MsgAuthch → Put
auth_ch_bsv_encode msg =
    write_elements (int32 ∷ uint32_kind ∷ []) (msg.version, (msg.length_field, tt))
    ▸ write msg.challenge

unfoldable pub new_msg_auth_ch : List ℕ → MsgAuthch
new_msg_auth_ch message = record {
  version = 1;
  length_field = length message % 2 ^ 32;
  challenge = message;
}

pub record MsgAuthresp : Type 0 where
  pub public_key_length : ℕ
  pub public_key : List ℕ
  pub client_nonce : ℕ
  pub signature_length : ℕ
  pub signature : List ℕ

abbrev pub secp256k1_comp_pub_key_size_in_bytes : ℕ
secp256k1_comp_pub_key_size_in_bytes = 0x21

abbrev pub secp256k1_der_sign_max_size_in_bytes : ℕ
secp256k1_der_sign_max_size_in_bytes = 0x48

abbrev pub auth_resp_max_payload_length : ℕ
auth_resp_max_payload_length =
    4 + secp256k1_comp_pub_key_size_in_bytes + 8 + 4 + secp256k1_der_sign_max_size_in_bytes

unfoldable pub auth_resp_bsv_decode : Read MsgAuthresp
auth_resp_bsv_decode = do
  k ← read_var_bytes auth_resp_max_payload_length
  n ← read_element uint64_kind
  s ← read_var_bytes auth_resp_max_payload_length
  pure (record {
    public_key_length = length k % 2 ^ 32;
    public_key = k;
    client_nonce = n;
    signature_length = length s % 2 ^ 32;
    signature = s;
  })

unfoldable pub auth_resp_bsv_encode : MsgAuthresp → Put
auth_resp_bsv_encode msg =
    write_element uint32_kind msg.public_key_length
    ▸ write msg.public_key
    ▸ write_elements (uint64_kind ∷ uint32_kind ∷ []) (msg.client_nonce, (msg.signature_length, tt))
    ▸ write msg.signature

-- NewMsgAuthresp for the nonce that RandomUint64 gives
unfoldable pub new_msg_auth_resp : ℕ → List ℕ → List ℕ → MsgAuthresp
new_msg_auth_resp nonce public_key signature = record {
  public_key_length = length public_key % 2 ^ 32;
  public_key = public_key;
  client_nonce = nonce;
  signature_length = length signature % 2 ^ 32;
  signature = signature;
}
