-- ===== src/Examples/Peers.antt =====
-- Messages that open a connection, refuse a message and authenticate.
use go_wire.Prelude.{List, ◌∷◌, ◌≡◌, ℕ, refl, replicate, arith, true, ◌++◌, [], ◌≤◌, ◌^◌, ◌<◌}
use go_wire.Auth.{new_msg_auth_ch, auth_ch_bsv_decode, auth_ch_bsv_encode}
use go_wire.Auth.Mismatch.{auth_ch_bsv_decode-auth_ch_bsv_encode}
use go_wire.Binary.{from_le, of_order, uint_of, uint8}
use go_wire.Element.{read_element}
use go_wire.Framing.Discard.{discard_input, discard_input-drop}
use go_wire.Io.{refuse_if, read_full, ok, written, done}
use go_wire.Io.Reads.{RoundTrips}
use go_wire.Limits.{max_message_payload, default_ebs}
use go_wire.MessageHeader.{same_bytes}
use go_wire.NetAddress.{NetAddress, zero_time}
use go_wire.Protoconf.{
  IsProtoconf, join, MsgProtoconf, protoconf_bsv_decode, protoconf_bsv_encode, new_msg_protoconf,
}
use go_wire.Protoconf.RoundTrip.{protoconf_bsv_decode-protoconf_bsv_encode}
use go_wire.Reject.{
  reject_bsv_decode, has_hash, reject_bsv_encode, read_reject_hash, IsReject, tx_command, MsgReject,
}
use go_wire.Reject.RoundTrip.{reject_bsv_encode-reject_bsv_decode}
use go_wire.ScriptPool.{
  Pool, Buffer, Reaches, here, then_step, borrows, returns, borrow, receive, allocate, send,
  return_buffer, script_pool,
}
use go_wire.ScriptPool.Invariant.{IsPool, start, script_pool-IsPool}
use go_wire.Services.{contains_service, and_bit, has_service, add_service, bit_and}
use go_wire.Services.Sets.{add_service_lem}
use go_wire.VarBytes.{read_var_string, bytes_after}
use go_wire.VarInt.{var_int_after, read_var_int, write_var_int}
use go_wire.VarInt.Transfer.{Bytes-var_int}
use go_wire.Version.{MsgVersion}

abbrev peer : NetAddress
peer = record { timestamp = zero_time; services = 1; ip_bytes = replicate 16 5; port = 8333 }

abbrev version_sample : MsgVersion
version_sample = record {
  protocol_version = 70016;
  services = 1;
  timestamp = 1700000000;
  addr_you = peer;
  addr_me = peer;
  nonce = 99;
  user_agent = 0x2f ∷ 0x77 ∷ 0x2f ∷ [];
  last_block = 800000;
  disable_relay_tx = true;
  association_id = 0x00 ∷ 0x11 ∷ [];
}

abbrev protoconf_sample : MsgProtoconf
protoconf_sample = new_msg_protoconf 0 true

protoconf_sample-IsProtoconf : IsProtoconf default_ebs protoconf_sample
unfolding max_message_payload join new_msg_protoconf
protoconf_sample-IsProtoconf = record {
  fields = omega arith;
  fields_fit = omega arith;
  max_recv_payload_length = omega arith;
  some_policy = omega arith;
  policies = (
    (
      refl,
      (
        refl,
        (refl, (refl, (refl, (refl, (refl, (refl, (refl, (refl, (refl, (refl, (refl, tt))))))))))),
      ),
    ),
    ((refl, (refl, (refl, (refl, (refl, (refl, (refl, tt))))))), tt),
  );
  joined = omega arith;
}

protoconf_bsv_decode-protoconf_bsv_encode_example :
    RoundTrips
      (protoconf_bsv_encode (λ v. written (write_var_int v)) 70013 protoconf_sample)
      (protoconf_bsv_decode read_var_int default_ebs 70013)
      protoconf_sample
protoconf_bsv_decode-protoconf_bsv_encode_example =
    protoconf_bsv_decode-protoconf_bsv_encode read_var_int (λ v. written (write_var_int v))
      Bytes-var_int default_ebs 70013 protoconf_sample (omega arith) protoconf_sample-IsProtoconf

abbrev reject_sample : MsgReject
reject_sample = record {
  cmd = tx_command;
  code = 0x10;
  reason = 0x6e ∷ 0x6f ∷ [];
  hash_bytes = replicate 32 3;
}

abbrev reject_input : List ℕ
reject_input = 2 ∷ 0x74 ∷ 0x78 ∷ 0x10 ∷ 2 ∷ 0x6e ∷ 0x6f ∷ replicate 32 3

reject_read : reject_bsv_decode default_ebs 70016 reject_input ≡ ok reject_sample []
unfolding reject_bsv_decode refuse_if read_var_string read_var_int var_int_after uint8 uint_of
    read_full of_order from_le bytes_after max_message_payload read_element read_reject_hash
    has_hash same_bytes
reject_read = refl

reject_bsv_encode-reject_bsv_decode_example :
    (reject_input ≡ written (reject_bsv_encode 70016 reject_sample) ++ [])
    × IsReject default_ebs reject_sample
reject_bsv_encode-reject_bsv_decode_example =
    reject_bsv_encode-reject_bsv_decode default_ebs 70016 (omega arith) reject_input reject_sample
      [] (record { bytes = omega arith; short = omega arith }) reject_read

auth_ch_bsv_decode-auth_ch_bsv_encode_example :
    (auth_ch_bsv_encode (new_msg_auth_ch (1 ∷ 2 ∷ 3 ∷ 4 ∷ []))
      ≡ done (written (auth_ch_bsv_encode (new_msg_auth_ch (1 ∷ 2 ∷ 3 ∷ 4 ∷ [])))))
    × (auth_ch_bsv_decode (written (auth_ch_bsv_encode (new_msg_auth_ch (1 ∷ 2 ∷ 3 ∷ 4 ∷ []))))
        ≡ ok
            (record { version = 1; length_field = 4; challenge = 0 ∷ 0 ∷ 0 ∷ 1 ∷ [] })
            (2 ∷ 3 ∷ 4 ∷ []))
auth_ch_bsv_decode-auth_ch_bsv_encode_example =
    auth_ch_bsv_decode-auth_ch_bsv_encode (1 ∷ []) (2 ∷ 3 ∷ 4 ∷ []) (omega arith) refl

discard_input-drop_example : discard_input 3 (1 ∷ 2 ∷ 3 ∷ 4 ∷ []) ≡ 4 ∷ []
discard_input-drop_example = discard_input-drop 3 (1 ∷ 2 ∷ 3 ∷ 4 ∷ [])

abbrev lent_buffer : Buffer
lent_buffer = record { id = 0; cap = 512 }

abbrev lent_pool : Pool
lent_pool = record { list = record { free = []; next = 1 }; lent = lent_buffer ∷ [] }

abbrev returned_pool : Pool
returned_pool = record { list = record { free = lent_buffer ∷ []; next = 1 }; lent = [] }

lent_steps : Reaches start lent_pool
unfolding borrow receive allocate
lent_steps = then_step start start lent_pool (here start) (borrows 100 script_pool [])

returned_steps : Reaches start returned_pool
unfolding return_buffer send
returned_steps =
    then_step start lent_pool returned_pool lent_steps
      (returns (record { free = []; next = 1 }) [] lent_buffer [])

script_pool-IsPool_example :
    IsPool returned_pool × ((size : ℕ) → size ≤ (borrow size returned_pool.list).buffer.cap)
script_pool-IsPool_example = script_pool-IsPool returned_pool returned_steps

abbrev full_services : MsgVersion
full_services = record version_sample { services = 0x25 }

full_services-has : (has_service full_services 1 ≡ true) × (has_service full_services 0x24 ≡ true)
unfolding has_service contains_service bit_and and_bit
full_services-has = (refl, refl)

add_service_lem_example :
    (has_service (add_service version_sample 0x24) 0x24 ≡ true)
    × (has_service (add_service version_sample 0x24) 1 ≡ true)
    × (has_service full_services (add_service version_sample 0x24).services ≡ true)
    × ((add_service version_sample 0x24).services < 2 ^ 64)
add_service_lem_example =
    add_service_lem version_sample full_services 0x24 (omega arith) (omega arith)
      full_services-has.0 full_services-has.1
