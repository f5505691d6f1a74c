-- ===== src/NetAddress.antt =====
-- net_address.go and msg_addr.go: the address of a peer, and the message that lists addresses. A
-- time is the bit pattern of its Unix seconds; the nil IP is the empty one. `to16` is To16 of net.IP.
pub mod Transfer
pub mod RoundTrip
use go_wire.Prelude.{
  ◌-◌, ◌<◌, ◌&&◌, Bool, ◌^◌, some, ◌≡◌, [], List, ◌%◌, Option, leb, ◌==◌, ◌*◌, ◌∷◌, ℕ, false,
  if◌then◌else◌, ltb, true, replicate, ◌+◌, none, length, All, ◌≤◌,
}
use go_wire.Binary.{put_uint16, uint16, big}
use go_wire.Counted.{add_bounded, read_counted, added, or_keep, Added, too_many, write_counted}
use go_wire.Element.{
  uint32_time, service_flag, ip, write_elements, read_element, Fits, write_element, uint32_kind,
  read_elements,
}
use go_wire.Io.{◌▸◌, ◌>>=◌, Error, pure, message_error, Put, refuse_put, done, Read, ◌>>◌}
use go_wire.Limits.{max_var_int_payload}
use go_wire.Tx.Scripts.{copy_at}

abbrev pub net_address_time_version : ℕ
net_address_time_version = 31402

abbrev pub multiple_address_version : ℕ
multiple_address_version = 209

abbrev pub max_addr_per_msg : ℕ
max_addr_per_msg = 1000

unfoldable pub max_net_address_payload : ℕ → ℕ
max_net_address_payload pver = if leb net_address_time_version pver then 26 + 4 else 26

pub record NetAddress : Type 0 where
  pub timestamp : ℕ
  pub services : ℕ
  pub ip_bytes : List ℕ
  pub port : ℕ

-- the Unix seconds of the zero time.Time
abbrev pub zero_time : ℕ
zero_time = 2 ^ 64 - 62_135_596_800

-- NewNetAddressTimestamp, for a time in seconds
pub new_net_address_timestamp : ℕ → ℕ → List ℕ → ℕ → NetAddress
new_net_address_timestamp t s i p = record { timestamp = t; services = s; ip_bytes = i; port = p }

-- whether the time is on the wire
abbrev pub sends_time : Bool → ℕ → Bool
sends_time ts pver = ts && leb net_address_time_version pver

unfoldable pub read_time : Bool → Read ℕ
read_time present = if present then read_element uint32_time else pure zero_time

unfoldable pub read_net_address : ℕ → Bool → Read NetAddress
read_net_address pver ts = do
  t ← read_time (sends_time ts pver)
  (s, (i, _)) ← read_elements (service_flag ∷ ip ∷ [])
  p ← uint16 big
  pure (record { timestamp = t; services = s; ip_bytes = i; port = p })

-- `copy(ip[:], na.IP.To16())`, unless the IP is nil
unfoldable pub wire_ip : (List ℕ → List ℕ) → List ℕ → List ℕ
wire_ip to16 i = if length i == 0 then replicate 16 0 else copy_at (replicate 16 0) 0 (to16 i)

unfoldable pub write_time : Bool → ℕ → Put
write_time present t = if present then write_element uint32_kind (t % 2 ^ 32) else done []

unfoldable pub write_net_address : (List ℕ → List ℕ) → ℕ → NetAddress → Bool → Put
write_net_address to16 pver na ts =
    write_time (sends_time ts pver) na.timestamp
    ▸ write_elements (service_flag ∷ ip ∷ []) (na.services, (wire_ip to16 na.ip_bytes, tt))
    ▸ put_uint16 big na.port

pub record MsgAddr : Type 0 where
  pub addr_list : List NetAddress

unfoldable pub add_address : List NetAddress → NetAddress → Added (List NetAddress)
add_address list na = add_bounded "MsgAddr.AddAddress" max_addr_per_msg list na

-- AddAddresses: what the list is after the call, and whether it returned an error
unfoldable pub add_addresses : List NetAddress → List NetAddress → Option Error × List NetAddress
add_addresses list [] = (none, list)
add_addresses list (na ∷ rest) = elim (add_address list na) [
  | added more ↦ add_addresses more rest
  | too_many e ↦ (some e, list)
]

-- The error of AddAddress is ignored here.
unfoldable pub addr_bsv_decode : ℕ → Read MsgAddr
addr_bsv_decode pver = do
  list ←
      read_counted "MsgAddr.Bsvdecode" max_addr_per_msg (read_net_address pver true)
        (λ l na. or_keep l (add_address l na))
  pure (record { addr_list = list })

unfoldable pub addr_bsv_encode : (List ℕ → List ℕ) → ℕ → MsgAddr → Put
addr_bsv_encode to16 pver msg =
    refuse_put (ltb pver multiple_address_version && ltb 1 (length msg.addr_list))
      (message_error "MsgAddr.BsvEncode")
      (refuse_put (ltb max_addr_per_msg (length msg.addr_list)) (message_error "MsgAddr.BsvEncode")
        (write_counted (λ na. write_net_address to16 pver na true) msg.addr_list))

unfoldable pub addr_max_payload_length : ℕ → ℕ
addr_max_payload_length pver =
    if ltb pver multiple_address_version
    then max_var_int_payload + max_net_address_payload pver
    else max_var_int_payload + max_addr_per_msg * max_net_address_payload pver

-- An address that the wire keeps: 16 bytes of IP, and no time but the zero time where none is sent.
abbrev pub TimeFits : Bool → ℕ → Type 0
TimeFits true t = t < 2 ^ 32
TimeFits false t = t ≡ zero_time

pub record IsNetAddress (sent : Bool) (na : NetAddress) : Type 0 where
  pub timestamp : TimeFits sent na.timestamp
  pub services : na.services < 2 ^ 64
  pub ip_bytes : Fits ip na.ip_bytes
  pub port : na.port < 2 ^ 16

pub record IsAddr (pver : ℕ) (msg : MsgAddr) : Type 0 where
  pub one : (ltb pver multiple_address_version && ltb 1 (length msg.addr_list)) ≡ false
  pub few : length msg.addr_list ≤ max_addr_per_msg
  pub each : All (IsNetAddress (sends_time true pver)) msg.addr_list
