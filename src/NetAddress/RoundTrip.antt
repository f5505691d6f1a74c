-- ===== src/NetAddress/RoundTrip.antt =====
-- What the addr message reads and writes.
use go_wire.Prelude.{true, List, arith, length, ◌≡◌, ℕ, le→ltb, refl}
use go_wire.Counted.Transfer.{RoundTrips-counted, or_keep-Appends}
use go_wire.Io.Codec.{RoundTrips-written}
use go_wire.Io.Reads.{RoundTrips, RoundTrips-last}
use go_wire.NetAddress.{
  addr_bsv_encode, MsgAddr, IsAddr, add_address, read_net_address, addr_bsv_decode, IsNetAddress,
  max_addr_per_msg, sends_time,
}
use go_wire.NetAddress.Transfer.{read_net_address-IsCodec}

-- An addr message with at most 1000 addresses of 16 bytes of IP each, and with at most one address
-- in a version below MultipleAddressVersion, is encoded without an error, and its encoding, followed
-- by anything, decodes to it and leaves what follows, for every `to16` that keeps an IP of 16 bytes.
pub addr_bsv_decode-addr_bsv_encode :
    (to16 : List ℕ → List ℕ)
    → ((i : List ℕ) → length i ≡ 16 → to16 i ≡ i)
    → (pver : ℕ) (msg : MsgAddr) → IsAddr pver msg
    → RoundTrips (addr_bsv_encode to16 pver msg) (addr_bsv_decode pver) msg
unfolding addr_bsv_encode addr_bsv_decode add_address
addr_bsv_decode-addr_bsv_encode to16 keeps pver msg h =
    let c = read_net_address-IsCodec to16 keeps pver true in
    RoundTrips-written _ _ h.one (
      RoundTrips-written _ _ (le→ltb max_addr_per_msg _ h.few) (
        RoundTrips-last _
          (RoundTrips-counted (IsNetAddress (sends_time true pver)) _ (read_net_address pver true) _
            max_addr_per_msg _ (or_keep-Appends _ max_addr_per_msg) c.reads_back (omega arith)
            msg.addr_list h.each h.few)
          (λ s. refl)))
