-- ===== src/NetAddress/Transfer.antt =====
-- Addresses on the wire.
use go_wire.Prelude.{
  [], arith, ◌∷◌, true, List, ◌<◌, ℕ, append-nil, ◌≡◌, ◌^◌, sym, length, ◌==◌, refl, ap, false,
  Bool,
}
use go_wire.Binary.{put_uint16, uint16, big}
use go_wire.Binary.Transfer.{RoundTrips-uint_of, Takes-uint_of}
use go_wire.Element.{uint32_time, service_flag, ip, write_element}
use go_wire.Element.Transfer.{RoundTrips-elements, Takes-elements, ArePlain, IsCodec-element}
use go_wire.Io.{done, ok}
use go_wire.Io.Codec.{IsCodec}
use go_wire.Io.Reads.{RoundTrips-bind, RoundTrips-last}
use go_wire.Io.Takes.{Takes-pure, Takes-bind, Takes-weaken}
use go_wire.NetAddress.{
  read_net_address, wire_ip, IsNetAddress, write_net_address, TimeFits, write_time, sends_time,
  read_time,
}
use go_wire.Tx.Scripts.Relocate.{copy-whole}

pub IsCodec-time : (sent : Bool) → IsCodec (read_time sent) (write_time sent) (TimeFits sent)
unfolding read_time write_time write_element
IsCodec-time true = IsCodec-element uint32_time tt
IsCodec-time false = record {
  reads_back =
      λ t h. record { bytes = []; written = refl; reads = λ rest. ap (λ z. ok z rest) (sym h) };
  takes = Takes-pure (refl, refl);
}

IsCodec-port : IsCodec (uint16 big) (put_uint16 big) (λ p. p < 2 ^ 16)
unfolding uint16 put_uint16
IsCodec-port = record {
  reads_back = λ p h. RoundTrips-uint_of big 2 p h;
  takes = Takes-weaken (Takes-uint_of big 2) (λ v bs i q. (q.0, ap done (sym q.1)));
}

-- `to16` keeps an IP of 16 bytes.
module _ (to16 : List ℕ → List ℕ) (keeps : (i : List ℕ) → length i ≡ 16 → to16 i ≡ i) where
  pub wire_ip-keeps : (i : List ℕ) → length i ≡ 16 → wire_ip to16 i ≡ i
  unfolding wire_ip
  wire_ip-keeps i h =
      let some_ip : (length i == 0) ≡ false = ground (arith, h) in
      rw (some_ip, keeps i h) (copy-whole 16 i h)

  pub read_net_address-IsCodec :
      (pver : ℕ) (ts : Bool)
      → IsCodec
          (read_net_address pver ts)
          (λ na. write_net_address to16 pver na ts)
          (IsNetAddress (sends_time ts pver))
  unfolding read_net_address write_net_address
  read_net_address-IsCodec pver ts =
      let t = IsCodec-time (sends_time ts pver) in
      let plain : ArePlain (service_flag ∷ ip ∷ []) = (tt, (tt, tt)) in
      record {
        reads_back = λ na h.
            let e = wire_ip-keeps na.ip_bytes h.ip_bytes.0 in
            rw e (
              RoundTrips-bind _ (t.reads_back na.timestamp h.timestamp) (
                RoundTrips-bind _
                  (RoundTrips-elements (service_flag ∷ ip ∷ []) (na.services, (na.ip_bytes, tt))
                    (h.services, (h.ip_bytes, tt)))
                  (RoundTrips-last _ (IsCodec-port.reads_back na.port h.port) (λ s. refl))));
        takes = Takes-bind t.takes λ time b0 i0 q0.
            Takes-bind (Takes-elements (service_flag ∷ ip ∷ []) plain) λ vs b1 i1 q1.
              Takes-bind IsCodec-port.takes λ p b2 i2 q2.
                let e = wire_ip-keeps vs.1.0 q1.0.1.0.0 in
                Takes-pure (
                  record { timestamp = q0.0; services = q1.0.0; ip_bytes = q1.0.1.0; port = q2.0 },
                  rw (e, q0.1, q1.1, q2.1, append-nil) refl,
                );
      }
