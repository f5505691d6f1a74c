-- ===== src/Streams/Transfer.antt =====
-- The messages of streams on the wire.
use go_wire.Prelude.{ℕ, arith, refl, le→ltb, append-nil}
use go_wire.Element.{uint8_kind}
use go_wire.Element.Transfer.{RoundTrips-element, Takes-plain}
use go_wire.FilterMessages.Transfer.{var_bytes-IsCodec}
use go_wire.Io.Codec.{IsCodec, RoundTrips-written, refuse_put-passes}
use go_wire.Io.Reads.{RoundTrips-bind, RoundTrips-last, RoundTrips-pass}
use go_wire.Io.Takes.{Takes-pure, Takes-bind, Takes-pass}
use go_wire.Streams.{
  stream_ack_bsv_encode, create_stream_bsv_encode, stream_ack_bsv_decode, create_stream_bsv_decode,
  IsStreamAck, IsCreateStream, max_association_id_len,
}
use go_wire.VarBytes.{write_var_string, write_var_bytes}
use go_wire.VarBytes.Transfer.{RoundTrips-var_string, Takes-var_string}

pub stream_ack_bsv_decode-IsCodec : IsCodec stream_ack_bsv_decode stream_ack_bsv_encode IsStreamAck
unfolding stream_ack_bsv_decode stream_ack_bsv_encode
stream_ack_bsv_decode-IsCodec =
    let c = var_bytes-IsCodec max_association_id_len (omega arith) in
    record {
      reads_back = λ msg h.
          RoundTrips-bind _ (c.reads_back msg.association_id h.0)
            (RoundTrips-last _ (RoundTrips-element uint8_kind msg.stream_type h.1) (λ s. refl));
      takes = Takes-bind c.takes λ bs b0 i0 p.
          Takes-bind (Takes-plain uint8_kind tt)
            λ t b1 i1 q. Takes-pure ((p.0, q.0), rw (p.1, q.1, append-nil) refl);
    }

pub create_stream_bsv_decode-IsCodec :
    (ebs : ℕ) → IsCodec (create_stream_bsv_decode ebs) create_stream_bsv_encode (IsCreateStream ebs)
unfolding create_stream_bsv_decode create_stream_bsv_encode write_var_string write_var_bytes
create_stream_bsv_decode-IsCodec ebs =
    let c = var_bytes-IsCodec max_association_id_len (omega arith) in
    record {
      reads_back = λ msg h. RoundTrips-written _ _ h.some_id (
          RoundTrips-written _ _ (le→ltb max_association_id_len _ h.id.0) (
            RoundTrips-bind _ (c.reads_back msg.association_id h.id) (
              RoundTrips-pass _ _ h.some_id (
                RoundTrips-bind _ (RoundTrips-element uint8_kind msg.stream_type h.stream_type) (
                  RoundTrips-last _
                    (RoundTrips-var_string ebs msg.stream_policy_name (omega (arith, h.short_name))
                      h.name)
                    (λ s. refl))))));
      takes = Takes-bind c.takes λ bs b0 i0 p. Takes-pass _ _ λ given.
          Takes-bind (Takes-plain uint8_kind tt) λ t b1 i1 q.
            Takes-bind (Takes-var_string ebs) λ name b2 i2 r. Takes-pure (
              record { some_id = given; id = p.0; stream_type = q.0; short_name = r.1; name = r.0 },
              refuse_put-passes _ _ given (
                  refuse_put-passes _ _ (le→ltb max_association_id_len _ p.0.0)
                    (rw (p.1, q.1, r.3, append-nil) refl)),
            );
    }
