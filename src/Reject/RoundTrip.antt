-- ===== src/Reject/RoundTrip.antt =====
-- What the reject message reads and writes.
use go_wire.Prelude.{
  ◌≤◌, [], ap, Bool, refl, ◌++◌, false, true, le→ltb, sym, ℕ, arith, append-nil, List, ◌≡◌,
}
use go_wire.Element.{hash, reject_code}
use go_wire.Element.Transfer.{RoundTrips-element, Takes-plain, IsCodec-element}
use go_wire.Io.{ok, IsInput, written}
use go_wire.Io.Codec.{refuse_put-passes, RoundTrips-written, IsCodec, IsCodec-taken}
use go_wire.Io.Reads.{RoundTrips-last, RoundTrips-bind, RoundTrips-pass}
use go_wire.Io.Takes.{Takes-pass, Takes-pure, Takes-bind}
use go_wire.Reject.{
  MsgReject, IsReject, read_reject_hash, reject_bsv_decode, reject_bsv_encode, has_hash,
  IsRejectHash, reject_version, write_reject_hash,
}
use go_wire.VarBytes.{write_var_bytes, write_var_string}
use go_wire.VarBytes.Transfer.{RoundTrips-var_string, Takes-var_string}

read_reject_hash-IsCodec :
    (b : Bool) → IsCodec (read_reject_hash b) (write_reject_hash b) (IsRejectHash b)
unfolding read_reject_hash write_reject_hash
read_reject_hash-IsCodec true = IsCodec-element hash tt
read_reject_hash-IsCodec false = record {
  reads_back =
      λ h e. record { bytes = []; written = refl; reads = λ rest. ap (λ z. ok z rest) (sym e) };
  takes = Takes-pure (refl, refl);
}

pub reject_bsv_decode-IsCodec :
    (ebs pver : ℕ)
    → reject_version ≤ pver
    → IsCodec (reject_bsv_decode ebs pver) (reject_bsv_encode pver) (IsReject ebs)
unfolding reject_bsv_decode reject_bsv_encode write_var_string write_var_bytes
reject_bsv_decode-IsCodec ebs pver new = record {
  reads_back = λ msg h. RoundTrips-written _ _ (le→ltb pver reject_version new) (
      RoundTrips-pass _ _ (le→ltb pver reject_version new) (
        RoundTrips-bind _ (RoundTrips-var_string ebs msg.cmd (omega (arith, h.short_cmd)) h.cmd) (
          RoundTrips-bind _ (RoundTrips-element reject_code msg.code h.code) (
            RoundTrips-bind _
              (RoundTrips-var_string ebs msg.reason (omega (arith, h.short_reason)) h.reason)
              (RoundTrips-last _
                ((read_reject_hash-IsCodec (has_hash msg.cmd)).reads_back msg.hash_bytes
                  h.hash_bytes)
                (λ s. refl))))));
  takes = Takes-pass _ _ λ o. Takes-bind (Takes-var_string ebs) λ cmd b0 i0 q0.
      Takes-bind (Takes-plain reject_code tt) λ code b1 i1 q1.
        Takes-bind (Takes-var_string ebs) λ reason b2 i2 q2.
          Takes-bind ((read_reject_hash-IsCodec (has_hash cmd)).takes) λ h b3 i3 q3. Takes-pure (
            record {
              short_cmd = q0.1;
              cmd = q0.0;
              code = q1.0;
              short_reason = q2.1;
              reason = q2.0;
              hash_bytes = q3.0;
            },
            refuse_put-passes _ _ (le→ltb pver reject_version new)
                (rw (q0.3, q1.1, q2.3, q3.1, append-nil) refl),
          );
}

-- From RejectVersion on: if an input of bytes, shorter than 2 ^ 63, decodes to a reject message, then
-- it begins with the encoding of the message, followed by what is left, and the message has a hash
-- other than zeros only where it refuses a block or a transaction.
pub reject_bsv_encode-reject_bsv_decode :
    (ebs pver : ℕ)
    → reject_version ≤ pver
    → (s : List ℕ) (msg : MsgReject) (rest : List ℕ) → IsInput s
    → reject_bsv_decode ebs pver s ≡ ok msg rest
    → (s ≡ written (reject_bsv_encode pver msg) ++ rest) × IsReject ebs msg
reject_bsv_encode-reject_bsv_decode ebs pver new =
    IsCodec-taken (reject_bsv_decode-IsCodec ebs pver new)
