-- ===== src/Auth/Mismatch.antt =====
-- The encoder of an authch writes the length of the challenge as a uint32, and the decoder reads it
-- as a variable length integer: a byte, while it is below 0xfd.
use go_wire.Prelude.{
  ℕ, refl, ◌<◌, length-append, suc, ◌∷◌, true, ltb, [], List, arith, ◌%◌, length, ◌≡◌, ◌++◌, ◌/◌,
  ◌^◌, ◌≤◌, append_assoc, append-nil, ap,
}
use go_wire.Auth.{
  auth_ch_bsv_decode, auth_ch_bsv_encode, new_msg_auth_ch, auth_ch_max_payload_length,
}
use go_wire.Binary.{order_bytes, put_uint32, le, little, put_uint8}
use go_wire.Element.{int32, write_elements, write_element}
use go_wire.Element.Transfer.{RoundTrips-element}
use go_wire.Io.{done, ◌▸◌, ok, written}
use go_wire.Io.Reads.{RoundTrips-last, RoundTrips-bind, RoundTrips}
use go_wire.VarBytes.{write_var_bytes}
use go_wire.VarBytes.Transfer.{RoundTrips-var_bytes}
use go_wire.VarInt.{write_var_int}
use go_wire.VarInt.Transfer.{RoundTrips-var_int}

put_uint32-short :
    (n : ℕ) → n < 0xfd → put_uint32 little n ≡ write_var_int n ▸ done (0 ∷ 0 ∷ 0 ∷ [])
unfolding put_uint32 write_var_int put_uint8 order_bytes le
put_uint32-short n h =
    let e : n % 256 ≡ n = omega arith in
    let e8 : n % 2 ^ 8 ≡ n = omega arith in
    let z : n / 256 ≡ 0 = omega arith in
    let t : ltb n 0xfd ≡ true = ground arith in rw (t, z, e8, e) refl

-- what the decoder would read: a challenge behind its length as a variable length integer
RoundTrips-challenge :
    (c : List ℕ)
    → length c ≤ auth_ch_max_payload_length
    → RoundTrips (write_element int32 1 ▸ write_var_bytes c) auth_ch_bsv_decode (new_msg_auth_ch c)
unfolding auth_ch_bsv_decode new_msg_auth_ch
RoundTrips-challenge c h = RoundTrips-bind _ (RoundTrips-element int32 1 (omega arith)) (
    RoundTrips-last _ (RoundTrips-var_bytes auth_ch_max_payload_length c (omega (arith, h)) h)
      (λ s. refl))

regroup :
    (v w front last : List ℕ)
    → ((v ++ ((w ++ (0 ∷ 0 ∷ 0 ∷ [])) ++ [])) ++ (front ++ last))
      ≡ ((v ++ (w ++ (0 ∷ 0 ∷ 0 ∷ front))) ++ last)
regroup v w front last = simp (append-nil, append_assoc)

auth_ch_bsv_encode-shifted :
    (front last : List ℕ)
    → length front ≤ 37
    → length last ≡ 3
    → auth_ch_bsv_encode (new_msg_auth_ch (front ++ last))
      ≡ (write_element int32 1 ▸ write_var_bytes (0 ∷ 0 ∷ 0 ∷ front)) ▸ done last
unfolding new_msg_auth_ch auth_ch_bsv_encode write_elements write_var_bytes write_element
auth_ch_bsv_encode-shifted front last h k =
    let n = suc (suc (suc (length front))) in
    let e : length (front ++ last) ≡ n = omega (arith, k, length-append front last) in
    let n32 : n % 2 ^ 32 ≡ n = omega (arith, h) in
    let w = RoundTrips-var_int n (omega (arith, h)) in
    let p = put_uint32-short n (omega (arith, h)) in
    let v = RoundTrips-element int32 1 (omega arith) in
    rw (new_msg_auth_ch, e, n32, p, w.written, v.written)
      (ap done (regroup v.bytes w.bytes front last))

-- A challenge of 3 to 40 bytes, `front` and the three bytes `last` behind it, in what NewMsgAuthch
-- gives for it is encoded without an error, and what is written decodes to a message of version 1 with
-- the length of the challenge, whose challenge is three zeros and `front`; `last` is left on the stream.
pub auth_ch_bsv_decode-auth_ch_bsv_encode :
    (front last : List ℕ)
    → length front ≤ 37
    → length last ≡ 3
    → (auth_ch_bsv_encode (new_msg_auth_ch (front ++ last))
        ≡ done (written (auth_ch_bsv_encode (new_msg_auth_ch (front ++ last)))))
      × (auth_ch_bsv_decode (written (auth_ch_bsv_encode (new_msg_auth_ch (front ++ last))))
          ≡ ok
              (record {
                version = 1;
                length_field = length (front ++ last);
                challenge = 0 ∷ 0 ∷ 0 ∷ front;
              })
              last)
unfolding new_msg_auth_ch written
auth_ch_bsv_decode-auth_ch_bsv_encode front last h k =
    let r = RoundTrips-challenge (0 ∷ 0 ∷ 0 ∷ front) (omega (arith, h)) in
    let n : length (0 ∷ 0 ∷ 0 ∷ front) % 2 ^ 32 ≡ length (front ++ last) =
      omega (arith, h, k, length-append front last) in
    let shifted = auth_ch_bsv_encode-shifted front last h k in
    (
      rw (shifted, r.written) refl,
      rw (shifted, r.written, r.reads last)
          (ap (λ m. ok m last)
            (ap (λ k. record { version = 1; length_field = k; challenge = 0 ∷ 0 ∷ 0 ∷ front }) n)),
    )
