-- ===== src/Protoconf/RoundTrip.antt =====
-- What the protoconf message reads and writes.
use go_wire.Prelude.{
  ℕ, ◌^◌, ◌∷◌, List, false, [], ltb, arith, length, refl, ◌==◌, ◌≤◌, if◌then◌else◌, ◌≡◌, le→ltb,
  All, ◌<◌, ◌++◌, Bool, true,
}
use go_wire.Binary.Transfer.{RoundTrips-read_full}
use go_wire.Element.Transfer.{RoundTrips-uint32}
use go_wire.Empty.{protoconf_version}
use go_wire.Io.{Read, ◌▸◌, write}
use go_wire.Io.Codec.{RoundTrips-written}
use go_wire.Io.Reads.{RoundTrips-pass, RoundTrips-bind, RoundTrips, RoundTrips-last}
use go_wire.Limits.{max_message_payload}
use go_wire.Protoconf.{
  read_stream_policies, protoconf_bsv_encode, read_max_recv, split, MsgProtoconf, IsProtoconf,
  HasNoComma, protoconf_bsv_decode, comma, prepend, join,
}

split-nonempty : (s : List ℕ) → 0 < length (split s)
unfolding split prepend
split-nonempty [] = omega arith
split-nonempty (b ∷ s) = go (b == comma) (split s)
  where
    go : (c : Bool) (ws : List (List ℕ)) → 0 < length (if c then [] ∷ ws else prepend b ws)
    go true ws = omega arith
    go false [] = omega arith
    go false (w ∷ ws) = omega arith

-- Split gives back policies without a comma.
split-word : (w : List ℕ) → HasNoComma w → split w ≡ w ∷ []
unfolding split prepend
split-word [] h = refl
split-word (b ∷ w) h = rw (h.0, split-word w h.1) refl

split-append : (w s : List ℕ) → HasNoComma w → split (w ++ (comma ∷ s)) ≡ w ∷ split s
unfolding split prepend
split-append [] s h = refl
split-append (b ∷ w) s h = rw (h.0, split-append w s h.1) refl

pub split-join : (ws : List (List ℕ)) → 0 < length ws → All HasNoComma ws → split (join ws) ≡ ws
unfolding join
split-join [] n h = absurd (omega (arith, n))
split-join (w ∷ []) n h = split-word w h.0
split-join (w ∷ v ∷ ws) n h =
    rw (split-append w (join (v ∷ ws)) h.0, split-join (v ∷ ws) (omega arith) h.1) refl

-- `vi_read` reads back the bytes of `vi_bytes`.
module _ (vi_read : Read ℕ) (vi_bytes : ℕ → List ℕ)
    (vi_back : (v : ℕ) → v < 2 ^ 64 → RoundTrips (write (vi_bytes v)) vi_read v) where
  RoundTrips-policies :
      (ebs fields : ℕ) (ws : List (List ℕ))
      → 2 ≤ fields
      → 0 < length ws
      → All HasNoComma ws
      → length (join ws) ≤ max_message_payload ebs
      → RoundTrips
          (write (vi_bytes (length (join ws))) ▸ write (join ws))
          (read_stream_policies vi_read ebs fields)
          ws
  unfolding read_stream_policies max_message_payload
  RoundTrips-policies ebs fields ws two n h short =
      let both : ltb 1 fields ≡ true = ground (arith, two) in
      rw both (
        RoundTrips-bind _ (vi_back (length (join ws)) (omega (arith, short))) (
          RoundTrips-pass _ _ (le→ltb _ _ short) (
            RoundTrips-last _ (RoundTrips-read_full (length (join ws)) (join ws) refl)
              (λ s. rw (split-join ws n h) refl))))

  -- In a version from ProtoconfVersion on, and for integers of variable length that read back from
  -- their bytes: a protoconf message with two fields or more, as many as a uint64 holds, with a largest
  -- payload that a uint32 holds, and with one policy or more, none of them with a comma and all of them,
  -- joined by commas, no longer than the limit of all messages, is encoded without an error, and its
  -- encoding, followed by anything, decodes to it and leaves what follows.
  pub protoconf_bsv_decode-protoconf_bsv_encode :
      (ebs pver : ℕ) (msg : MsgProtoconf)
      → protoconf_version ≤ pver
      → IsProtoconf ebs msg
      → RoundTrips
          (protoconf_bsv_encode vi_bytes pver msg)
          (protoconf_bsv_decode vi_read ebs pver)
          msg
  unfolding protoconf_bsv_decode protoconf_bsv_encode read_max_recv
  protoconf_bsv_decode-protoconf_bsv_encode ebs pver msg new h =
      let some_field : ltb 0 msg.number_of_fields ≡ true = ground (arith, h.fields) in
      let old = le→ltb pver protoconf_version new in
      RoundTrips-written _ _ old (
        RoundTrips-pass _ _ old (
          RoundTrips-bind _ (vi_back msg.number_of_fields h.fields_fit) (
            rw some_field (
              RoundTrips-bind _
                (RoundTrips-uint32 msg.max_recv_payload_length h.max_recv_payload_length)
                (RoundTrips-last _
                  (RoundTrips-policies ebs msg.number_of_fields msg.stream_policies h.fields
                    h.some_policy h.policies h.joined)
                  (λ s. refl))))))
