-- ===== src/Ping/Transfer.antt =====
-- Messages of one number on the wire.
use go_wire.Prelude.{
  ◌≡◌, ◌^◌, ℕ, false, refl, ◌<◌, subst, leb, sym, [], ap, append-nil, ltb, Bool, true,
  if◌then◌else◌,
}
use go_wire.Element.{Kind, write_element, Fits, int64, uint64_kind, read_element, Value}
use go_wire.Element.Transfer.{RoundTrips-element, Takes-plain, IsPlain}
use go_wire.Io.{◌>>=◌, refuse_if, done, Read, refuse_put, Put, Error, ◌>>◌, ok, pure}
use go_wire.Io.Codec.{IsCodec, refuse_put-passes, RoundTrips-written}
use go_wire.Io.Reads.{RoundTrips-last, RoundTrips-pass}
use go_wire.Io.Takes.{Takes-weaken, Takes-pass, Takes-pure, Takes-bind}
use go_wire.Ping.{
  pong_bsv_decode, fee_filter_version, fee_filter_bsv_decode, ping_bsv_encode, ping_bsv_decode,
  fee_filter_bsv_encode, pong_bsv_encode, bip0031_version, MsgPing, IsPing,
}

-- A body behind a check of the version that passes.
pub checked-IsCodec {ℓ κ} :
    {A : Type ℓ} {m : Read A} {f : A → Put} {P : A → Type κ} (b : Bool) (e e' : Error)
    → IsCodec m f P
    → IsCodec (refuse_if b e >> m) (λ a. refuse_put b e' (f a)) (λ a. (b ≡ false) × P a)
checked-IsCodec b e e' c = record {
  reads_back = λ a h. RoundTrips-written b e' h.0 (RoundTrips-pass b e h.0 (c.reads_back a h.1));
  takes =
      Takes-pass b e λ passes.
        Takes-weaken c.takes λ a bs i q. ((passes, q.0), refuse_put-passes b e' passes q.1);
}

-- A message of one element.
pub single-IsCodec {ℓ} :
    {B : Type ℓ} (k : Kind) (to : Value k → B) (from : B → Value k)
    → IsPlain k
    → ((b : B) → to (from b) ≡ b)
    → ((v : Value k) → from (to v) ≡ v)
    → IsCodec
        (read_element k >>= λ v. pure (to v))
        (λ b. write_element k (from b))
        (λ b. Fits k (from b))
single-IsCodec k to from p back forth = record {
  reads_back =
      λ b h. RoundTrips-last _ (RoundTrips-element k (from b) h) (λ s. ap (λ x. ok x s) (back b));
  takes =
      Takes-bind (Takes-plain k p)
        λ v bs i q. Takes-pure (subst (Fits k) (sym (forth v)) q.0, rw (forth v, append-nil) q.1);
}

-- MsgPong: after BIP0031 a 64-bit nonce is encoded without an error and reads back, whatever
-- follows; and what is decoded from an input of bytes, shorter than 2 ^ 63, is such a message of
-- such a version, and what was read is its encoding.
pub pong_bsv_decode-IsCodec :
    (pver : ℕ)
    → IsCodec
        (pong_bsv_decode pver)
        (pong_bsv_encode pver)
        (λ msg. (leb pver bip0031_version ≡ false) × (msg.nonce < 2 ^ 64))
unfolding pong_bsv_decode pong_bsv_encode
pong_bsv_decode-IsCodec pver = checked-IsCodec _ _ _ (
    single-IsCodec uint64_kind (λ n. record { nonce = n }) (λ msg. msg.nonce) tt (λ msg. refl)
      (λ n. refl))

-- MsgFeeFilter: from FeeFilterVersion on, a 64-bit fee is encoded without an error and reads back,
-- whatever follows; and what is decoded from an input of bytes, shorter than 2 ^ 63, is such a
-- message of such a version, and what was read is its encoding.
pub fee_filter_bsv_decode-IsCodec :
    (pver : ℕ)
    → IsCodec
        (fee_filter_bsv_decode pver)
        (fee_filter_bsv_encode pver)
        (λ msg. (ltb pver fee_filter_version ≡ false) × (msg.min_fee < 2 ^ 64))
unfolding fee_filter_bsv_decode fee_filter_bsv_encode
fee_filter_bsv_decode-IsCodec pver = checked-IsCodec _ _ _ (
    single-IsCodec int64 (λ n. record { min_fee = n }) (λ msg. msg.min_fee) tt (λ msg. refl)
      (λ n. refl))

abbrev ping_of : ℕ → MsgPing
ping_of n = record { nonce = n }

numbered-IsCodec :
    IsCodec
      (read_element uint64_kind >>= λ n. pure (ping_of n))
      (λ (msg : MsgPing). write_element uint64_kind msg.nonce)
      (λ msg. msg.nonce < 2 ^ 64)
numbered-IsCodec =
    single-IsCodec uint64_kind ping_of (λ msg. msg.nonce) tt (λ msg. refl) (λ n. refl)

silent-IsCodec : IsCodec (pure (ping_of 0)) (λ (msg : MsgPing). done []) (λ msg. msg.nonce ≡ 0)
silent-IsCodec = record {
  reads_back = λ msg h. record {
    bytes = [];
    written = refl;
    reads = λ rest. ap (λ n. ok (ping_of n) rest) (sym h);
  };
  takes = Takes-pure (refl, refl);
}

by_version :
    (b : Bool)
    → IsCodec
        (if b then (read_element uint64_kind >>= λ n. pure (ping_of n)) else pure (ping_of 0))
        (λ (msg : MsgPing). if b then write_element uint64_kind msg.nonce else done [])
        (λ msg. if b then (msg.nonce < 2 ^ 64) else (msg.nonce ≡ 0))
by_version true = numbered-IsCodec
by_version false = silent-IsCodec

-- MsgPing: after BIP0031 a 64-bit nonce, and up to it the nonce 0, is encoded without an error and
-- reads back, whatever follows; and what is decoded from an input of bytes, shorter than 2 ^ 63, is
-- such a message, and what was read is its encoding.
pub ping_bsv_decode-IsCodec :
    (pver : ℕ) → IsCodec (ping_bsv_decode pver) (ping_bsv_encode pver) (IsPing pver)
unfolding ping_bsv_decode ping_bsv_encode
ping_bsv_decode-IsCodec pver = by_version (ltb bip0031_version pver)
