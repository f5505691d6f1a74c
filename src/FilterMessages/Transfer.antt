-- ===== src/FilterMessages/Transfer.antt =====
-- The messages of bloom filtering on the wire.
use go_wire.Prelude.{
  ltb→le, length, ℕ, List, ltb, false, ◌≡◌, arith, All, ◌≤◌, append-nil, le→ltb, refl, Bool, ◌^◌,
  ◌<◌,
}
use go_wire.Block.Transfer.{max_tx_per_block_fits}
use go_wire.BlockHeader.{write_block_header, read_block_header}
use go_wire.BlockHeader.Transfer.{Takes-read_block_header, RoundTrips-block_header}
use go_wire.Counted.{or_fail, write_counted, read_counted, add_bounded}
use go_wire.Counted.Transfer.{or_fail-Appends, Takes-counted, RoundTrips-counted}
use go_wire.Element.{
  hash, read_element, write_element, uint32_kind, Values, write_elements, Fits, read_elements,
}
use go_wire.Element.Transfer.{Takes-plain, RoundTrips-element, RoundTrips-elements, Takes-elements}
use go_wire.FilterMessages.{
  max_filter_add_data_size, filter_add_bsv_decode, bip0037_version, filter_load_bsv_decode,
  filter_load_bsv_encode, max_filter_load_filter_size, merkle_block_bsv_encode, IsFilterLoad,
  MsgFilterAdd, add_tx_hash, filter_load_kinds, max_filter_load_hash_funcs, filter_add_bsv_encode,
  MsgFilterLoad, IsMerkleBlock, merkle_block_bsv_decode,
}
use go_wire.Io.{refuse_if, ◌▸◌, refuse_put, ◌>>=◌, IsByte, Error, message_error, ok, ◌>>◌, pure}
use go_wire.Io.Codec.{RoundTrips-written, IsCodec, refuse_put-passes}
use go_wire.Io.Reads.{RoundTrips-last, RoundTrips-bind}
use go_wire.Io.Takes.{Takes-pass, Takes-pure, Takes-bind, Takes-weaken}
use go_wire.Limits.{max_flags_per_merkle_block, max_block_payload, max_tx_per_block}
use go_wire.Ping.Transfer.{checked-IsCodec}
use go_wire.VarBytes.{read_var_bytes, write_var_bytes}
use go_wire.VarBytes.Transfer.{RoundTrips-var_bytes, Takes-read_var_bytes}

-- A byte array of at most `max` bytes behind its length.
pub var_bytes-IsCodec :
    (max : ℕ)
    → max < 2 ^ 64
    → IsCodec (read_var_bytes max) write_var_bytes (λ v. (length v ≤ max) × All IsByte v)
var_bytes-IsCodec max w = record {
  reads_back = λ v h. RoundTrips-var_bytes max v (omega (arith, h.0, w)) h.0;
  takes = Takes-weaken (Takes-read_var_bytes max) (λ v bs i q. ((q.0, q.2), q.3));
}

abbrev filter_add_of : List ℕ → MsgFilterAdd
filter_add_of bs = record { data_bytes = bs }

abbrev filter_load_of : List ℕ → Values filter_load_kinds → MsgFilterLoad
filter_load_of bs (n, (t, (u, _))) = record { filter = bs; hash_funcs = n; tweak = t; flags = u }

max_flags_fits : (ebs : ℕ) → ebs < 2 ^ 64 → max_flags_per_merkle_block ebs < 2 ^ 64
unfolding max_flags_per_merkle_block max_tx_per_block max_block_payload
max_flags_fits ebs h = omega arith

passed {ℓ} :
    {A : Type ℓ} {a : A} (b : Bool) (e : Error)
    → b ≡ false
    → (s : List ℕ) → (refuse_if b e >> pure a) s ≡ ok a s
unfolding refuse_if
passed b e h s = rw h refl

filter_add_body-IsCodec :
    IsCodec
      (read_var_bytes max_filter_add_data_size >>= λ bs. pure (filter_add_of bs))
      (λ msg.
        refuse_put
          (ltb max_filter_add_data_size (length msg.data_bytes))
          (message_error "MsgFilterAdd.BsvEncode")
          (write_var_bytes msg.data_bytes))
      (λ msg. (length msg.data_bytes ≤ max_filter_add_data_size) × All IsByte msg.data_bytes)
filter_add_body-IsCodec =
    let c = var_bytes-IsCodec max_filter_add_data_size (omega arith) in
    record {
      reads_back = λ msg h.
          RoundTrips-written _ _ (le→ltb max_filter_add_data_size _ h.0)
            (RoundTrips-last _ (c.reads_back msg.data_bytes h) (λ s. refl));
      takes = Takes-bind c.takes λ v bs i q. Takes-pure (
        q.0,
        refuse_put-passes _ _ (le→ltb max_filter_add_data_size _ q.0.0) (rw append-nil q.1),
      );
    }

-- MsgFilterAdd: from BIP0037 on, at most 520 bytes are encoded without an error and read back,
-- whatever follows; and what is decoded from an input of bytes, shorter than 2 ^ 63, is such a
-- message of such a version, and what was read is its encoding.
pub filter_add_bsv_decode-IsCodec :
    (pver : ℕ)
    → IsCodec (filter_add_bsv_decode pver) (filter_add_bsv_encode pver) (λ msg.
      (ltb pver bip0037_version ≡ false)
      × ((length msg.data_bytes ≤ max_filter_add_data_size) × All IsByte msg.data_bytes))
unfolding filter_add_bsv_decode filter_add_bsv_encode
filter_add_bsv_decode-IsCodec pver = checked-IsCodec _ _ _ filter_add_body-IsCodec

load_fields-IsCodec :
    IsCodec
      (read_var_bytes max_filter_load_filter_size >>= λ bs.
        read_elements filter_load_kinds >>= λ vs.
        refuse_if (ltb max_filter_load_hash_funcs vs.0) (message_error "MsgFilterLoad.Bsvdecode")
        >> pure (filter_load_of bs vs))
      (λ msg.
        refuse_put
          (ltb max_filter_load_filter_size (length msg.filter))
          (message_error "MsgFilterLoad.BsvEncode")
          (refuse_put
            (ltb max_filter_load_hash_funcs msg.hash_funcs)
            (message_error "MsgFilterLoad.BsvEncode")
            (write_var_bytes msg.filter
              ▸ write_elements filter_load_kinds (msg.hash_funcs, (msg.tweak, (msg.flags, tt))))))
      IsFilterLoad
load_fields-IsCodec =
    let c = var_bytes-IsCodec max_filter_load_filter_size (omega arith) in
    record {
      reads_back = λ msg h. RoundTrips-written _ _ (le→ltb max_filter_load_filter_size _ h.0.0) (
          RoundTrips-written _ _ (le→ltb max_filter_load_hash_funcs _ h.2) (
            RoundTrips-bind _ (c.reads_back msg.filter h.0) (
              RoundTrips-last _
                (RoundTrips-elements filter_load_kinds
                  (msg.hash_funcs, (msg.tweak, (msg.flags, tt))) h.1)
                (passed _ _ (le→ltb max_filter_load_hash_funcs _ h.2)))));
      takes = Takes-bind c.takes λ v bs i q.
          Takes-bind (Takes-elements filter_load_kinds (tt, (tt, (tt, tt)))) λ vs cs j r.
            Takes-pass _ _ λ few. Takes-pure (
              (q.0, r.0, ltb→le max_filter_load_hash_funcs vs.0 few),
              refuse_put-passes _ _ (le→ltb max_filter_load_filter_size _ q.0.0)
                  (refuse_put-passes _ _ few (rw (q.1, r.1, append-nil) refl)),
            );
    }

-- MsgFilterLoad: from BIP0037 on, a filter of at most 36000 bytes with at most 50 hash functions, a
-- 32-bit tweak and a flag byte is encoded without an error and reads back, whatever follows; and
-- what is decoded from an input of bytes, shorter than 2 ^ 63, is such a message of such a version,
-- and what was read is its encoding.
pub filter_load_bsv_decode-IsCodec :
    (pver : ℕ)
    → IsCodec
        (filter_load_bsv_decode pver)
        (filter_load_bsv_encode pver)
        (λ msg. (ltb pver bip0037_version ≡ false) × IsFilterLoad msg)
unfolding filter_load_bsv_decode filter_load_bsv_encode
filter_load_bsv_decode-IsCodec pver = checked-IsCodec _ _ _ load_fields-IsCodec

merkle_fields-IsCodec :
    (ebs : ℕ)
    → ebs < 2 ^ 64
    → IsCodec
        (read_block_header >>= λ bh. read_element uint32_kind >>= λ n.
          read_counted "MsgMerkleBlock.Bsvdecode"
            (max_tx_per_block ebs)
            (read_element hash)
            (λ l h. or_fail (add_bounded "MsgMerkleBlock.AddTxHash" (max_tx_per_block ebs) l h))
          >>= λ list. read_var_bytes (max_flags_per_merkle_block ebs) >>= λ bs.
              pure (record { header = bh; transactions = n; hashes = list; flags = bs }))
        (λ msg.
          refuse_put
            (ltb (max_tx_per_block ebs) (length msg.hashes))
            (message_error "MsgMerkleBlock.Bsvdecode")
            (refuse_put
              (ltb (max_flags_per_merkle_block ebs) (length msg.flags))
              (message_error "MsgMerkleBlock.Bsvdecode")
              (write_block_header msg.header
                ▸ write_element uint32_kind msg.transactions
                ▸ write_counted (write_element hash) msg.hashes
                ▸ write_var_bytes msg.flags)))
        (IsMerkleBlock ebs)
merkle_fields-IsCodec ebs u =
    let w = max_tx_per_block_fits ebs u in
    let c = var_bytes-IsCodec (max_flags_per_merkle_block ebs) (max_flags_fits ebs u) in
    let q = or_fail-Appends {A = List ℕ} "MsgMerkleBlock.AddTxHash" (max_tx_per_block ebs) in
    record {
      reads_back = λ msg h. RoundTrips-written _ _ (le→ltb (max_tx_per_block ebs) _ h.few) (
          RoundTrips-written _ _ (le→ltb (max_flags_per_merkle_block ebs) _ h.flags.0) (
            RoundTrips-bind _ (RoundTrips-block_header msg.header h.header) (
              RoundTrips-bind _ (RoundTrips-element uint32_kind msg.transactions h.transactions) (
                RoundTrips-bind _
                  (RoundTrips-counted (Fits hash) (write_element hash) (read_element hash) _
                    (max_tx_per_block ebs) _ q (RoundTrips-element hash) w msg.hashes h.hashes
                    h.few)
                  (RoundTrips-last _ (c.reads_back msg.flags h.flags) (λ s. refl))))));
      takes = Takes-bind Takes-read_block_header λ bh b0 i0 t0.
          Takes-bind (Takes-plain uint32_kind tt) λ n b1 i1 t1.
            Takes-bind
              (Takes-counted (Fits hash) (write_element hash) (read_element hash) _
                (max_tx_per_block ebs) _ q (Takes-plain hash tt))
              λ list b2 i2 t2. Takes-bind c.takes λ bs b3 i3 t3. Takes-pure (
                record {
                  header = t0.0;
                  transactions = t1.0;
                  few = t2.0;
                  hashes = t2.1;
                  flags = t3.0;
                },
                refuse_put-passes _ _ (le→ltb (max_tx_per_block ebs) _ t2.0) (
                    refuse_put-passes _ _ (le→ltb (max_flags_per_merkle_block ebs) _ t3.0.0)
                      (rw (t0.1, t1.1, t2.2, t3.1, append-nil) refl)),
              );
    }

-- MsgMerkleBlock: for every excessive block size that a uint64 holds, from BIP0037 on, a message
-- within the decoder's bounds is encoded without an error and reads back, whatever follows; and what
-- is decoded from an input of bytes, shorter than 2 ^ 63, is such a message of such a version, and
-- what was read is its encoding.
pub merkle_block_bsv_decode-IsCodec :
    (ebs pver : ℕ)
    → ebs < 2 ^ 64
    → IsCodec
        (merkle_block_bsv_decode ebs pver)
        (merkle_block_bsv_encode ebs pver)
        (λ msg. (ltb pver bip0037_version ≡ false) × IsMerkleBlock ebs msg)
unfolding merkle_block_bsv_decode merkle_block_bsv_encode add_tx_hash
merkle_block_bsv_decode-IsCodec ebs pver u = checked-IsCodec _ _ _ (merkle_fields-IsCodec ebs u)
