-- ===== src/Binary/Transfer.antt =====
-- What the readers and writers of fixed-width integers do to a stream.
use go_wire.Prelude.{
  ℕ, ◌^◌, ◌<◌, ◌≡◌, refl, sym, subst, ◌∙◌, List, [], ◌++◌, length, All, append-nil,
}
use go_wire.Io.{done, read_full, IsByte}
use go_wire.Io.Reads.{RoundTrips, RoundTrips-last, read_full-append}
use go_wire.Io.Takes.{Takes, Takes-bind, Takes-pure, Takes-read_full}
use go_wire.Binary.{ByteOrder, uint_of, order_bytes, of_order}
use go_wire.Binary.Bytes.{
  length-order_bytes, of_order-order_bytes, of_order-lt, order_bytes-of_order,
}

pub RoundTrips-read_full :
    (n : ℕ) (bs : List ℕ) → length bs ≡ n → RoundTrips (done bs) (read_full n) bs
RoundTrips-read_full n bs h = record {
  bytes = bs;
  written = refl;
  reads = λ rest. rw (← h) (read_full-append bs rest);
}

pub RoundTrips-uint_of :
    (o : ByteOrder) (k v : ℕ) → v < 256 ^ k → RoundTrips (done (order_bytes o k v)) (uint_of o k) v
unfolding uint_of
RoundTrips-uint_of o k v h =
    RoundTrips-last _ (RoundTrips-read_full k (order_bytes o k v) (length-order_bytes o k v))
      (λ s. rw (of_order-order_bytes o k v h))

uint_taken :
    (o : ByteOrder) (k : ℕ) (a : List ℕ)
    → length a ≡ k
    → All IsByte a
    → (of_order o a < 256 ^ k) × (a ++ [] ≡ order_bytes o k (of_order o a))
uint_taken o k a h i =
    subst (λ n. (of_order o a < 256 ^ n) × (a ++ [] ≡ order_bytes o n (of_order o a))) h
      (of_order-lt o a i, append-nil a ∙ sym (order_bytes-of_order o a i))

-- The number that was read fits its width, and its bytes are those that were read.
pub Takes-uint_of :
    (o : ByteOrder) (k : ℕ) → Takes (uint_of o k) (λ v bs. (v < 256 ^ k) × (bs ≡ order_bytes o k v))
unfolding uint_of
Takes-uint_of o k = Takes-bind (Takes-read_full k) λ a bs i q. Takes-pure (
    subst (λ c. (of_order o c < 256 ^ k) × (bs ++ [] ≡ order_bytes o k (of_order o c))) (sym q.0)
      (uint_taken o k bs q.1 i.bytes))
