-- ===== src/BlockHeader/Transfer.antt =====
-- Block headers on the wire.
use go_wire.Prelude.{◌≡◌, refl, append-nil, length, ◌++◌, ℕ, List}
use go_wire.BlockHeader.{
  BlockHeader, header_kinds, header_values, read_block_header, write_block_header, IsHeader,
  block_header_len,
}
use go_wire.Element.Size.{Writes-elements}
use go_wire.Element.Transfer.{RoundTrips-elements, Takes-elements}
use go_wire.Io.{done, IsInput, ok, written}
use go_wire.Io.Reads.{RoundTrips, RoundTrips-last}
use go_wire.Io.Takes.{Takes, Takes-bind, Takes-pure}
use go_wire.Io.Writes.{Writes, sum_of, length-written}

-- A header whose fields fit reads back from what is written.
pub RoundTrips-block_header :
    (h : BlockHeader) → IsHeader h → RoundTrips (write_block_header h) read_block_header h
unfolding read_block_header write_block_header
RoundTrips-block_header h p =
    RoundTrips-last _ (RoundTrips-elements header_kinds (header_values h) p) (λ s. refl)

-- A header that was read fits, and what was read is what is written for it.
pub Takes-read_block_header :
    Takes read_block_header (λ h bs. IsHeader h × (write_block_header h ≡ done bs))
unfolding read_block_header write_block_header
Takes-read_block_header =
    Takes-bind (Takes-elements header_kinds (tt, (tt, (tt, (tt, (tt, (tt, tt)))))))
      λ vs bs i q. Takes-pure (q.0, rw append-nil q.1)

-- A header takes 80 bytes.
pub Writes-block_header :
    (h : BlockHeader) → IsHeader h → Writes (write_block_header h) block_header_len
unfolding write_block_header sum_of
Writes-block_header h p = Writes-elements header_kinds (header_values h) p

-- If a header is read from an input of bytes, shorter than 2 ^ 63, then the input begins with what is
-- written for the header, 80 bytes, followed by what is left.
pub write_block_header-read_block_header :
    (s : List ℕ) (h : BlockHeader) (rest : List ℕ)
    → IsInput s
    → read_block_header s ≡ ok h rest
    → (s ≡ written (write_block_header h) ++ rest)
      × (length (written (write_block_header h)) ≡ block_header_len)
unfolding written
write_block_header-read_block_header s h rest i e =
    let (bs, es, q) = Takes-read_block_header.at s h rest i e in
    (rw q.1 es, length-written (Writes-block_header h q.0))
