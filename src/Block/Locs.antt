-- ===== src/Block/Locs.antt =====
-- DeserializeTxLoc gives the places of the transactions in the input.
use go_wire.Prelude.{
  drop-append, suc, ◌++◌, ◌+◌, take, ◌∷◌, take-append, All, map, drop, [], ◌-◌, ℕ, List, ◌≡◌,
  length, length-append, zero, arith, subst, append_assoc, sym, ap, refl, ◌∙◌, ◌≤◌, ltb→le,
}
use go_wire.Block.{
  position, read_with_locs, TxLoc, block_bsv_encode, IsBlock, deserialize_tx_loc, MsgBlock,
  deserialize_after,
}
use go_wire.BlockHeader.{BlockHeader, read_block_header, IsHeader, write_block_header}
use go_wire.BlockHeader.Transfer.{Takes-read_block_header}
use go_wire.Io.{IsInput, done, written, write_each, ok, err, Outcome}
use go_wire.Io.Takes.{>>=-eq-ok, IsInput-rest, refuse_if-eq-ok}
use go_wire.Limits.{max_tx_per_block}
use go_wire.Tx.Data.{MsgTx, IsTx}
use go_wire.Tx.Decode.{tx_bsv_decode}
use go_wire.Tx.Encode.{tx_bsv_encode}
use go_wire.Tx.Transfer.{Takes-tx_bsv_decode}
use go_wire.VarInt.{write_var_int, read_var_int}
use go_wire.VarInt.Transfer.{Takes-read_var_int}

-- At each location the input has the encoding of the transaction, and there is a location for each.
abbrev pub AtTxLocs : List ℕ → List TxLoc → List MsgTx → Type 0
AtTxLocs input [] [] = Unit {0}
AtTxLocs input (loc ∷ locs) (tx ∷ txs) =
    (take loc.tx_len (drop loc.tx_start input) ≡ written (tx_bsv_encode tx))
    × AtTxLocs input locs txs
AtTxLocs input locs txs = ⊥

-- What the loop gives when it starts behind `pre`.
pub record Located (ebs : ℕ) (pre s : List ℕ) (n : ℕ) (found : List (MsgTx × TxLoc)) (rest : List ℕ)
    : Type 0 where
  pub body : List ℕ
  pub input : s ≡ body ++ rest
  pub count : length (map (λ (p : MsgTx × TxLoc). p.0) found) ≡ n
  pub valid : All (IsTx ebs) (map (λ (p : MsgTx × TxLoc). p.0) found)
  pub encoded : write_each tx_bsv_encode (map (λ (p : MsgTx × TxLoc). p.0) found) ≡ done body
  pub places :
      AtTxLocs
        (pre ++ s)
        (map (λ (p : MsgTx × TxLoc). p.1) found)
        (map (λ (p : MsgTx × TxLoc). p.0) found)

-- the one transaction `bs` between what stands before and after it
at_place :
    (pre bs mid : List ℕ) (full : ℕ)
    → full ≡ length pre + length (bs ++ mid)
    → take
        ((full - length mid) - (full - length (bs ++ mid)))
        (drop (full - length (bs ++ mid)) (pre ++ (bs ++ mid)))
      ≡ bs
at_place pre bs mid full e =
    let n = length-append bs mid in
    let start : full - length (bs ++ mid) ≡ length pre = omega (arith, e) in
    let len : (full - length mid) - length pre ≡ length bs = omega (arith, e, n) in
    rw (start, len, drop-append pre (bs ++ mid)) (take-append bs mid)

moved :
    (ebs n : ℕ) (pre s : List ℕ) {a found : List (MsgTx × TxLoc)} {r rest : List ℕ}
    → ok a r ≡ ok found rest
    → Located ebs pre s n a r
    → Located ebs pre s n found rest
moved ebs n pre s {a = a} {found = found} {r = r} {rest = rest} e h =
    subst (λ f. Located ebs pre s n f rest) (cc) (subst (λ t. Located ebs pre s n a t) (cc) h)

-- the location that the loop computes for a transaction before which `s` is left, and after it `mid`
abbrev loc_between : ℕ → List ℕ → List ℕ → TxLoc
loc_between full s mid = record {
  tx_start = full - length s;
  tx_len = full - length mid - (full - length s);
}

one_more :
    (ebs full n : ℕ) (pre bs mid : List ℕ) (tx : MsgTx) (more : List (MsgTx × TxLoc))
    (rest : List ℕ)
    → full ≡ length pre + length (bs ++ mid)
    → IsTx ebs tx
    → tx_bsv_encode tx ≡ done bs
    → Located ebs (pre ++ bs) mid n more rest
    → Located ebs pre (bs ++ mid) (suc n) ((tx, loc_between full (bs ++ mid) mid) ∷ more) rest
unfolding written write_each
one_more ebs full n pre bs mid tx more rest l v e h = record {
  body = bs ++ h.body;
  input = rw (append_assoc, ← h.input);
  count = ap suc h.count;
  valid = (v, h.valid);
  encoded = rw (e, h.encoded);
  places = (rw e (at_place pre bs mid full l), rw (append_assoc pre bs mid) at h.places);
}

located :
    (ebs full n : ℕ) (pre s : List ℕ) (found : List (MsgTx × TxLoc)) (rest : List ℕ)
    → IsInput s
    → full ≡ length pre + length s
    → read_with_locs ebs full n s ≡ ok found rest
    → Located ebs pre s n found rest
unfolding read_with_locs position write_each
located ebs full zero pre s found rest i l e =
    moved ebs 0 pre s e
      (record { body = []; input = refl; count = refl; valid = tt; encoded = refl; places = tt })
located ebs full (suc n) pre s found rest i l e =
    let (tx, mid, etx, later) = >>=-eq-ok (tx_bsv_decode ebs s) _ e in
    let (bs, es, q) = (Takes-tx_bsv_decode ebs).at s tx mid i etx in
    let i' : IsInput (bs ++ mid) = rw es at i in
    let (more, rest', eloop, last) = >>=-eq-ok (read_with_locs ebs full n mid) _ later in
    let here : full ≡ length pre + length (bs ++ mid) = omega (arith, l, ap length es) in
    let behind : full ≡ length (pre ++ bs) + length mid =
      omega (arith, here, length-append pre bs, length-append bs mid) in
    let h = located ebs full n (pre ++ bs) mid more rest' (IsInput-rest bs mid i') behind eloop in
    moved ebs (suc n) pre s last (
      subst (λ x. Located ebs pre x (suc n) ((tx, loc_between full x mid) ∷ more) rest') (sym es)
        (one_more ebs full n pre bs mid tx more rest' here q.0 q.1 h))

-- What DeserializeTxLoc returns for a buffer that holds `s`.
pub record Deserialized (ebs : ℕ) (s : List ℕ) (msg : MsgBlock) (locs : List TxLoc) (rest : List ℕ)
    : Type 0 where
  pub input : s ≡ written (block_bsv_encode msg) ++ rest
  pub valid : IsBlock ebs msg
  pub places : AtTxLocs s locs msg.transactions

abbrev Returned : ℕ → List ℕ → Outcome (MsgBlock × List TxLoc) → Type 0
Returned ebs s (ok (msg, locs) rest) = Deserialized ebs s msg locs rest
Returned ebs s (err e rest) = Unit {0}

assembled :
    (ebs : ℕ) (header : BlockHeader) (b0 b1 mid rest : List ℕ) (n : ℕ)
    (found : List (MsgTx × TxLoc))
    → IsHeader header × (write_block_header header ≡ done b0)
    → write_var_int n ≡ done b1
    → n ≤ max_tx_per_block ebs
    → Located ebs (b0 ++ b1) mid n found rest
    → Deserialized ebs
        (b0 ++ (b1 ++ mid))
        (record { header = header; transactions = map (λ p. p.0) found })
        (map (λ p. p.1) found)
        rest
unfolding block_bsv_encode written
assembled ebs header b0 b1 mid rest n found h c few l = record {
  input = rw (l.count, h.1, c, l.encoded, append_assoc, append_assoc, ← l.input);
  valid = record { header = h.0; few = omega (arith, few, l.count); transactions = l.valid };
  places = rw (append_assoc b0 b1 mid) at l.places;
}

-- If DeserializeTxLoc succeeds on an input of bytes, shorter than 2 ^ 63, then the input begins with
-- the encoding of the block that it stores, the block is within the decoder's bounds, and there is
-- one location for each transaction, at which the input has the encoding of that transaction.
pub deserialize_tx_loc-AtTxLocs :
    (ebs : ℕ) (s : List ℕ) (msg : MsgBlock) (locs : List TxLoc) (rest : List ℕ)
    → IsInput s
    → deserialize_tx_loc ebs s ≡ ok (msg, locs) rest
    → Deserialized ebs s msg locs rest
unfolding deserialize_tx_loc deserialize_after
deserialize_tx_loc-AtTxLocs ebs s msg locs rest i e =
    let (header, s1, eh, after_header) = >>=-eq-ok (read_block_header s) _ e in
    let (b0, es, h) = Takes-read_block_header.at s header s1 i eh in
    let i1 = IsInput-rest b0 s1 (rw es at i) in
    let (n, s2, en, after_count) = >>=-eq-ok (read_var_int s1) _ after_header in
    let (b1, es1, c) = Takes-read_var_int.at s1 n s2 i1 en in
    let i2 = IsInput-rest b1 s2 (rw es1 at i1) in
    let (few, looping) = refuse_if-eq-ok _ _ _ s2 after_count in
    let (found, rest', el, last) = >>=-eq-ok (read_with_locs ebs (length s) n s2) _ looping in
    let whole : s ≡ b0 ++ (b1 ++ s2) = es ∙ ap (λ l. b0 ++ l) es1 in
    let l =
      located ebs (length s) n (b0 ++ b1) s2 found rest' i2
        (omega (
          arith,
          ap length whole,
          length-append b0 (b1 ++ s2),
          length-append b1 s2,
          length-append b0 b1,
        ))
        el in
    let place =
      assembled ebs header b0 b1 s2 rest' n found h c.1 (ltb→le (max_tx_per_block ebs) n few) l in
    subst (Returned ebs s) last (
      subst
        (λ x.
          Deserialized ebs x (record { header = header; transactions = map (λ p. p.0) found })
            (map (λ p. p.1) found) rest')
        (sym whole) place)
