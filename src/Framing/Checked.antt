-- ===== src/Framing/Checked.antt =====
-- What ReadMessage has checked when it returns a message.
use go_wire.Prelude.{
  if◌then◌else◌, ◌≡◌, ◌==◌, ◌&&◌, List, false, ℕ, true, not, none, some, ap, refl, Bool, Option,
  ◌∙◌, sym, ◌++◌, subst, length, take,
}
use go_wire.Framing.Receive.{
  refuse, skip, read_error, outcome_of, too_large, received, Result, accept, check_type, failed,
  inspect, Verdict, Handlers, decoded, Reply, payload_length, buffered_payload, act,
  check_and_decode, after_header, handle, has_checksum, read_message_n, read_message, take_buffered,
}
use go_wire.Framing.Utf8.{valid_string}
use go_wire.Io.{ok, Outcome, IsInput, err, read_full}
use go_wire.Io.Takes.{Takes-read_full, IsInput-rest, >>=-eq-ok}
use go_wire.Limits.{max_message_payload}
use go_wire.Message.{max_payload_length, make_empty_message}
use go_wire.Message.Coding.{Packages, bsv_decode}
use go_wire.Message.Commands.{cmd_version}
use go_wire.Message.Types.{MessageType, Message, Payload}
use go_wire.MessageHeader.{MessageHeader, same_bytes, message_header_size, read_message_header}

module _ {ℓ} {A : Type ℓ} where
  if-not-eq :
      (b : Bool) {x y z : A} → ((x ≡ z) → ⊥) → (if b then x else y) ≡ z → (b ≡ false) × (y ≡ z)
  if-not-eq true n e = absurd (n e)
  if-not-eq false n e = (refl, e)

-- The header's checks that passed.
pub record Accepted (ebs pver bsvnet : ℕ) (hdr : MessageHeader) (t : MessageType) : Type 0 where
  pub limit : too_large (max_message_payload ebs) hdr ≡ false
  pub magic : not (hdr.magic == bsvnet) ≡ false
  pub valid : not (valid_string hdr.command) ≡ false
  pub known : make_empty_message hdr.command ≡ some t
  pub type_limit : too_large (max_payload_length ebs pver t) hdr ≡ false

check_type-eq-accept :
    (ebs pver : ℕ) (hdr : MessageHeader) (o : Option MessageType) (t : MessageType)
    → check_type ebs pver hdr o ≡ accept t
    → (o ≡ some t) × (too_large (max_payload_length ebs pver t) hdr ≡ false)
unfolding check_type
check_type-eq-accept ebs pver hdr none t e = cc
check_type-eq-accept ebs pver hdr (some u) t e =
    let (fits, same) =
      if-not-eq (too_large (max_payload_length ebs pver u) hdr)
        (λ (p : skip read_error ≡ accept t). cc) e in
    let d : u ≡ t = cc in (ap some d, rw d at fits)

inspect-eq-accept :
    (streaming : Bool) (ebs pver bsvnet : ℕ) (hdr : MessageHeader) (t : MessageType)
    → inspect streaming ebs pver bsvnet hdr ≡ accept t
    → Accepted ebs pver bsvnet hdr t
unfolding inspect
inspect-eq-accept streaming ebs pver bsvnet hdr t e =
    let (a, e1) =
      if-not-eq (too_large (max_message_payload ebs) hdr) (λ (p : refuse read_error ≡ accept t). cc)
        e in
    let (b, e2) =
      if-not-eq (not (hdr.magic == bsvnet)) (λ (p : skip read_error ≡ accept t). cc) e1 in
    let (c, e3) =
      if-not-eq (not (valid_string hdr.command)) (λ (p : skip read_error ≡ accept t). cc) e2 in
    let (d, e4) =
      if-not-eq (streaming && same_bytes hdr.command cmd_version)
        (λ (p : skip read_error ≡ accept t). cc) e3 in
    let (k, f) = check_type-eq-accept ebs pver hdr _ t e4 in
    record { limit = a; magic = b; valid = c; known = k; type_limit = f }

outcome_of-eq-ok :
    (r : Result) (left : List ℕ) (msg : Message) (payload rest : List ℕ)
    → outcome_of r left ≡ ok (msg, payload) rest
    → (r ≡ received msg payload) × (left ≡ rest)
unfolding outcome_of
outcome_of-eq-ok (failed e) left msg payload rest h = cc
outcome_of-eq-ok (received m p) left msg payload rest h = (cc, cc)

after_header-eq-ok :
    (available : ℕ) (k : MessageHeader → List ℕ → Reply) (o : Outcome MessageHeader) (msg : Message)
    (payload : List ℕ)
    → (after_header available k o).result ≡ received msg payload
    → (hdr : MessageHeader) × (mid : List ℕ) × (o ≡ ok hdr mid)
      × (after_header available k o ≡ k hdr mid)
unfolding after_header
after_header-eq-ok available k (ok hdr mid) msg payload e = (hdr, mid, refl, refl)
after_header-eq-ok available k (err x mid) msg payload e = cc

act-eq-received :
    (get : MessageType → ℕ → List ℕ → Reply) (handlers : Handlers) (hdr : MessageHeader) (n : ℕ)
    (s : List ℕ) (v : Verdict) (msg : Message) (payload : List ℕ)
    → handlers hdr.command ≡ none
    → (act get handlers hdr n s v).result ≡ received msg payload
    → (t : MessageType) × (v ≡ accept t) × (act get handlers hdr n s v ≡ get t n s)
unfolding act handle
act-eq-received get handlers hdr n s (refuse x) msg payload h e = cc
act-eq-received get handlers hdr n s (skip x) msg payload h e = cc
act-eq-received get handlers hdr n s (accept t) msg payload h e = (t, refl, rw h refl)

-- Of a message that was received: the type that was looked up, and what its decoder made of the
-- payload.
abbrev pub DecodesTo : Packages → ℕ → ℕ → MessageType → List ℕ → Message → Type 0
DecodesTo lib ebs pver t payload msg =
    (t ≡ msg.type_of)
    × ((left : List ℕ) × (bsv_decode lib ebs pver msg.type_of payload ≡ ok msg.payload left))

decoded-eq-received :
    (lib : Packages) (ebs pver : ℕ) (t : MessageType) (p payload : List ℕ) (msg : Message)
    (o : Outcome (Payload t))
    → bsv_decode lib ebs pver t p ≡ o
    → decoded t p o ≡ received msg payload
    → (p ≡ payload) × DecodesTo lib ebs pver t p msg
unfolding decoded
decoded-eq-received lib ebs pver t p payload msg (err x left) d e = cc
decoded-eq-received lib ebs pver t p payload msg (ok m left) d e =
    let own : Message = record { type_of = t; payload = m } in
    let same : own ≡ msg = cc in
    (cc, subst (λ k. DecodesTo lib ebs pver t p k) same (refl, (left, d)))

-- the payload of a message that was received, by its header
pub record Payloaded (lib : Packages) (ebs pver : ℕ) (hdr : MessageHeader) (t : MessageType)
    (payload : List ℕ) (msg : Message) : Type 0 where
  pub size : length payload ≡ payload_length hdr
  pub checksum :
      (has_checksum hdr && not (same_bytes (take 4 (lib.double_hash_b payload)) hdr.checksum))
      ≡ false
  pub decodes : DecodesTo lib ebs pver t payload msg

buffered-eq-received :
    (lib : Packages) (ebs pver : ℕ) (hdr : MessageHeader) (t : MessageType) (n available : ℕ)
    (s : List ℕ) (msg : Message) (payload : List ℕ) (o : Outcome (List ℕ))
    → IsInput s
    → read_full (payload_length hdr) s ≡ o
    → (buffered_payload lib ebs pver hdr t n available o).result ≡ received msg payload
    → (s ≡ payload ++ (buffered_payload lib ebs pver hdr t n available o).rest)
      × Payloaded lib ebs pver hdr t payload msg
unfolding buffered_payload check_and_decode
buffered-eq-received lib ebs pver hdr t n available s msg payload (err x left) i r e = cc
buffered-eq-received lib ebs pver hdr t n available s msg payload (ok p left) i r e =
    let (good, d) =
      if-not-eq (has_checksum hdr && not (same_bytes (take 4 (lib.double_hash_b p)) hdr.checksum))
        (λ (q : failed read_error ≡ received msg payload). cc) e in
    let (same, decodes) = decoded-eq-received lib ebs pver t p payload msg _ refl d in
    let (bs, es, q) = (Takes-read_full (payload_length hdr)).at s p left i r in
    let whole : s ≡ p ++ left = es ∙ ap (λ l. l ++ left) (sym q.0) in
    rw (← same) (whole, record { size = ap length q.0 ∙ q.1; checksum = good; decodes = decodes })

header-IsInput :
    (s : List ℕ) (hdr : MessageHeader) (mid : List ℕ)
    → IsInput s
    → read_message_header s ≡ ok hdr mid
    → IsInput mid
unfolding read_message_header
header-IsInput s hdr mid i e =
    let (bs, left, er, last) = >>=-eq-ok (read_full 24 s) _ e in
    let (cs, es, q) = (Takes-read_full 24).at s bs left i er in
    let same : left ≡ mid = cc in subst IsInput same (IsInput-rest cs left (rw es at i))

-- If ReadMessage returns a message on an input of bytes, shorter than 2 ^ 63, where no handler is
-- registered, then the stream begins with a header of the network that was asked for, with a valid
-- command of the message's own type and lengths within both limits; behind the header stand the payload
-- that is returned, of the length that the header declares and with its checksum, and then what is
-- left; and the payload decodes to the message.
pub read_message-checked :
    (lib : Packages) (ebs pver bsvnet : ℕ) (handlers : Handlers)
    → ((c : List ℕ) → handlers c ≡ none)
    → (s : List ℕ) (msg : Message) (payload rest : List ℕ) → IsInput s
    → read_message lib ebs pver bsvnet handlers s ≡ ok (msg, payload) rest
    → (hdr : MessageHeader) × (read_message_header s ≡ ok hdr (payload ++ rest))
      × Accepted ebs pver bsvnet hdr msg.type_of
      × Payloaded lib ebs pver hdr msg.type_of payload msg
unfolding read_message read_message_n take_buffered
read_message-checked lib ebs pver bsvnet handlers none_for s msg payload rest i e =
    let (r, l) = outcome_of-eq-ok _ _ msg payload rest e in
    let (hdr, mid, eh, ek) =
      after_header-eq-ok (length s) _ (read_message_header s) msg payload r in
    let r' = ap (λ q. q.result) (sym ek) ∙ r in
    let (t, ev, ea) =
      act-eq-received _ handlers hdr message_header_size mid _ msg payload (none_for hdr.command)
        r' in
    let own = ek ∙ ea in
    let (em, p) =
      buffered-eq-received lib ebs pver hdr t message_header_size (length mid) mid msg payload _
        (header-IsInput s hdr mid i eh) refl (ap (λ q. q.result) (sym own) ∙ r) in
    let left = ap (λ q. q.rest) (sym own) ∙ l in
    let types = p.decodes.0 in
    let behind : mid ≡ payload ++ rest = em ∙ ap (λ m. payload ++ m) left in
    (
      hdr,
      eh ∙ ap (λ m. ok hdr m) behind,
      subst (λ u. Accepted ebs pver bsvnet hdr u) types
          (inspect-eq-accept false ebs pver bsvnet hdr t ev),
      subst (λ u. Payloaded lib ebs pver hdr u payload msg) types p,
    )
