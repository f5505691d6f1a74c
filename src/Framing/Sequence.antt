-- ===== src/Framing/Sequence.antt =====
-- Messages one after the other on one stream.
use go_wire.Prelude.{none, List, ◌≡◌, length, ℕ, All}
use go_wire.Framing.Receive.{read_message, Handlers}
use go_wire.Framing.Sent.{IsSendable, read_message-write_message}
use go_wire.Framing.Write.{write_message}
use go_wire.Io.{read_times, write_each}
use go_wire.Io.Reads.{RoundTrips, RoundTrips-each}
use go_wire.Message.{command_of}
use go_wire.Message.Coding.{Packages}
use go_wire.Message.Types.{Message}
use go_wire.Message.Valid.{ArePackages}

-- Messages that can be sent, each with its payload, are written one after the other without an error;
-- and on what is written, followed by anything, as many calls of ReadMessage return them, with their
-- payloads and in their order, and leave what follows, where no handler is registered for a command.
pub read_messages-write_messages :
    (lib : Packages)
    → ArePackages lib
    → (ebs pver bsvnet : ℕ) (handlers : Handlers) → ((c : List ℕ) → handlers c ≡ none)
    → (sent : List (Message × List ℕ)) → All (λ m. IsSendable lib ebs pver bsvnet m.0 m.1) sent
    → RoundTrips
        (write_each (λ m. write_message lib ebs pver bsvnet m.0) sent)
        (read_times (length sent) (read_message lib ebs pver bsvnet handlers))
        sent
read_messages-write_messages lib laws ebs pver bsvnet handlers none_for sent h =
    RoundTrips-each (λ m. IsSendable lib ebs pver bsvnet m.0 m.1) _ _
      (λ m p.
        read_message-write_message lib laws ebs pver bsvnet m.0 m.1 p handlers
          (none_for (command_of m.0.type_of)))
      sent h
