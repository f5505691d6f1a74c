-- ===== src/Lib.antt =====
-- The Bitcoin wire protocol of package wire: its primitive encodings, transactions, blocks, all
-- messages, and the framing that sends a message behind its header and receives it.
--
-- A stream is the list of the bytes that are left of it. A function of the package that reads from
-- an io.Reader is a `Read A` (Io.antt): from a stream it returns a value and what is left, or an
-- error and what is left. A function that writes to an io.Writer is a `Put`: the bytes written, with
-- the error if there is one; the writer itself is a bytes.Buffer, which does not fail. The two errors
-- of io.ReadFull are told apart, and a MessageError is known by the function that it names; its
-- description is not modelled.
--
-- The parts, and the files that model them:
--   * common.go: Binary (integers of 1 to 8 bytes in both byte orders), VarInt (ReadVarInt,
--     WriteVarInt, VarIntSerializeSize), VarBytes (ReadVarString, ReadVarBytes and their writers, with
--     readScript of msg_tx.go), Element (readElement and writeElement over a data type of the types
--     that their switches name, readElements and writeElements).
--   * message.go: Limits has the excessive block size, which SetLimits sets for the package; every
--     definition that reads it takes it as the argument `ebs`. MessageHeader has readMessageHeader,
--     which drops the error of its two inner reads, and the header that WriteMessageWithEncodingN
--     writes. Message has the Message interface: Message/Types a data type of the types that
--     implement it, with what a value of each holds, Message/Coding their Bsvdecode and BsvEncode,
--     Message itself Command, MaxPayloadLength and makeEmptyMessage, Message/New the constructors,
--     Message/Bounds the lengths of encodings against MaxPayloadLength, and Message/Unread the types
--     whose decoders do not read what their encoders write. Framing/Write has
--     WriteMessageWithEncodingN, Framing/Receive both readers, ReadMessageWithEncodingN and
--     ReadMessageStreamingN, with the handlers of SetExternalHandler as functions, Framing/Discard
--     discardInput, and Framing/Utf8 the test of a command for valid UTF-8. What a reader returns is a
--     Reply: the number of bytes read, the message or the error, and what is left of the stream.
--   * block_header.go: BlockHeader.
--   * block_arena.go: Arena. A slice is the place that it occupies in a chunk, and a chunk is known
--     by its number, so that two slices overlap if they meet in the same chunk.
--   * msg_tx.go: Tx/Data has the types, Tx/Decode the decoder with the script pool, whose last step,
--     the copying of all scripts into one buffer, is Tx/Scripts; Tx/ArenaDecode has the decoder that
--     a block uses, and Tx/Encode the encoder, the sizes and the locations of scripts. Tx/Copy has
--     Copy. ScriptPool has the free list of script buffers as a state machine: Borrow and Return
--     are the steps of the callers on one channel.
--   * msg_block.go: Block, with both decoders and the encoder.
--   * invvect.go, msg_inv.go, msg_get_data.go, msg_not_found.go: Inventory; msg_get_blocks.go and
--     msg_get_headers.go: Locator; msg_headers.go: Headers. Their lists behind a count, with the
--     bounded Add methods that the decoders call, are in Counted.
--   * msg_ping.go, msg_pong.go, msg_fee_filter.go: Ping; msg_filter_add.go, msg_filter_load.go,
--     msg_merkle_block.go: FilterMessages; msg_get_cfilters.go, msg_get_cfheaders.go,
--     msg_get_cfcheckpoint.go, msg_cfilter.go, msg_cf_headers.go, msg_cfcheckpoint.go: CompactFilters;
--     msg_stream_ack.go, msg_create_stream.go, stream_type.go, msg_send_cmpct.go: Streams.
--
--   * msg_extended_tx.go: ExtendedTx, which shares the copying of scripts with Tx/Scripts.
--   * HasService and AddService of msg_version.go and net_address.go, with the operators & and | on
--     the bits of a ServiceFlag of protocol.go: Services.
--   * net_address.go and msg_addr.go: NetAddress; msg_version.go: Version, whose decoder reads a
--     buffer to its end; msg_reject.go: Reject; msg_proto_conf.go: Protoconf; msg_auth_ch.go and
--     msg_auth_resp.go: Auth; msg_verack.go, msg_get_addr.go, msg_mempool.go, msg_filter_clear.go,
--     msg_send_headers.go and msg_ext_msg.go: Empty.
--
-- What other packages give is an argument, the record Packages of Message/Coding: net.IP.To16, the
-- variable length integers of go-bt, chainhash.DoubleHashB and SHA-256. The record ArePackages of
-- Message/Valid says what the code relies on of them.
--
-- How the proofs are built: Io/Reads has one rule for each way to build a reader that reads back what
-- a writer wrote, Io/Takes one for what a reader consumed when it succeeds, Io/Writes one for the
-- length of what is written, and Io/Agrees one for two readers that agree; Version/ToEnd has those of a
-- decoder that reads a buffer to its end. A part's Transfer file
-- applies them; Io/Codec has both directions as one record.
--
-- Numbers are natural numbers with the wrap-around of their Go types written out: a signed integer
-- is its two's complement bit pattern, a time its Unix seconds, a hash its 32 bytes. Loops over a
-- count are recursions on the count, so no fuel is used. Nil and empty slices are one. A receiver is
-- a new message. The slices of Tx/Scripts are total: where the offset wraps around, Go panics, and
-- the theorems exclude that by their bound on the length of the scripts.
--
-- Not modelled: the free list of 8-byte buffers of common.go, and the contents of pooled buffers, which
-- a decoder overwrites before it reads them; the aliasing of slices, so that Copy is its value; hash
-- functions, which are arguments; a writer or a stream that fails or blocks;
-- the capacity that a constructor reserves; constructors that read the clock; and printing.
pub mod Prelude
pub mod Io
pub mod Binary
pub mod VarInt
pub mod Element
pub mod Limits
pub mod BlockHeader
pub mod Arena
pub mod Tx
pub mod ScriptPool
pub mod Block
pub mod VarBytes
pub mod Counted
pub mod NetAddress
pub mod Version
pub mod Services
pub mod Empty
pub mod ExtendedTx
pub mod Reject
pub mod Auth
pub mod Protoconf
pub mod Inventory
pub mod Locator
pub mod Headers
pub mod Ping
pub mod FilterMessages
pub mod CompactFilters
pub mod Streams
pub mod MessageHeader
pub mod Message
pub mod Framing
mod Examples
