-- ===== src/Lib.antt =====
-- Nanopb, the Protocol Buffers codec in C that the application carries under
-- ios-game/Pods/nanopb, and that is all of its C code but a test of leveldb. The application itself is
-- Swift, and the other pods are C++, Objective-C and binaries; none of them is modelled.
--
-- The parts, from the bottom up:
--   * Stream: `pb_istream_t` and `pb_ostream_t` (pb_decode.h, pb_encode.h), with pb_read, pb_readbyte,
--     pb_write and the callbacks for memory buffers. A function of the source that takes a stream is a
--     `Cmd`, from the stream to a `Run`: `ok` for `true`, `err` for `false`, each with the stream as it is
--     left, `fault` for undefined behaviour (beyond an array, or through NULL) and `stuck` where fuel is
--     used up. `pb_read` with a NULL buffer is `pb_read_null`. A custom callback is a function on the
--     members of the stream. Stream/Writes and Stream/Reads are the contracts of encoders and of
--     decoders, Stream/Safe that of decoders on arbitrary bytes.
--   * Wire: the functions of pb_encode.c and pb_decode.c for one item of the wire format. Numbers are bit
--     patterns; shifts and complements keep their modulus written out.
--   * Message: field descriptors (pb.h), the field iterator (pb_common.c), and the encoder of messages
--     (pb_encode.c) on a memory of bytes by address. Tables of fields are lists without their terminator,
--     found by their address in `Env`, which holds the callbacks of the application too. Message/Encode/Contract
--     is about fields, arrays and submessages whatever the encoders of their items are. Message/Decode has
--     the decoder of messages (pb_decode.c), which works on a `Machine`, a stream and the memory, with
--     the tables and the functions of the application in `DecodeEnv`. Message/Decode/Layout describes where the
--     fields of a table stand in a region of memory, Message/Decode/Within is the contract of decoders on
--     arbitrary bytes with such a region, and Message/Decode/Required the set that the bitmap of required
--     fields stands for. Message/Decode/Trip follows a message from the encoder to the decoder: Plan has
--     the format of a message and the structures that are taken, Walk and Count the iterators by their
--     position, Takes the contract of a decoder for what its encoder writes, Numbers, Arrays, Strings and
--     Nested its instances, Entry and Place an entry of a table, Rounds, Loop, Feed and Whole the loop over
--     the fields, Unknown fields that the table does not have, Defaults the values that pb_decode begins
--     with, Final whole messages, Size their length, and Extended those of a later version of the table.
--   * Tests: concrete messages.
--
-- The build is that of ios-game/Pods/Target Support Files/nanopb: PB_FIELD_32BIT and
-- PB_NO_PACKED_STRUCTS, with error messages and custom streams, without PB_ENABLE_MALLOC. A `size_t` and
-- a pointer have 64 bits, the lowest byte first.
--
-- Loops over bytes and fields take fuel: 11 rounds for varints of 64 bits and 6 behind the first byte for
-- those of 32 bits, more than `bytes_left` for skipping, packed arrays, the fields of a message and the rounds
-- of a callback, and more than the entries of a table for iterators.
-- Message depth is fuel as well, since the source recurses as deep as tables nest; the results about
-- messages include that none of it is used up, for tables that nest less deep. Lists of extensions take the
-- same fuel; tables with extensions have definitions, and no results.
--
-- Streams of an encoder are below 2 ^ 64 bytes, and so are the messages that the results are about, since a
-- sizing stream counts modulo 2 ^ 64. The loop of pb_field_iter_find gives up where its fuel is used up, which it is
-- not from a position within the table.
--
-- A custom callback that fails is taken to have stored nothing that matters.
--
-- Not modelled: dynamic allocation, which the build leaves out; the application and its other pods.
pub mod Common
pub mod Stream
pub mod Wire
pub mod Message
pub mod Tests
