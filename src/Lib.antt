-- ===== src/Lib.antt =====
-- Capsaicin is a SPICE remote-desktop client and server in Rust. The crates under crates/ build on
-- each other: capsaicin-proto encodes and decodes the wire messages, capsaicin-net frames them over
-- a connection and drives the link handshake, capsaicin-lz, capsaicin-glz and capsaicin-quic decode
-- the images of the display channel, and capsaicin-client, capsaicin-server, capsaicin-wasm and
-- capsaicin-cli assemble these into programs.
--
-- Files and the code that they model:
--   Base            shared names, Boolean tests, lists, bytes of integers, slices, and `Outcome`:
--                   a Rust call gives a value, an error or a panic. `stuck` stands for a loop of
--                   the model whose fuel is used up.
--   Proto/Reader    `Reader` and `Writer`, crates/capsaicin-proto/src/types.rs
--   Proto/Types     `Point`, `Rect`, `ChannelId`, same file
--   Proto/Common, Proto/Display, Proto/Inputs, Proto/MainChan
--                   the messages of common.rs, display.rs, inputs.rs, main_chan.rs
--                   in crates/capsaicin-proto/src: records with `decode_x` and `encode_x`;
--                   Proto/Common/Ping, Proto/Display/Monitors and Proto/MainChan/Channels hold
--                   the ones of variable size
--   Proto/Enums     enums.rs and limits.rs of the same crate
--   Proto/Caps      caps.rs: the sets of capabilities
--   Proto/Header    header.rs: the full and the mini header of a message
--   Proto/Link      link.rs: the handshake's header, message, reply and result
--   Net             crates/capsaicin-net/src/error.rs, and the stream as a parameter
--   Net/Channel     crates/capsaicin-net/src/channel.rs: reading and writing framed messages
--   Net/Handshake   `link_client` of crates/capsaicin-net/src/link.rs, `encrypt_ticket` of auth.rs
--   Net/Handshake/Server
--                   `link_server` of crates/capsaicin-net/src/server.rs
--   Lz              crates/capsaicin-lz/src/lib.rs: errors, caps and image types
--   Lz/Header       `LzHeader`
--   Lz/Pass         `decompress_pass`, the loop shared by the colour and the alpha pass
--   Lz/Decompress   `decompress_rgb32`, `decompress_rgba`
--   Glz             crates/capsaicin-glz/src/lib.rs: errors and caps
--   Glz/Header      `GlzHeader`
--   Glz/Window      `GlzWindow`, the images that later ones refer to
--   Glz/Decode      `decompress_rgb32` and `decompress_rgb32_intra`
--   Quic            crates/capsaicin-quic/src/lib.rs: errors, caps and image types
--   Quic/Header     `QuicHeader`
--   Quic/Words      machine words and tables
--   Quic/Stream     `BitReader` and `BitWriter`
--   Quic/Family     `Family`, the Golomb-Rice codes
--   Quic/State      `CommonState`, `tabrand`; Quic/State/Runs has the code of run lengths
--   Quic/Model      `Bucket`, `ChannelDecoder` and the update of the model
--   Quic/Segment    the loops over a row, its segments and their pixels. The source has one copy
--                   for the encoder and one for each decoder; here they take the record `Steps`
--                   of what is done at a pixel and at a run
--   Quic/Plane      a byte of a pixel in one channel, coded and decoded
--   Quic/Rgb32      the steps of RGB32 images, and in Quic/Rgb32/Image `compress_rgb32` and
--                   `decompress_rgb32`
--   Quic/Single     one channel: `decompress_gray`, and the alpha bytes of `decompress_rgba`
--   Quic/Rgb16      `decompress_rgb16`
--   Quic/Returns    the decoders' loops come to an end, and the rows keep their lengths
--   Tests           runs of the models, and the theorems at concrete inputs
-- Below a component, Wire states the bytes of messages, RoundTrip reads back what was written,
-- Sizes, Safety and Reads say what happens on every input, and the rest is named for its subject.
--
-- State is passed along: a method on `&mut self` takes the record and gives it back, and a decoder's
-- `ip`, `op` and buffer are arguments and results of its loop. A byte or a word is a natural number,
-- and each wrap-around is written out; `usize` has 64 bits. A `u8`, `u16`, `u32` or `u64` field that
-- a theorem needs within its width has a hypothesis that says so.
--
-- Fuel: each round of the two image loops takes an input byte, so they get one more than the input
-- is long; a long length takes a byte in each round, with the same bound; the eviction loop drops an
-- image in each round, so it gets as many as there are images. In the QUIC codec, a round of the run
-- decoder but the last takes 8 bits, and the reader refuses to go more than a word past the end, so the
-- stream's length and 6 more are enough; the run encoder takes at least 1 from the run in each round;
-- a round of the segment loop moves on by a pixel, or is an empty run that a pixel follows, so twice
-- the segment's length and 2 are enough; a row has at most 7 wait masks. `u32` additions that Rust
-- checks in a debug build are panics in the QUIC model, and so are indices out of range.
--
-- Parameters: the socket under a channel (`StreamOps`), with the documented behaviour of
-- `read_exact` and `write_all` on an open connection as hypotheses (`IsOpen`); and the crate rsa
-- (`RsaOps` for a public key, `RsaKeyOps` for the private one).
--
-- Not modelled: the messages of drawing, streams, cursors and images, the bootstrap of the main
-- channel, TLS, the client's display and input state machines, the server's loops, and the programs
-- that only wire these together. The literal-only compressors of LZ and GLZ, which only tests use, are
-- left out as well.
pub mod Base
pub mod Proto
pub mod Net
pub mod Lz
pub mod Glz
pub mod Quic
pub mod Tests
