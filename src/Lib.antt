-- ===== src/Lib.antt =====
-- dsh-proxy: bridges (Macs) dial one TCP port and keep one Noise link each; phones come in over TLS and a
-- WebSocket and are spliced onto a stream of the link that they address. This library models the Rust
-- crate's own logic; a byte string is a list of numbers below 256, and a machine integer is a native
-- number with its wrap-around written out where the code's arithmetic can reach it.
--
-- Common, Common/*: the names that all modules share, lists, big-endian words, byte masks, text, io
--   results and polls. Of an io error the kind is kept and its message is not.
-- Wire: the constants of src/wire.rs.
-- Frame: `Frame` of src/mux.rs with its header as the encoder of src/noise.rs stages it and the read loop
--   of src/mux.rs parses it.
-- Noise, Noise/*: src/noise.rs. `encode` and `decode` are the codec's methods, each with the state, the
--   buffer and the result on every branch; `xx_respond` is the responder, in four parts that call one
--   another. snow is a parameter: `Transport` (a stateless transport state) and `Handshake`. So is the
--   socket of the handshake, `Stream`. What is relied on of them stands in `Paired` and `Loopback`.
--   Noise/Keys has the proxy's own keys.
-- Ws, Ws/*: src/ws.rs. `frame` and `decode` are the methods of `WsStream`; `decode` is split where the code
--   has the length, then the mask, then the opcode. `client_frame` is the client's frame of RFC 6455, as
--   tests/common/wsio.rs writes it. Ws/Poll has `drain` and the write half over a socket, `Socket`, of which
--   `Honest` says what is relied on; Ws/Poll/Read has the read half over a list of what the socket has,
--   Ws/Frames a client's frames that come in pieces; Ws/Accept is `accept_key`, with SHA-1 and base64 as
--   parameters.
-- Mux, Mux/*: src/mux.rs. `Runtime` has the operations of tokio's semaphores and channels that the code
--   uses, `Lawful` what is relied on of them; Mux/Tests/Machine.antt is an instance. `MuxSession` keeps the
--   inbox and the credit of a stream on a heap, since the session's map and the stream's halves share them;
--   the map holds addresses. A permit of the stream budget is out for each entry of the map. An awaited
--   `send` is one step that answers whether the link took the frame; tasks interleave between such steps,
--   as `run` does over a list of calls (Mux/Runs.antt). `send` of a stream stops where it waits for credit
--   and says what is left. Mux/Io is `MuxStreamIo`: its methods take the session with which it shares its
--   channel, and the future of an in-flight send stands as what that send has left. Mux/Stranded is about
--   a stream that has left the map while a task still holds a half of it. Mux/Emits follows the frames that a
--   session gives to its writer, for any kind of frame that its calls keep to; Mux/Sendable is the kind of the
--   frames that can be encoded.
-- Link, Link/*: the writer task of src/mux.rs between the frames of a session and the bytes of its socket, and the
--   two ends of a link. tokio-util's FramedWrite and FramedRead are the parameters `Sink` and `Source`, with
--   `Faithful` and `Driven` for what is relied on of them; Link/Polled is an instance of the latter.
-- Proxy, Proxy/*: src/lib.rs. Proxy/Slots is `IpSlot`, whose drop is two accesses of the table that others
--   may come between; Proxy/Routes is the table of sessions as `serve_bridge` keeps it; Proxy/Admit is the
--   branch of a connection and the ceilings that a bridge passes; Proxy/Splice is the downlink of
--   `serve_client`; Proxy/Client is `serve_client` up to where its loops run, and its uplink, over what the
--   reads of the client's socket give. Proxy/Duplex has both loops and their `select!` as a step relation: the
--   uplink is a task of its own and goes on when `serve_client` returns, the downlink is dropped then, maybe in
--   the middle of a chunk, and calls of other tasks come between. Proxy/Server has the tasks of all bridges at
--   once, each a state that a step of its own advances, over what they share. In Proxy/Slots, Proxy/Routes,
--   Proxy/Admit and Proxy/Server an address and a key stand as numbers, and a map is a list of pairs
--   (Common/Maps); in Proxy/Client a key is its bytes.
-- Edge, Edge/*: src/edge.rs. `handle` answers a request, of which it sees the path and two headers, and says
--   whether a tunnel was spawned; `tunnel_task` is that tunnel up to `serve_client`.
-- Tls: src/tls.rs, over the file system, the PEM parser, rcgen and rustls as parameters (`Pki`).
-- Main, Main/*: src/main.rs. The loop over the arguments keeps the flag that waits for a value; `main` gives
--   what the process does in the end, `serves` with the arguments of `run_edge`. Main/Line follows what
--   the configuration holds to the words of the line. A string is one of the language, and its bytes are the
--   codes of its characters, as they are for the ASCII texts of the code.
--
-- Fuel: `send_loop` gets as many rounds as there are bytes, and a round takes a byte at least; its outcome
-- `stuck` stands for fuel that ran out. `drain_loop` gets as many rounds as bytes are staged, and each takes
-- a byte at least; `take_frames` gets as many as bytes are buffered, and a frame has six at least.
--
-- Not modelled: the accept loop of src/lib.rs and `Edge::serve` of src/edge.rs, which are I/O around what is
-- modelled; `client_config_trusting` of src/tls.rs, which only calls rustls for the tests; the texts that are
-- printed.
pub mod Common
pub mod Edge
pub mod Frame
pub mod Link
pub mod Main
pub mod Mux
pub mod Noise
pub mod Proxy
pub mod Tls
pub mod Wire
pub mod Ws
