-- ===== src/Lib.antt =====
-- Outpace is an Ace Stream compatible engine: it downloads, checks and serves live streams that
-- peers exchange in pieces. This library models the core of its data path.
--
-- A connection opens with a handshake (Wire.Handshake, for crates/ace-wire/src/handshake.rs). After it,
-- a peer's bytes are framed messages (Wire.Message, for crates/ace-wire/src/message.rs); a piece
-- message carries a live chunk (Wire.LiveCodec, live_codec.rs). Chunks go to the reassembler
-- (Wire.Reassembly, reassembly.rs), which collects them into pieces, checks the signature of each
-- full piece (Wire.LiveAuth, live_auth.rs) and hands the media out in order. The scheduler
-- (Swarm.Scheduler, crates/ace-swarm/src/scheduler.rs) decides which piece is asked of which peer,
-- and the active peers (Swarm.ActivePeers, the same file) keep each peer's window and the pieces it
-- has in flight. On the sending side a stream is cut into chunks (Wire.Chunker, chunker.rs), of signed
-- pieces (Wire.SigningChunker, signing_chunker.rs).
--
-- Extended messages are bencoded (Wire.Bencode, bencode.rs). A peer's live window is read from one of
-- them, and a picker asks for the next piece of the sliding window (Wire.Live, live.rs). Peers gossip
-- further peers (Wire.PeerExchange, peer_exchange.rs), and a UDP tracker is asked for them
-- (Tracker.Codec, crates/ace-tracker/src/codec.rs). Pieces that are kept for others stand in the rolling
-- store (Swarm.Store over Swarm.Memory, crates/ace-swarm/src/store.rs): its abstract view is a table of
-- chunks that forgets its lowest pieces (Swarm.Store.Refinement). Peers introduce themselves by a signed
-- dictionary (Wire.Extended, extended.rs, over Wire.Identity, identity.rs), and a descriptor is asked for
-- in pieces (Wire.UtMetadata, ut_metadata.rs).
--
-- The media that comes out is an MPEG transport stream (crates/ace-media/src/mpegts.rs). It is aligned
-- to packets again (Media.Resync, Media.Sync), and held back from a client until a packet that a decoder
-- can start at (Media.Gate, with Media.Inserts for what a gate adds, Media.Access for the tables that it
-- has learned, Media.Psi, Media.Pes and Media.Packet for the parsing). The client is shown a title
-- (Media.Title) in a table with a checksum (Media.Sdt, Media.Crc), and time is read from the packets of
-- one PID (Media.Clock).
--
-- Correspondence. A Rust function has the name it has in the source; a method on `&mut self` takes
-- the state and returns the new one beside its result, also where it fails, so that a theorem can say
-- what an error leaves behind. `Result` carries `WireError`, `Option` is the library's. A byte, u32
-- or u64 is a native ℕ with its bound as a hypothesis, and arithmetic wraps, saturates or is checked
-- where the source's does. BTreeMap and BTreeSet are ascending association lists (Prelude.Maps),
-- `usize` is 64 bits. Long functions have helpers for their inner blocks: `write_block`, `fill`,
-- `authenticate` and `finish_piece` are the blocks of `add_block_with_contribution`, `live_metadata`
-- and `set_live` those of `add_live_chunk`, and `slots_from`, `scan_start`, `scan_step`, `scan` and
-- `pick` those of the scheduler's `assign_inner`. `insert_peer` and `remove_peer` are
-- `ActivePeers::insert` and `ActivePeers::remove`, and `TsChunker`'s field `abs` is `offset`. In the
-- store, `write_chunk`, `note_seen` and `evict` are the parts of `put_chunk_with_header_at`,
-- `write_complete` is the write of `put_complete_memory`, and `bad_geometry` is the guard of
-- `begin_complete_admission`; the time of a call is an argument of it. `window_of_dict` is the second
-- half of `from_myinfo_payload`, and what bencode uses of Rust's std is in Wire.Bencode.Decimal.
-- `realign`, `scan_forward` and `bound_tail` are the loops and the end of TsResync's `push_report`,
-- `gate_packet` the loop's body of KeyframeGate's; its count of scanned packets has no bound, and a
-- byte count that only a broken store would take below zero stops there. A Duration of the clock is
-- its number of 90 kHz ticks, and a title the bytes of its text.
--
-- Outside code. The rsa and sha1 crates are the parameter record `RsaCrate`. What they document of
-- keys and signatures is the record `Documented`, a hypothesis of the theorems on signing. The
-- ed25519-dalek and sha2 crates are `Ed25519Crate`, with a `Documented` of its own, and what std knows of
-- characters is `Unicode`, or the function `is_utf8` of Media.Sdt.
--
-- Loops and fuel. `take_ready` and `ready_chunks` take the number of complete pieces as fuel, as
-- each turn consumes or passes one; `assign_inner` takes one turn for each piece up to the scan
-- ceiling, which is enough where the piece counter does not wrap; the chunker's loop takes the number
-- of buffered bytes, as each turn cuts off a chunk of a positive length. The loops of the store's
-- eviction take the number of pieces, as each turn drops one or stops; the bencode parser takes two
-- calls for each byte, and each value of n bytes needs less than 2 n. The loops over a buffer of media
-- take its length, as a turn passes at least a byte or is the last one.
--
-- Not modelled: sockets, tasks and timers, the HTTP and HLS front end, discovery (DHT, the tracker
-- client, port mapping), the store's disk backend, the audio and playlist files of ace-media, and key
-- generation and PEM input of live_auth.rs and identity.rs; of live_codec.rs the timestamp header,
-- which needs the bits of a float. A call on a shared store is one step: a block is read without
-- another task's write between its chunks.
pub mod Media
pub mod Prelude
pub mod Swarm
pub mod Tracker
pub mod Wire
