-- ===== src/Lib.antt =====
-- Verification of the streaming core of vitaki, a Remote Play client for the PlayStation Vita.
--
-- The parts and how they interact. The console sends numbered packets over UDP. Takion puts
-- the packets of its data channel into a reorder queue, which hands them out in the order of
-- their numbers (lib/src/reorderqueue.c), passes over a gap that is old for the measured
-- jitter, checks the code and the key position of every packet, holds packets back until there
-- is a key (lib/src/takion.c), and keeps its own packets in a send buffer until they are
-- acknowledged (lib/src/takionsendbuffer.c; lib/src/remote/rudpsendbuffer.c for a session over
-- the internet). Packets of video are units of frames, which the frame processor puts together
-- (lib/src/frameprocessor.c); the video receiver starts and flushes the frames, follows their
-- references and asks for new key frames (lib/src/videoreceiver.c); packets of audio carry
-- frames and copies of earlier ones, which the audio receiver sorts out
-- (lib/src/audioreceiver.c). Both report to the packet statistics (lib/src/packetstats.c), and
-- gaps between video frames are held back and merged before they are reported
-- (lib/src/videoreceiver_gap.c). The controller's events go the other way, through a ring of
-- the latest ones (lib/src/feedback.c); its touches have identifiers (lib/src/controller.c).
-- The Vita client decides how much loss it takes before it recovers
-- (vita/src/host_loss_profile.c). Base64 carries keys and identifiers in the requests of a
-- session (lib/src/base64.c). Packets are encrypted with a key stream, which a thread makes
-- ahead into a ring buffer that requests read (lib/src/gkcrypt.c). Consoles that answer the
-- search are kept in a table until they fall silent (lib/src/discoveryservice.c); their
-- answers and those of a session begin with the headers of HTTP (lib/src/http.c).
--
-- The files.
--   Base          shared names: Boolean tests on native numbers, C arrays as lists, segments of
--                 arrays, and ChiakiErrorCode of lib/include/chiaki/common.h
--   SeqNum        lib/include/chiaki/seqnum.h; Window measures the distance round the circle
--   ReorderQueue  lib/src/reorderqueue.c: Queue has the state, init and fini; Push
--                 chiaki_reorder_queue_push, one function for each of its parts; Ops pull, peek,
--                 find_first_set, drop and skip_gap; Valid the invariant and the window as its
--                 callers see it; Order histories of calls
--   SendBuffer    the two send buffers: Buffer has init, fini, push and ack, Resend the resending
--                 thread, Takion and Rudp the instances at 32 and 16 bits
--   Frame         lib/src/frameprocessor.c: Processor has alloc_frame, put_unit and
--                 report_packet_stats, Flush the repair and the flush, Ready the invariant;
--                 Alloc, Put and Compact have the laws of the three operations
--   Takion        lib/src/takion.c: Bytes has the order of bytes, KeyState the positions of
--                 lib/src/gkcrypt.c, Message the messages, Packet the codes and positions of
--                 packets, AvPacket the packets of versions 7, 9 and 12, Jitter the arrival times,
--                 DataQueue what arrives, is handed out, dropped and acknowledged, Handle the way
--                 of a packet through takion_handle_packet and the postponed ones, Handshake
--                 takion_handshake; PacketLaws, MessageLaws and so on have their laws, Rounds what
--                 a round of the flush does
--   Video         lib/src/videoreceiver.c: State has the receiver and its reference frames, Report
--                 the reports and requests, Flush chiaki_video_receiver_flush_frame in its stages,
--                 Receive chiaki_video_receiver_av_packet
--   Audio         lib/src/audioreceiver.c
--   Stats         lib/src/packetstats.c, lib/src/videoreceiver_gap.c
--   Feedback      lib/src/feedback.c: the history events and their ring; the touches of
--                 lib/src/controller.c
--   Vita          vita/src/host_loss_profile.c
--   Base64        lib/src/base64.c: Codec has both functions, RoundTrip their composition
--   GkCrypt       lib/src/gkcrypt.c: Counter has counter_add, Stream chiaki_gkcrypt_gen_key_stream,
--                 Ring the ring buffer and chiaki_gkcrypt_get_key_stream, Threads the steps of the
--                 thread between which requests come, Cipher chiaki_gkcrypt_decrypt, Gmac the
--                 keys of the codes; Windows
--                 describes the stream by its bytes, RingLaws and ThreadLaws what the ring holds,
--                 Steps one step, Histories runs of them
--   Discovery     lib/src/discoveryservice.c: Hosts has the table and its operations, DropLaws and
--                 ReceiveLaws have their laws, Known where a host stands, Distinct and Valid the
--                 invariant
--   Http          lib/src/http.c: Receive has chiaki_recv_http_header and
--                 chiaki_send_recv_http_header_psn, Headers chiaki_http_header_parse,
--                 ReceiveLaws and HeaderLaws have their laws
--
-- A struct is a record, an array a list, an operation a function from the state to the results
-- and the state left. What an operation does to the outside (calls of callbacks, memory freed,
-- packets sent) is a list in its result. A pointer that the code only passes on is a number,
-- NULL is 0. What the platform answers (allocations, mutexes, the clock) is an argument: the
-- flush of the data queue has the clock's readings as a function of the rounds left, the
-- handshake the results of takion_recv. The function that makes a packet's code
-- (chiaki_gkcrypt_gmac) is a parameter, and so are those of lib/src/bitstream.c in the video
-- receiver and AES on one block in the key stream, SHA-256 and AES-GCM in the codes. Numbers
-- are natural numbers with the reduction to their width written out.
--
-- Bounds and fuel. Loops over arrays recurse on the rounds left. Three loops have fuel:
-- drop_first and reduce_count of the reorder queue get the count of the window, which falls by
-- one in every round, and extend gets one round more than the window has places, where the
-- assertion in the loop ends it. The loop of resend comes back to the same index after giving
-- up on a packet; it gets the count of the packets. The loops that empty the data queue get
-- one round more than the window has places in use: every round takes one or is the last. The
-- laws of the reorder queue are for windows of 2 to 2 ^ 29 places, and those of the key stream
-- for positions below 2 ^ 62. The loop that drops hosts gets one round for each host.
--
-- Not modelled. Log output; the mutexes' exclusion itself; the moment in resend at which the
-- mutex is released round ack, so that no other thread is let in there; the feedback state's
-- floating-point formats; chiaki_fec_decode, which is a parameter of the flush; the three
-- floating-point comparisons of the loss profile, which are given by their outcomes; an
-- assertion compiled out (a failed one is the result `none`). Of Takion: the sockets and
-- connecting, sending with its locks, feedback and microphone packets, the thread's loop, in
-- which the codes of queued packets are checked once the key is there. Of the ciphers: the
-- derivation of a connection's first key and what the libraries do. Of the discovery: sockets,
-- the thread's loop and the packets' text. Of HTTP: the status line. Sessions, codecs, the
-- parsing of the bitstream, configuration and the user interface are left out.
pub mod Base
pub mod SeqNum
pub mod ReorderQueue
pub mod SendBuffer
pub mod Stats
pub mod Frame
pub mod Audio
pub mod Feedback
pub mod Vita
pub mod Takion
pub mod Video
pub mod Base64
pub mod GkCrypt
pub mod Discovery
pub mod Http
