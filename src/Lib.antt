-- ===== src/Lib.antt =====
-- siglatch: a server that takes signed and encrypted UDP knocks, and the multiplexer (m7mux) that
-- carries them. This library models the core of the multiplexer, the codecs of versions 3 and 4, the
-- cache of nonces against replays, the daemon's queue of jobs, the decision whether a job's action runs,
-- and the policy on addresses.
--
-- The way of a datagram. The ingress reads it, the normalizer decodes it with the adapter of its wire
-- version, the session table says which session it belongs to, the stream queue puts the fragments of
-- a message in order and hands them to the daemon, which queues them as jobs and decides on each. Answers go through the outbox, which encodes them
-- and puts the datagrams into the egress queue, and the egress sends them.
--
-- Which file models which code, with paths from the repository's root:
--   M7mux/Packet.antt   the packet types of src/stdlib/protocol/udp/m7mux/normalize/normalize.h and
--                       src/shared/knock/codec/user.h
--   M7mux/Ingress.antt  src/stdlib/protocol/udp/m7mux/ingress/ingress.c
--   M7mux/Normalize.antt  src/stdlib/protocol/udp/m7mux/normalize/normalize.c and adapter/adapter.c
--   M7mux/Inbox.antt    src/stdlib/protocol/udp/m7mux/inbox/inbox.c: ingress, normalizer, session and
--                       stream put together
--   M7mux/Stream.antt   src/stdlib/protocol/udp/m7mux/stream/stream.c: the trackers and `ingest`
--   M7mux/Stream/Delivery.antt  the same file's `drain`, `expire` and `pump`, and runs of calls
--   M7mux/Session.antt  src/stdlib/protocol/udp/m7mux/session/session.c
--   M7mux/Egress.antt   src/stdlib/protocol/udp/m7mux/egress/egress.c
--   M7mux/Outbox.antt   src/stdlib/protocol/udp/m7mux/outbox/outbox.c
--   Codec/Wire.antt     the readers and writers of src/shared/knock/codec/v4/v4.c
--   Codec/Unit.antt     src/shared/knock/codec/normalized.h and the copies between units and packets
--   Codec/Sealed.antt   the sealed datagram of v4/v4.c and v3/v3.c, whose text is the same
--   Codec/Body.antt     the body of the plaintext, which is the same in both
--   Codec/Nonces.antt   the nonces of packets in v4/v4.c
--   Codec/Exchange.antt the keys, the signature and the sealing in v4/v4.c
--   Codec/V3.antt, Codec/V4.antt  the plaintexts and fragments of v3/v3.c and v4/v4.c
--   Codec/V3/Transfer.antt, Codec/V4/Transfer.antt  their `decode`, `encode` and adapters
--   Codec/Pipeline.antt the adapters in the registry of the normalizer
--   Nonce.antt          src/stdlib/nonce.c
--   Daemon/Buffer.antt  the buffers of src/siglatch/app/daemon/job.c
--   Daemon/Job.antt     the same file's jobs and their queue
--   Daemon/Digest.antt  src/shared/knock/digest.c and the signatures of
--                       src/siglatch/app/inbound/crypto/crypto.c
--   Daemon/Access.antt  src/siglatch/app/daemon/auth.c, policy.c, request.c and payload.c, and the
--                       lookups of src/siglatch/app/config/config.c: who may have an action run
--   Daemon/Reply.antt   src/siglatch/app/daemon/helper.c and runner.c: replies on their way to the outbox
--   Policy/Range.antt   src/stdlib/net/ip/range/range.c
--   Policy/Access.antt  src/siglatch/app/policy/policy.c
-- A definition has the name of the C function without its prefix (`m7mux_stream_ingest` is
-- `Stream.ingest`), and a record has the fields of the struct. A function that changes a state takes
-- it and returns it first, with the C function's answer after it. The theorems about a part are in
-- the folder of its name, a file for what they show; Tests.antt applies them to inputs.
-- Prelude.antt and its folder hold what the parts share: tests on numbers, lists by index, tables that
-- are searched for a slot, and rings.
--
-- Numbers are natural numbers; where the code's counters can wrap around, `% 2 ^ 32` or `% 2 ^ 64` is
-- written out. Character arrays and buffers are lists of bytes without the terminator. Null arguments,
-- which the functions refuse, are left out. A table has its capacity in the code, 64 for all but the
-- nonce cache, whose capacity is given when it is created; loops over a table are recursion on it.
-- `flush` runs on fuel, the number of queued datagrams, which is enough, since every turn of the loop
-- takes one off; so does the loop of the inbox's `pump`. Ten rounds print a number of 32 bits. A buffer
-- grows in a loop of 65 turns, enough to double any size out of 64 bits.
--
-- Parameters: the adapters of the codecs where the multiplexer calls them, what `send` answers, what
-- the socket receives, for which sizes `calloc` and `realloc` find room, the clock, `isspace`,
-- `inet_pton` and `strtoul`, the random numbers, SHA-256, HMAC and the layout of numbers in memory,
-- and the tables of OpenSSL functions and digests that the codecs call. Of these tables the theorems
-- on codecs suppose that a receiver's session unwraps the keys of 32 bytes that the sender's wraps, and
-- that AES-GCM, with a key of 32 bytes, a nonce of 12 and sizes that fit an `int`, opens what it sealed,
-- keeps the length and makes tags of 16 bytes.
-- Not modelled: sockets, files, processes, logging and OpenSSL, which are calls of the system; the
-- addresses of buffers; the codecs of versions 1 and 2, the reading of the configuration, the actions
-- that the daemon runs, the texts of its replies, and the client, whose code is not translated here.
pub mod Codec
pub mod Daemon
pub mod M7mux
pub mod Nonce
pub mod Policy
pub mod Prelude
