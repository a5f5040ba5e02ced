-- ===== src/M7mux/Stream/Expiry.antt =====
-- src/stdlib/protocol/udp/m7mux/stream/stream.c: `m7mux_stream_expire` clears the expired slots, all of
-- them and no others.
use siglatch.Prelude.{ℕ, if◌then◌else◌}
use siglatch.M7mux.Packet.{RecvPacket, zero_packet}
use siglatch.M7mux.Stream.{is_expired}

abbrev pub cleared : ℕ → RecvPacket → RecvPacket
cleared now_ms slot = if is_expired slot now_ms then zero_packet else slot
