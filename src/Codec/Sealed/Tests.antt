-- ===== src/Codec/Sealed/Tests.antt =====
-- The sealed datagram of src/shared/knock/codec: the theorems at inputs.
use siglatch.Prelude.{
  ◌+◌, ◌<◌, ◌≡◌, ◌≢◌, ◌↔◌, refl, Bool, true, false, none, some, ◌&&◌, [], ◌∷◌, ◌++◌, length,
  replicate, arith, ltb,
}
use siglatch.M7mux.Packet.{Bytes}
use siglatch.M7mux.Ingress.{Datagram, Identity}
use siglatch.Codec.Wire.{IsBytes, read_u16, read_u32}
use siglatch.Codec.Sealed.{
  WirePacket, ok, err_unpack, pack, unpack_wire, validate_wire, deserialize_wire, detect, packet_at,
  is_overflow,
}
use siglatch.Codec.Sealed.RoundTrip.{IsFilled, pack-unpack_wire}
use siglatch.Codec.Sealed.Accept.{
  IsPrefixed, Refuses, unpack_wire-IsFilled, unpack_wire-pack, deserialize_wire-ok_iff,
  deserialize_wire-Refuses, detect-is_exclusive,
}
use siglatch.Codec.V3
use siglatch.Codec.V4

-- A packet of version 3 with a key of one byte.
abbrev small : WirePacket
small = record {
  magic = 0x534C504B;
  version = 0x00030000;
  form = 1;
  wrapped_cek_len = 1;
  nonce = replicate 12 5;
  ciphertext_len = 47;
  wrapped_cek = 6 ∷ [];
  ciphertext = replicate 47 7;
  tag = replicate 16 8;
}

abbrev small_bytes : Bytes
small_bytes =
    (0x53 ∷ 0x4C ∷ 0x50 ∷ 0x4B ∷ 0 ∷ 3 ∷ 0 ∷ 0 ∷ 1 ∷ 0 ∷ 1 ∷ [])
    ++ (replicate 12 5 ++ ((0 ∷ 0 ∷ 0 ∷ 47 ∷ 6 ∷ []) ++ (replicate 47 7 ++ replicate 16 8)))

small-IsFilled : IsFilled V3.format small
small-IsFilled = record {
  magic_fits = omega arith;
  version_fits = omega arith;
  has_cek = omega arith;
  cek_fits = omega arith;
  body_starts = omega arith;
  body_fits = omega arith;
  body_is_u32 = omega arith;
  nonce_length = refl;
  cek_length = refl;
  ciphertext_length = refl;
  tag_length = refl;
}

pack-unpack_wire_example :
    (buf : Bytes) × (pack V3.format small 91 ≡ ok buf)
    × (length buf ≡ 91)
    × (unpack_wire V3.format buf ≡ ok small)
pack-unpack_wire_example = pack-unpack_wire V3.format small 91 small-IsFilled (omega arith)

all_bytes : Bytes → Bool
all_bytes [] = true
all_bytes (x ∷ xs) = ltb x 256 && all_bytes xs

all_bytes-IsBytes : (xs : Bytes) → all_bytes xs ≡ true → IsBytes xs
unfolding all_bytes
all_bytes-IsBytes [] h = tt
all_bytes-IsBytes (x ∷ xs) h = (ground (arith, h), all_bytes-IsBytes xs (ground (arith, h)))

small_bytes-IsBytes : IsBytes small_bytes
unfolding all_bytes
small_bytes-IsBytes = all_bytes-IsBytes small_bytes refl

small_bytes-unpack : unpack_wire V3.format small_bytes ≡ ok small
unfolding unpack_wire packet_at is_overflow read_u16 read_u32
small_bytes-unpack = refl

unpack_wire-IsFilled_example :
    IsFilled V3.format small
    × (small.form < 256)
    × (length small_bytes
        ≡ 27 + length small.wrapped_cek + length small.ciphertext + length small.tag)
unpack_wire-IsFilled_example =
    unpack_wire-IsFilled V3.format small_bytes small small_bytes-IsBytes (omega arith)
      small_bytes-unpack

unpack_wire-pack_example : pack V3.format small 91 ≡ ok small_bytes
unpack_wire-pack_example =
    unpack_wire-pack V3.format small_bytes small small_bytes-IsBytes (omega arith)
      small_bytes-unpack

deserialize_wire-ok_iff_example :
    (deserialize_wire V3.format small_bytes ≡ ok small)
    ↔ ((small ≡ packet_at small_bytes) × IsPrefixed V3.format small_bytes)
deserialize_wire-ok_iff_example = deserialize_wire-ok_iff V3.format small_bytes small

deserialize_wire-Refuses_example : Refuses V3.format (replicate 26 0) err_unpack
unfolding deserialize_wire unpack_wire
deserialize_wire-Refuses_example =
    deserialize_wire-Refuses V3.format (replicate 26 0) err_unpack refl

abbrev datagram : Datagram
datagram = record {
  buffer = small_bytes;
  received_ms = 9;
  ip = 49 ∷ [];
  client_port = 7;
  encrypted = false;
  magic = 0;
  version = 0;
  form = 0;
}

abbrev found : Identity
found = record { encrypted = true; magic = 0x534C504B; version = 0x00030000; form = 1 }

differ : V3.format.wire_version ≢ V4.format.wire_version
differ e = absurd (omega (arith, e))

small_bytes-detect : detect V3.format datagram ≡ some found
unfolding detect deserialize_wire validate_wire unpack_wire packet_at is_overflow read_u16 read_u32
small_bytes-detect = refl

detect-is_exclusive_example : detect V4.format datagram ≡ none
detect-is_exclusive_example =
    detect-is_exclusive V3.format V4.format datagram found differ small_bytes-detect
