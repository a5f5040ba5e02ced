-- ===== src/Codec/Sealed/RoundTrip.antt =====
-- `pack` of src/shared/knock/codec/v4/v4.c against `unpack_wire`.
use siglatch.Prelude.{
  ℕ, ◌+◌, ◌≤◌, ◌<◌, ◌≡◌, refl, sym, false, ◌∷◌, ◌++◌, length, take, drop, length-append, take-all,
  arith,
}
use mathlib.Core.List.{append_assoc}
use siglatch.M7mux.Packet.{Bytes}
use siglatch.Codec.Wire.{
  byte, read_u16, read_u32, write_u16, write_u32, read_u16-write_u16, read_u32-write_u32,
  take-append, drop-append, first-all, length-write_u32,
}
use siglatch.Codec.Sealed.{
  Format, WirePacket, ok, pack, unpack_wire, packet_at, is_overflow, header_size, nonce_size,
  tag_size, cek_max, body_max, expected_size,
}

-- A packet whose numbers and arrays fit their fields, with the lengths that the version allows.
pub record IsFilled (format : Format) (pkt : WirePacket) : Type 0 where
  pub magic_fits : pkt.magic < 4294967296
  pub version_fits : pkt.version < 4294967296
  pub has_cek : 0 < pkt.wrapped_cek_len
  pub cek_fits : pkt.wrapped_cek_len ≤ cek_max
  pub body_starts : format.body_fixed_size ≤ pkt.ciphertext_len
  pub body_fits : pkt.ciphertext_len ≤ body_max format
  pub body_is_u32 : body_max format < 4294967296
  pub nonce_length : length pkt.nonce ≡ nonce_size
  pub cek_length : length pkt.wrapped_cek ≡ pkt.wrapped_cek_len
  pub ciphertext_length : length pkt.ciphertext ≡ pkt.ciphertext_len
  pub tag_length : length pkt.tag ≡ tag_size

-- The bytes of a packet, one field after the other.
unfoldable pub bytes_of : WirePacket → Bytes
bytes_of pkt =
    write_u32 pkt.magic
    ++ (write_u32 pkt.version
        ++ (pkt.form
            ∷ (write_u16 pkt.wrapped_cek_len
                ++ (pkt.nonce
                    ++ (write_u32 pkt.ciphertext_len
                        ++ (pkt.wrapped_cek ++ (pkt.ciphertext ++ pkt.tag)))))))

pub is_overflow-filled :
    (format : Format) (pkt : WirePacket)
    → IsFilled format pkt
    → is_overflow format pkt.wrapped_cek_len pkt.ciphertext_len ≡ false
unfolding is_overflow
is_overflow-filled format pkt filled = ground arith

pub length-bytes_of :
    (format : Format) (pkt : WirePacket)
    → IsFilled format pkt
    → length (bytes_of pkt) ≡ expected_size pkt.wrapped_cek_len pkt.ciphertext_len
unfolding bytes_of write_u32 write_u16
length-bytes_of format pkt filled =
    let rest = pkt.wrapped_cek ++ (pkt.ciphertext ++ pkt.tag) in
    omega (
      arith,
      filled.nonce_length,
      filled.cek_length,
      filled.ciphertext_length,
      filled.tag_length,
      length-append pkt.nonce (write_u32 pkt.ciphertext_len ++ rest),
      length-append pkt.wrapped_cek (pkt.ciphertext ++ pkt.tag),
      length-append pkt.ciphertext pkt.tag,
    )

pub pack-bytes_of :
    (format : Format) (pkt : WirePacket) (maxlen : ℕ)
    → IsFilled format pkt
    → expected_size pkt.wrapped_cek_len pkt.ciphertext_len ≤ maxlen
    → pack format pkt maxlen ≡ ok (bytes_of pkt)
unfolding pack bytes_of
pack-bytes_of format pkt maxlen filled room =
    rw
      (
        is_overflow-filled format pkt filled,
        first-all nonce_size pkt.nonce filled.nonce_length,
        first-all pkt.wrapped_cek_len pkt.wrapped_cek filled.cek_length,
        first-all pkt.ciphertext_len pkt.ciphertext filled.ciphertext_length,
        first-all tag_size pkt.tag filled.tag_length,
      )
      (ground arith)

-- What stands behind the header, and the header's parts.
module _ (format : Format) (pkt : WirePacket) (filled : IsFilled format pkt) where
  abbrev tail : Bytes
  tail = pkt.wrapped_cek ++ (pkt.ciphertext ++ pkt.tag)

  drop-nonce : drop 23 (bytes_of pkt) ≡ write_u32 pkt.ciphertext_len ++ tail
  unfolding bytes_of write_u32 write_u16
  drop-nonce =
      drop-append pkt.nonce (write_u32 pkt.ciphertext_len ++ tail) nonce_size filled.nonce_length

  drop-header : drop header_size (bytes_of pkt) ≡ tail
  unfolding bytes_of write_u32 write_u16
  drop-header =
      let split = drop-append (pkt.nonce ++ write_u32 pkt.ciphertext_len) tail (nonce_size + 4) (
        omega
          (arith, filled.nonce_length, length-append pkt.nonce (write_u32 pkt.ciphertext_len))) in
      rw (sym (append_assoc pkt.nonce (write_u32 pkt.ciphertext_len) tail)) split

  read-magic : read_u32 (bytes_of pkt) ≡ pkt.magic
  unfolding bytes_of
  read-magic = read_u32-write_u32 pkt.magic _ filled.magic_fits

  read-version : read_u32 (drop 4 (bytes_of pkt)) ≡ pkt.version
  unfolding bytes_of
  read-version =
      rw (drop-append (write_u32 pkt.magic) _ 4 (length-write_u32 pkt.magic))
        (read_u32-write_u32 pkt.version _ filled.version_fits)

  read-form : byte (bytes_of pkt) 8 ≡ pkt.form
  unfolding bytes_of write_u32
  read-form = refl

  read-cek_len : read_u16 (drop 9 (bytes_of pkt)) ≡ pkt.wrapped_cek_len
  unfolding bytes_of write_u32
  read-cek_len = read_u16-write_u16 pkt.wrapped_cek_len _ (omega (arith, filled.cek_fits))

  read-ciphertext_len : read_u32 (drop 23 (bytes_of pkt)) ≡ pkt.ciphertext_len
  read-ciphertext_len = rw drop-nonce (
      read_u32-write_u32 pkt.ciphertext_len tail
        (omega (arith, filled.body_fits, filled.body_is_u32)))

  take-nonce : take nonce_size (drop 11 (bytes_of pkt)) ≡ pkt.nonce
  unfolding bytes_of write_u32 write_u16
  take-nonce = take-append pkt.nonce _ nonce_size filled.nonce_length

  -- The packet is read back from its bytes.
  pub packet_at-bytes_of : packet_at (bytes_of pkt) ≡ pkt
  unfolding packet_at
  packet_at-bytes_of =
      rw
        (
          read-magic,
          read-version,
          read-form,
          read-cek_len,
          read-ciphertext_len,
          take-nonce,
          drop-header,
          take-append pkt.wrapped_cek (pkt.ciphertext ++ pkt.tag) pkt.wrapped_cek_len
              filled.cek_length,
          drop-append pkt.wrapped_cek (pkt.ciphertext ++ pkt.tag) pkt.wrapped_cek_len
              filled.cek_length,
          take-append pkt.ciphertext pkt.tag pkt.ciphertext_len filled.ciphertext_length,
          drop-append pkt.ciphertext pkt.tag pkt.ciphertext_len filled.ciphertext_length,
          take-all pkt.tag tag_size (omega (arith, filled.tag_length)),
        )
        refl

  pub unpack_wire-bytes_of : unpack_wire format (bytes_of pkt) ≡ ok pkt
  unfolding unpack_wire
  unpack_wire-bytes_of =
      rw
        (
          length-bytes_of format pkt filled,
          packet_at-bytes_of,
          is_overflow-filled format pkt filled,
        )
        (ground arith)

-- A packet that fits its fields is packed into a buffer with room for it, as many bytes as its
-- header, key, ciphertext and tag have, and these bytes unpack to the packet itself.
pub pack-unpack_wire :
    (format : Format) (pkt : WirePacket) (maxlen : ℕ)
    → IsFilled format pkt
    → expected_size pkt.wrapped_cek_len pkt.ciphertext_len ≤ maxlen
    → (buf : Bytes) × (pack format pkt maxlen ≡ ok buf)
      × (length buf ≡ expected_size pkt.wrapped_cek_len pkt.ciphertext_len)
      × (unpack_wire format buf ≡ ok pkt)
pack-unpack_wire format pkt maxlen filled room = (
  bytes_of pkt,
  pack-bytes_of format pkt maxlen filled room,
  length-bytes_of format pkt filled,
  unpack_wire-bytes_of format pkt filled,
)
