-- ===== src/Codec/Exchange/RoundTrip.antt =====
-- A plaintext that `encode` of src/shared/knock/codec/v4/v4.c seals is opened again by the receiver.
use siglatch.Prelude.{
  ℕ, ◌+◌, ◌≤◌, ◌<◌, ◌≡◌, refl, sym, ◌∙◌, true, false, Option, none, some, length, take, drop, arith,
  length-append, ◌%◌, ◌^◌, ◌||◌, ◌==◌, ltb,
}
use siglatch.M7mux.Packet.{Bytes}
use siglatch.Codec.Unit.{NormalizedUnit}
use siglatch.Codec.Wire.{take-append, first-all, write_u16, write_u32}
use siglatch.Codec.Sealed.{
  Format, WirePacket, ok, build_aad, validate_wire, deserialize_wire, header_size, cek_size,
  cek_max, nonce_size, tag_size, body_max, packet_max_size,
}
use siglatch.Codec.Sealed.RoundTrip.{
  IsFilled, bytes_of, pack-bytes_of, length-bytes_of, unpack_wire-bytes_of, is_overflow-filled,
}
use siglatch.Codec.Sealed.Accept.{deserialize_wire-valid}
use siglatch.Codec.Exchange.{
  OpensslSession, Library, decrypt_payload_key, get_payload_key, encrypt_payload_key,
  decrypt_packet, sign_body, sign_with, open_packet, write_front, seal,
}

-- `INT_MAX`.
abbrev pub int_max : ℕ
int_max = 2147483647

-- What the codec relies on: the receiver's session unwraps the keys of 32 bytes that the sender's wraps,
-- into at most 256 bytes, and AES-GCM with a key of 32 bytes and a nonce of 12, on data and plaintexts
-- whose sizes fit an `int`, keeps the length, makes tags of 16 bytes and opens what it sealed.
pub record IsPaired (lib : Library) (sender receiver : OpensslSession) : Type 0 where
  pub wraps :
      (key : Bytes)
      → length key ≡ cek_size
      → (wrapped : Bytes) × (lib.session_encrypt sender key ≡ some wrapped)
        × (lib.session_decrypt receiver wrapped ≡ some key)
        × (0 < length wrapped)
        × (length wrapped ≤ cek_max)
  pub seals :
      (key nonce aad plaintext : Bytes)
      → length key ≡ cek_size
      → length nonce ≡ nonce_size
      → length aad ≤ int_max
      → length plaintext ≤ int_max
      → (ciphertext : Bytes) × (tag : Bytes) × (lib.aesgcm_encrypt key nonce aad plaintext
          ≡ some (ciphertext, tag))
        × (lib.aesgcm_decrypt key nonce aad ciphertext tag ≡ some plaintext)
        × (length ciphertext ≡ length plaintext)
        × (length tag ≡ tag_size)

-- The packet with its ciphertext.
abbrev pub sealed_packet : Format → Bytes → Bytes → Bytes → Bytes → WirePacket
sealed_packet format wrapped nonce ciphertext tag =
    record (open_packet format wrapped nonce ciphertext) { ciphertext = ciphertext; tag = tag }

-- A version whose body's size fits an `int` and whose number fits the prefix.
pub record IsVersion (format : Format) : Type 0 where
  pub body_is_int : body_max format ≤ int_max
  pub version_fits : format.wire_version < 4294967296

module _ (format : Format) (wrapped nonce ciphertext tag : Bytes) where
  abbrev pkt : WirePacket
  pkt = sealed_packet format wrapped nonce ciphertext tag

  sealed_packet-IsFilled :
      IsVersion format
      → 0 < length wrapped
      → length wrapped ≤ cek_max
      → format.body_fixed_size ≤ length ciphertext
      → length ciphertext ≤ body_max format
      → length nonce ≡ nonce_size
      → length tag ≡ tag_size
      → IsFilled format pkt
  sealed_packet-IsFilled version has fits starts ends n t = record {
    magic_fits = omega arith;
    version_fits = version.version_fits;
    has_cek = omega (arith, has, fits);
    cek_fits = omega (arith, fits);
    body_starts = omega (arith, starts, ends, version.body_is_int);
    body_fits = omega (arith, starts, ends, version.body_is_int);
    body_is_u32 = omega (arith, version.body_is_int);
    nonce_length = n;
    cek_length = omega (arith, fits);
    ciphertext_length = omega (arith, ends, version.body_is_int);
    tag_length = t;
  }

  validate_wire-sealed : IsFilled format pkt → validate_wire format pkt ≡ none
  unfolding validate_wire
  validate_wire-sealed filled = ground (arith, is_overflow-filled format pkt filled)

  -- The header that is authenticated is the header that is sent.
  build_aad-sealed :
      (plaintext : Bytes)
      → length ciphertext ≡ length plaintext
      → build_aad (open_packet format wrapped nonce plaintext) ≡ build_aad pkt
  unfolding build_aad
  build_aad-sealed plaintext same = rw same refl

  module _ (lib : Library) where
    encrypt_payload_key-some :
        (sender : OpensslSession) (cek : Bytes)
        → lib.session_encrypt sender cek ≡ some wrapped
        → 0 < length wrapped
        → length wrapped ≤ cek_max
        → encrypt_payload_key lib (some sender) cek cek_max ≡ some wrapped
    unfolding encrypt_payload_key
    encrypt_payload_key-some sender cek wraps has fits = rw wraps (ground arith)

    seal-some :
        (sender : OpensslSession) (cek plaintext out_buf : Bytes)
        → encrypt_payload_key lib (some sender) cek cek_max ≡ some wrapped
        → length ciphertext ≡ length plaintext
        → lib.aesgcm_encrypt cek nonce
            (build_aad (open_packet format wrapped nonce plaintext))
            plaintext
          ≡ some (ciphertext, tag)
        → IsFilled format pkt
        → length wrapped ≤ cek_max
        → length ciphertext ≤ body_max format
        → packet_max_size format ≤ length out_buf
        → seal format lib
            (some sender)
            (record { cek = some cek; nonce = some nonce })
            plaintext
            out_buf
          ≡ some (
            write_front (bytes_of pkt) out_buf,
            header_size + length wrapped + length ciphertext + tag_size,
          )
    unfolding seal
    seal-some sender cek plaintext out_buf wraps same encrypted filled fits ends room =
        let packs =
          pack-bytes_of format pkt (length out_buf) filled (omega (arith, room, fits, ends)) in
        let small : (ltb (body_max format) (length ciphertext) || ltb cek_max (length wrapped))
            ≡ false =
          ground arith in
        rw (wraps, encrypted, small, packs) refl

    decrypt_payload_key-some :
        (receiver : OpensslSession) (cek : Bytes)
        → lib.session_decrypt receiver wrapped ≡ some cek
        → length cek ≡ cek_size
        → decrypt_payload_key lib (some receiver) wrapped cek_size ≡ some cek
    unfolding decrypt_payload_key
    decrypt_payload_key-some receiver cek unwraps c = rw unwraps (ground arith)

    decrypt_packet-some :
        (receiver : OpensslSession) (cek plaintext : Bytes)
        → lib.session_decrypt receiver wrapped ≡ some cek
        → length cek ≡ cek_size
        → lib.aesgcm_decrypt cek nonce (build_aad pkt) ciphertext tag ≡ some plaintext
        → decrypt_packet lib (some receiver) pkt ≡ some plaintext
    unfolding decrypt_packet get_payload_key
    decrypt_packet-some receiver cek plaintext unwraps c decrypted =
        let key = decrypt_payload_key-some receiver cek unwraps c in
        let right : (length cek == cek_size) ≡ true = ground arith in
        rw (key, get_payload_key, right, decrypt_packet) decrypted

-- What is authenticated has the length of the header.
length-build_aad :
    (format : Format) (wrapped nonce plaintext : Bytes)
    → length nonce ≡ nonce_size
    → length (build_aad (open_packet format wrapped nonce plaintext)) ≡ header_size
unfolding build_aad write_u32 write_u16
length-build_aad format wrapped nonce plaintext n =
    rw (first-all nonce_size nonce n)
      (omega (arith, length-append nonce (write_u32 (length plaintext % 2 ^ 32)), n))

-- A plaintext of the version's length is sealed into a buffer that has room for the largest packet, and
-- the bytes that go out are accepted by the receiver and decrypted to the plaintext.
pub seal-decrypt_packet :
    (format : Format) (lib : Library) (sender receiver : OpensslSession)
    (cek nonce plaintext out_buf : Bytes)
    → IsVersion format
    → IsPaired lib sender receiver
    → length cek ≡ cek_size
    → length nonce ≡ nonce_size
    → format.body_fixed_size ≤ length plaintext
    → length plaintext ≤ body_max format
    → packet_max_size format ≤ length out_buf
    → (out : Bytes × ℕ) × (pkt : WirePacket) × (seal format lib
          (some sender)
          (record { cek = some cek; nonce = some nonce })
          plaintext
          out_buf
        ≡ some out)
      × (out.1 ≤ packet_max_size format)
      × (deserialize_wire format (take out.1 out.0) ≡ ok pkt)
      × (decrypt_packet lib (some receiver) pkt ≡ some plaintext)
seal-decrypt_packet format lib sender receiver cek nonce plaintext out_buf version paired c n starts
      ends room =
    let (wrapped, wraps, unwraps, has, fits) = paired.wraps cek c in
    let aad = build_aad (open_packet format wrapped nonce plaintext) in
    let (ciphertext, tag, seals, opens, same, t) =
      paired.seals cek nonce aad plaintext c n
        (omega (arith, length-build_aad format wrapped nonce plaintext n))
        (omega (arith, ends, version.body_is_int)) in
    let pkt = sealed_packet format wrapped nonce ciphertext tag in
    let filled =
      sealed_packet-IsFilled format wrapped nonce ciphertext tag version has fits
        (omega (arith, starts, same)) (omega (arith, ends, same)) n t in
    let bytes = bytes_of pkt in
    let total = header_size + length wrapped + length ciphertext + tag_size in
    let size : length bytes ≡ total =
      length-bytes_of format pkt filled ∙ omega (arith, fits, ends, same, version.body_is_int) in
    let front : take total (write_front bytes out_buf) ≡ bytes =
      take-append bytes (drop (length bytes) out_buf) total size in
    (
      (write_front bytes out_buf, total),
      pkt,
      seal-some format wrapped nonce ciphertext tag lib sender cek plaintext out_buf
          (encrypt_payload_key-some format wrapped nonce ciphertext tag lib sender cek wraps has
            fits)
          same seals filled fits (omega (arith, ends, same)) room,
      omega (arith, fits, ends, same),
      rw front (
          deserialize_wire-valid format bytes pkt (unpack_wire-bytes_of format pkt filled)
            (validate_wire-sealed format wrapped nonce ciphertext tag filled)),
      decrypt_packet-some format wrapped nonce ciphertext tag lib receiver cek plaintext unwraps c
          (rw (sym (build_aad-sealed format wrapped nonce ciphertext tag plaintext same)) opens),
    )

-- Signing changes the hmac alone.
pub sign_body-hmac :
    (lib : Library) (session : Option OpensslSession) (normal body : NormalizedUnit)
    → sign_body lib session normal ≡ some body
    → (body.wire_version ≡ normal.wire_version)
      × (body.wire_form ≡ normal.wire_form)
      × (body.payload ≡ normal.payload)
unfolding sign_body sign_with
sign_body-hmac lib session normal body h = ground arith
