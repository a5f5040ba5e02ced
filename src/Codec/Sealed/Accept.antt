-- ===== src/Codec/Sealed/Accept.antt =====
-- Which buffers `unpack_wire`, `deserialize_wire` and `detect` of src/shared/knock/codec/v4/v4.c accept.
use siglatch.Prelude.{
  ◌+◌, ◌≤◌, ◌<◌, ◌≡◌, ◌≢◌, ◌↔◌, refl, ap, sym, subst, ◌∙◌, true, false, length, drop, take-all,
  length-take, arith, none, some, Option-cases, Bool-cases, inl, inr, ◌⊎◌, ◌==◌, ltb,
}
use siglatch.M7mux.Packet.{Bytes}
use siglatch.M7mux.Ingress.{Datagram, Identity}
use siglatch.Codec.Wire.{
  read_u16, read_u32, IsBytes, drop-IsBytes, read_u32-lt, length-drop, drop-drop, take-drop,
  byte-drop, byte-lt, u16_at, u32_at,
}
use siglatch.Codec.Sealed.{
  Format, WirePacket, Result-cases, ok, err, Error, err_unpack, err_validate, err_overflow, pack,
  unpack_wire, validate_wire, deserialize_wire, detect, packet_at, is_overflow, header_size,
  prefix_magic, form1_id, nonce_size, tag_size, cek_max, body_max, expected_size,
}
use siglatch.Codec.Sealed.RoundTrip.{IsFilled, bytes_of, pack-bytes_of}

-- The tests of `unpack_wire`, as one statement.
pub record IsFramed (format : Format) (buf : Bytes) : Type 0 where
  pub has_header : header_size ≤ length buf
  pub sizes :
      is_overflow format (packet_at buf).wrapped_cek_len (packet_at buf).ciphertext_len ≡ false
  pub exact :
      length buf ≡ expected_size (packet_at buf).wrapped_cek_len (packet_at buf).ciphertext_len

pub unpack_wire-ok :
    (format : Format) (buf : Bytes) (pkt : WirePacket)
    → unpack_wire format buf ≡ ok pkt
    → (pkt ≡ packet_at buf) × IsFramed format buf
unfolding unpack_wire
unpack_wire-ok format buf pkt h = ground arith

pub unpack_wire-IsFramed :
    (format : Format) (buf : Bytes)
    → IsFramed format buf
    → unpack_wire format buf ≡ ok (packet_at buf)
unfolding unpack_wire
unpack_wire-IsFramed format buf framed = ground arith

packet_at-IsFilled :
    (format : Format) (buf : Bytes)
    → IsBytes buf
    → body_max format < 4294967296
    → IsFramed format buf
    → IsFilled format (packet_at buf)
unfolding is_overflow packet_at
packet_at-IsFilled format buf bytes small framed =
    let w = read_u16 (drop 9 buf) in
    let c = read_u32 (drop 23 buf) in
    let tail = drop header_size buf in
    let at_tail = length-drop header_size buf framed.has_header in
    let at_body = length-drop w tail (omega (arith, framed.exact)) in
    let at_tag = length-drop c (drop w tail) (omega (arith, framed.exact)) in
    let sizes : (0 < w) × (w ≤ cek_max) × (format.body_fixed_size ≤ c) × (c ≤ body_max format) =
      ground (arith, framed.sizes) in
    record {
      magic_fits = read_u32-lt buf bytes;
      version_fits = read_u32-lt (drop 4 buf) (drop-IsBytes 4 buf bytes);
      has_cek = sizes.0;
      cek_fits = sizes.1;
      body_starts = sizes.2;
      body_fits = sizes.3;
      body_is_u32 = small;
      nonce_length = omega (
        arith,
        length-take nonce_size (drop 11 buf),
        length-drop 11 buf (omega (arith, framed.has_header)),
        framed.has_header,
      );
      cek_length = omega (arith, length-take w tail, at_tail, framed.exact);
      ciphertext_length =
          omega (arith, length-take c (drop w tail), at_tail, at_body, framed.exact);
      tag_length = omega (
        arith,
        length-take tag_size (drop c (drop w tail)),
        at_tail,
        at_body,
        at_tag,
        framed.exact,
      );
    }

-- For a version whose body fits 32 bits, what is accepted of a buffer of bytes is within its bounds: every
-- array has the bytes that its length field promises, none was read past the end of the buffer, and each
-- number fits the field it is kept in: 32 bits for the magic, the version and the body's size, 8 for the
-- form, and at most 256 for the key's size.
pub unpack_wire-IsFilled :
    (format : Format) (buf : Bytes) (pkt : WirePacket)
    → IsBytes buf
    → body_max format < 4294967296
    → unpack_wire format buf ≡ ok pkt
    → IsFilled format pkt
      × (pkt.form < 256)
      × (length buf ≡ header_size + length pkt.wrapped_cek + length pkt.ciphertext + length pkt.tag)
unfolding is_overflow packet_at
unpack_wire-IsFilled format buf pkt bytes small h =
    let (same, framed) = unpack_wire-ok format buf pkt h in
    let filled =
      subst (IsFilled format) (sym same) (packet_at-IsFilled format buf bytes small framed) in
    (
      filled,
      subst (λ (p : WirePacket). p.form < 256) (sym same) (byte-lt buf 8 bytes),
      omega (
        arith,
        filled.cek_length,
        filled.ciphertext_length,
        filled.tag_length,
        framed.exact,
        ap (λ (p : WirePacket). p.wrapped_cek_len) same,
        ap (λ (p : WirePacket). p.ciphertext_len) same,
      ),
    )

-- The buffer is the only one that unpacks to its packet.
pub bytes_of-packet_at :
    (format : Format) (buf : Bytes)
    → IsBytes buf
    → IsFramed format buf
    → bytes_of (packet_at buf) ≡ buf
unfolding bytes_of packet_at
bytes_of-packet_at format buf bytes framed =
    let w = read_u16 (drop 9 buf) in
    let c = read_u32 (drop 23 buf) in
    let tail = drop header_size buf in
    let at_tail = length-drop header_size buf framed.has_header in
    let at_body = length-drop w tail (omega (arith, framed.exact)) in
    let at_tag = length-drop c (drop w tail) (omega (arith, framed.exact)) in
    rw
      (
        take-all (drop c (drop w tail)) tag_size
            (omega (arith, at_tail, at_body, at_tag, framed.exact)),
        take-drop c (drop w tail),
        take-drop w tail,
        u32_at 23 buf bytes (omega (arith, framed.has_header)),
        sym (drop-drop 11 12 buf),
        take-drop 12 (drop 11 buf),
        u16_at 9 buf bytes (omega (arith, framed.has_header)),
        byte-drop 8 buf (omega (arith, framed.has_header)),
        u32_at 4 buf bytes (omega (arith, framed.has_header)),
        u32_at 0 buf bytes (omega (arith, framed.has_header)),
      )
      refl

-- Packing what was unpacked gives the buffer back: no two datagrams have the same packet.
pub unpack_wire-pack :
    (format : Format) (buf : Bytes) (pkt : WirePacket)
    → IsBytes buf
    → body_max format < 4294967296
    → unpack_wire format buf ≡ ok pkt
    → pack format pkt (length buf) ≡ ok buf
unpack_wire-pack format buf pkt bytes small h =
    let (same, framed) = unpack_wire-ok format buf pkt h in
    let filled = packet_at-IsFilled format buf bytes small framed in
    rw same (
      rw
        (
          pack-bytes_of format (packet_at buf) (length buf) filled (omega (arith, framed.exact)),
          bytes_of-packet_at format buf bytes framed,
        )
        refl)

pub deserialize_wire-valid :
    (format : Format) (buf : Bytes) (pkt : WirePacket)
    → unpack_wire format buf ≡ ok pkt
    → validate_wire format pkt ≡ none
    → deserialize_wire format buf ≡ ok pkt
unfolding deserialize_wire
deserialize_wire-valid format buf pkt unpacked valid =
    rw (unpacked, deserialize_wire) (rw valid refl)

-- The prefix of a datagram of the version.
pub record IsPrefixed (format : Format) (buf : Bytes) : Type 0 where
  pub framed : IsFramed format buf
  pub has_magic : (packet_at buf).magic ≡ prefix_magic
  pub has_version : (packet_at buf).version ≡ format.wire_version
  pub has_form : (packet_at buf).form ≡ form1_id

pub deserialize_wire-ok :
    (format : Format) (buf : Bytes) (pkt : WirePacket)
    → deserialize_wire format buf ≡ ok pkt
    → (pkt ≡ packet_at buf) × IsPrefixed format buf
unfolding deserialize_wire validate_wire unpack_wire
deserialize_wire-ok format buf pkt h = ground arith

pub deserialize_wire-IsPrefixed :
    (format : Format) (buf : Bytes)
    → IsPrefixed format buf
    → deserialize_wire format buf ≡ ok (packet_at buf)
unfolding deserialize_wire validate_wire unpack_wire
deserialize_wire-IsPrefixed format buf p = let f = p.framed in ground arith

-- A buffer is accepted exactly when its sizes agree with its header and its prefix is the version's,
-- and the packet is then the one that its bytes show.
pub deserialize_wire-ok_iff :
    (format : Format) (buf : Bytes) (pkt : WirePacket)
    → (deserialize_wire format buf ≡ ok pkt) ↔ ((pkt ≡ packet_at buf) × IsPrefixed format buf)
deserialize_wire-ok_iff format buf pkt = (
  λ h. deserialize_wire-ok format buf pkt h,
  λ (same, p). deserialize_wire-IsPrefixed format buf p ∙ ap ok (sym same),
)

-- Why a buffer is refused with a code.
pub data Refuses (format : Format) (buf : Bytes) : Error → Type 0 where
  cut_off : length buf < header_size → Refuses format buf err_unpack
  out_of_bounds :
      header_size ≤ length buf
      → is_overflow format (packet_at buf).wrapped_cek_len (packet_at buf).ciphertext_len ≡ true
      → Refuses format buf err_overflow
  misfit :
      header_size ≤ length buf
      → length buf ≢ expected_size (packet_at buf).wrapped_cek_len (packet_at buf).ciphertext_len
      → Refuses format buf err_unpack
  foreign :
      IsFramed format buf
      → ((packet_at buf).magic ≢ prefix_magic)
        ⊎ (((packet_at buf).version ≢ format.wire_version) ⊎ ((packet_at buf).form ≢ form1_id))
      → Refuses format buf err_validate

is_foreign :
    (format : Format) (buf : Bytes) (e : Error)
    → deserialize_wire format buf ≡ err e
    → IsFramed format buf
    → Refuses format buf e
unfolding deserialize_wire validate_wire
is_foreign format buf e h framed =
    let pkt = packet_at buf in
    let opened = unpack_wire-IsFramed format buf framed in
    let differ : (pkt.magic ≢ prefix_magic)
        ⊎ ((pkt.version ≢ format.wire_version) ⊎ (pkt.form ≢ form1_id)) =
      elim (Bool-cases (pkt.magic == prefix_magic)) [
        | inr a ↦ inl (ground (arith, a))
        | inl m ↦ elim (Bool-cases (pkt.version == format.wire_version)) [
          | inr b ↦ inr (inl (ground (arith, b)))
          | inl v ↦ elim (Bool-cases (pkt.form == form1_id)) [
            | inr c ↦ inr (inr (ground (arith, c)))
            | inl f ↦ absurd (ground (arith, m, v, f, opened, framed.sizes, h))
          ]
        ]
      ] in
    subst (Refuses format buf) (ground (arith, opened, framed.sizes, h, differ))
      (foreign framed differ)

-- A refusal names its reason: the header is cut off, a length is out of its bounds, the buffer has
-- another size than its header promises, or the prefix is not the version's.
pub deserialize_wire-Refuses :
    (format : Format) (buf : Bytes) (e : Error)
    → deserialize_wire format buf ≡ err e
    → Refuses format buf e
unfolding deserialize_wire validate_wire unpack_wire
deserialize_wire-Refuses format buf e h =
    let pkt = packet_at buf in
    let large = is_overflow format pkt.wrapped_cek_len pkt.ciphertext_len in
    elim (Bool-cases (ltb (length buf) header_size)) [
      | inl short ↦ subst (Refuses format buf) (ground (arith, short)) (cut_off (ground arith))
      | inr long ↦ elim (Bool-cases large) [
        | inl t ↦
            subst (Refuses format buf) (ground (arith, long, t)) (out_of_bounds (ground arith) t)
        | inr f ↦
            elim (Bool-cases (length buf == expected_size pkt.wrapped_cek_len pkt.ciphertext_len)) [
              | inr bad ↦
                  subst (Refuses format buf) (ground (arith, long, f, bad))
                    (misfit (ground arith) (ground arith))
              | inl same ↦
                  is_foreign format buf e h
                    (record { has_header = ground arith; sizes = f; exact = ground arith })
            ]
      ]
    ]

pub detect-IsPrefixed :
    (format : Format) (ingress : Datagram) (found : Identity)
    → detect format ingress ≡ some found
    → IsPrefixed format ingress.buffer
unfolding detect
detect-IsPrefixed format ingress found h =
    elim (Result-cases (deserialize_wire format ingress.buffer)) [
      | inl (pkt, e) ↦ (deserialize_wire-ok format ingress.buffer pkt e).1
      | inr (code, e) ↦ absurd (ground (arith, e))
    ]

-- The identity of every datagram of a version.
abbrev pub identity_of : Format → Identity
identity_of format = record {
  encrypted = true;
  magic = prefix_magic;
  version = format.wire_version;
  form = form1_id;
}

pub detect-deserialized :
    (format : Format) (ingress : Datagram) (pkt : WirePacket)
    → deserialize_wire format ingress.buffer ≡ ok pkt
    → detect format ingress ≡ some (identity_of format)
unfolding detect
detect-deserialized format ingress pkt h =
    let (same, prefixed) = deserialize_wire-ok format ingress.buffer pkt h in
    ground (arith, h, same, prefixed.has_magic, prefixed.has_version, prefixed.has_form)

-- A datagram that the `detect` of one sealed version accepts is refused by that of every other sealed
-- version, as those of versions 3 and 4 are.
pub detect-is_exclusive :
    (format other : Format) (ingress : Datagram) (found : Identity)
    → format.wire_version ≢ other.wire_version
    → detect format ingress ≡ some found
    → detect other ingress ≡ none
detect-is_exclusive format other ingress found differ h =
    elim (Option-cases (detect other ingress)) [
      | inl e ↦ e
      | inr (x, e) ↦
          let mine = detect-IsPrefixed format ingress found h in
          let theirs = detect-IsPrefixed other ingress x e in
          absurd (differ (sym mine.has_version ∙ theirs.has_version))
    ]
