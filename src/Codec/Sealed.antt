-- ===== src/Codec/Sealed.antt =====
-- The sealed datagram of src/shared/knock/codec/v4/v4.c, and of v3.c, whose text is the same: a header
-- in the clear, the wrapped key, the ciphertext and its tag. The two differ in the constants of
-- `Format`. The pointers are not null.
pub mod RoundTrip
pub mod Accept
mod Tests
use siglatch.Prelude.{
  ◌⊎◌, inl, inr, refl, ℕ, ◌+◌, ◌-◌, ◌*◌, Bool, true, false, Option, none, some, List, [], ◌∷◌, ◌++◌,
  ◌≡◌, ◌||◌, not, if◌then◌else◌, ltb, leb, ◌==◌, length, take, drop, arith,
}
use siglatch.M7mux.Packet.{Bytes}
use siglatch.M7mux.Ingress.{Datagram, Identity}
use siglatch.Codec.Wire.{byte, read_u16, read_u32, write_u16, write_u32, first}

-- The codes below 0; `SL_PAYLOAD_OK` is `ok`.
pub data Error : Type 0 where
  err_null_ptr err_unpack err_validate err_overflow : Error

pub data Result {ℓ} (A : Type ℓ) : Type ℓ where
  ok : A → Result A
  err : Error → Result A

pub Result-cases {ℓ} :
    {A : Type ℓ} (r : Result A) → ((a : A) × (r ≡ ok a)) ⊎ ((e : Error) × (r ≡ err e))
Result-cases (ok a) = inl (a, refl)
Result-cases (err e) = inr (e, refl)

-- What differs between the versions: `WIRE_VERSION` and `BODY_FIXED_SIZE`.
pub record Format : Type 0 where
  pub wire_version : ℕ
  pub body_fixed_size : ℕ

-- `SHARED_KNOCK_PREFIX_MAGIC`, `SHARED_KNOCK_CODEC_FORM1_ID`, and the sizes.
abbrev pub prefix_magic : ℕ
prefix_magic = 0x534C504B

abbrev pub form1_id : ℕ
form1_id = 1

abbrev pub header_size : ℕ
header_size = 27

abbrev pub cek_size : ℕ
cek_size = 32

abbrev pub cek_max : ℕ
cek_max = 256

abbrev pub nonce_size : ℕ
nonce_size = 12

abbrev pub tag_size : ℕ
tag_size = 16

abbrev pub hmac_size : ℕ
hmac_size = 32

abbrev pub payload_max : ℕ
payload_max = 512

abbrev pub body_max : Format → ℕ
body_max format = format.body_fixed_size + payload_max

abbrev pub packet_max_size : Format → ℕ
packet_max_size format = header_size + cek_max + body_max format + tag_size

-- `SharedKnockCodecV4Form1Packet`; an array has the bytes that are in use.
pub record WirePacket : Type 0 where
  pub magic : ℕ
  pub version : ℕ
  pub form : ℕ
  pub wrapped_cek_len : ℕ
  pub nonce : Bytes
  pub ciphertext_len : ℕ
  pub wrapped_cek : Bytes
  pub ciphertext : Bytes
  pub tag : Bytes

unfoldable pub build_aad : WirePacket → Bytes
build_aad pkt =
    write_u32 pkt.magic
    ++ (write_u32 pkt.version
        ++ (pkt.form
            ∷ (write_u16 pkt.wrapped_cek_len
                ++ (first nonce_size pkt.nonce ++ write_u32 pkt.ciphertext_len))))

-- The tests on the two lengths, which three functions share.
unfoldable pub is_overflow : Format → ℕ → ℕ → Bool
is_overflow format wrapped_cek_len ciphertext_len =
    (wrapped_cek_len == 0 || ltb cek_max wrapped_cek_len)
    || (ltb ciphertext_len format.body_fixed_size || ltb (body_max format) ciphertext_len)

abbrev pub expected_size : ℕ → ℕ → ℕ
expected_size wrapped_cek_len ciphertext_len =
    header_size + wrapped_cek_len + ciphertext_len + tag_size

-- The packet that `buf` shows. `tail` is `buf + HEADER_SIZE`.
unfoldable pub packet_at : Bytes → WirePacket
packet_at buf =
    let wrapped_cek_len = read_u16 (drop 9 buf) in
    let ciphertext_len = read_u32 (drop 23 buf) in
    let tail = drop header_size buf in
    record {
      magic = read_u32 buf;
      version = read_u32 (drop 4 buf);
      form = byte buf 8;
      wrapped_cek_len = wrapped_cek_len;
      nonce = take nonce_size (drop 11 buf);
      ciphertext_len = ciphertext_len;
      wrapped_cek = take wrapped_cek_len tail;
      ciphertext = take ciphertext_len (drop wrapped_cek_len tail);
      tag = take tag_size (drop ciphertext_len (drop wrapped_cek_len tail));
    }

-- What is written to `pkt` before a refusal is read by no caller, and is left out.
unfoldable pub unpack_wire : Format → Bytes → Result WirePacket
unpack_wire format buf =
    if ltb (length buf) header_size
    then err err_unpack
    else let pkt = packet_at buf in
      if is_overflow format pkt.wrapped_cek_len pkt.ciphertext_len
      then err err_overflow
      else if not (length buf == expected_size pkt.wrapped_cek_len pkt.ciphertext_len)
      then err err_unpack
      else ok pkt

unfoldable pub validate_wire : Format → WirePacket → Option Error
validate_wire format pkt =
    if not (pkt.magic == prefix_magic)
    then some err_validate
    else if not (pkt.version == format.wire_version)
    then some err_validate
    else if not (pkt.form == form1_id)
    then some err_validate
    else if is_overflow format pkt.wrapped_cek_len pkt.ciphertext_len
    then some err_overflow
    else none

abbrev validated : Option Error → WirePacket → Result WirePacket
validated none pkt = ok pkt
validated (some err_overflow) pkt = err err_overflow
validated (some err_null_ptr) pkt = err err_validate
validated (some err_unpack) pkt = err err_validate
validated (some err_validate) pkt = err err_validate

unfoldable pub deserialize_wire : Format → Bytes → Result WirePacket
deserialize_wire format buf = elim (unpack_wire format buf) [
  | ok pkt ↦ validated (validate_wire format pkt) pkt
  | err e ↦ err e
]

-- The bytes that `pack` writes; their number is what it returns.
unfoldable pub pack : Format → WirePacket → ℕ → Result Bytes
pack format pkt maxlen =
    if is_overflow format pkt.wrapped_cek_len pkt.ciphertext_len
    then err err_overflow
    else if ltb maxlen (expected_size pkt.wrapped_cek_len pkt.ciphertext_len)
    then err err_unpack
    else ok (
        write_u32 pkt.magic
        ++ (write_u32 pkt.version
            ++ (pkt.form
                ∷ (write_u16 pkt.wrapped_cek_len
                    ++ (first nonce_size pkt.nonce
                        ++ (write_u32 pkt.ciphertext_len
                            ++ (first pkt.wrapped_cek_len pkt.wrapped_cek
                                ++ (first pkt.ciphertext_len pkt.ciphertext
                                    ++ first tag_size pkt.tag))))))))

-- The identity is written when the datagram is of this version.
unfoldable pub detect : Format → Datagram → Option Identity
detect format ingress = elim (deserialize_wire format ingress.buffer) [
  | err e ↦ none
  | ok pkt ↦
      some (record { encrypted = true; magic = pkt.magic; version = pkt.version; form = pkt.form })
]
