-- ===== src/Codec/Exchange.antt =====
-- The keys and the sealing of packets in src/shared/knock/codec/v4/v4.c, and in v3.c, whose text is the
-- same. OpenSSL and the digests stand behind the tables `internal.openssl` and `internal.digest`: they
-- are the argument `lib`.
pub mod RoundTrip
use siglatch.Prelude.{
  ℕ, ◌+◌, ◌%◌, ◌^◌, Bool, true, false, Option, none, some, ◌||◌, not, List, [], ◌∷◌, ◌++◌,
  if◌then◌else◌, ltb, leb, ◌==◌, length, take, drop, replicate,
}
use siglatch.M7mux.Packet.{Bytes, RecvPacket, SendPacket, EgressData}
use siglatch.Codec.Unit.{NormalizedUnit, zero_unit, copy_recv_packet, copy_send_packet, fill_egress}
use siglatch.Codec.Nonces.{CodecState, packet_nonce_accept}
use siglatch.Codec.Sealed.{
  Format, WirePacket, Result, ok, err, err_validate, pack, build_aad, prefix_magic, form1_id,
  header_size, cek_size, cek_max, tag_size, hmac_size, body_max, packet_max_size,
}

-- The parts of `SiglatchOpenSSLSession` that the codecs read; the key's bytes carry `hmac_key_len`.
pub record OpensslSession : Type 0 where
  pub id : ℕ
  pub has_public_key : Bool
  pub hmac_key : Bytes

-- The functions of the tables. `none` is a failure, and what is written carries its length.
-- `session_decrypt` has room for 256 bytes. The digest is that of the version.
pub record Library : Type 0 where
  pub session_encrypt : OpensslSession → Bytes → Option Bytes
  pub session_decrypt : OpensslSession → Bytes → Option Bytes
  pub aesgcm_encrypt : Bytes → Bytes → Bytes → Bytes → Option (Bytes × Bytes)
  pub aesgcm_decrypt : Bytes → Bytes → Bytes → Bytes → Bytes → Option Bytes
  pub generate_digest : NormalizedUnit → Option Bytes
  pub sign : Bytes → Bytes → Option Bytes

-- What `RAND_bytes` gives for the key and then for the nonce.
pub record Random : Type 0 where
  pub cek : Option Bytes
  pub nonce : Option Bytes

infixl 5 ◌>>=◌
abbrev pub ◌>>=◌ {ℓ κ} : {A : Type ℓ} {B : Type κ} → Option A → (A → Option B) → Option B
none >>= f = none
some a >>= f = f a

-- `session` is that of the context, `none` where there is none.
unfoldable pub decrypt_payload_key : Library → Option OpensslSession → Bytes → ℕ → Option Bytes
decrypt_payload_key lib session input output_len = if output_len == 0 then none else do
  s ← session
  output ← lib.session_decrypt s input
  if not (length output == cek_size)
      then none
      else if ltb output_len (length output)
      then none
      else some output

unfoldable pub get_payload_key : Library → Option OpensslSession → WirePacket → Result Bytes
get_payload_key lib session pkt = elim (decrypt_payload_key lib session pkt.wrapped_cek cek_size) [
  | none ↦ err err_validate
  | some cek ↦ if not (length cek == cek_size) then err err_validate else ok cek
]

unfoldable pub encrypt_payload_key : Library → Option OpensslSession → Bytes → ℕ → Option Bytes
encrypt_payload_key lib session input output_len = if output_len == 0 then none else do
  s ← session
  wrapped ← lib.session_encrypt s input
  if (length wrapped == 0) || ltb output_len (length wrapped) then none else some wrapped

-- `decrypt_and_unpack_packet` as far as the plaintext; each refusal is `SL_PAYLOAD_ERR_VALIDATE`.
unfoldable pub decrypt_packet : Library → Option OpensslSession → WirePacket → Option Bytes
decrypt_packet lib session pkt = elim (get_payload_key lib session pkt) [
  | err e ↦ none
  | ok cek ↦ lib.aesgcm_decrypt cek pkt.nonce (build_aad pkt) pkt.ciphertext pkt.tag
]

unfoldable pub sign_with : Library → OpensslSession → NormalizedUnit → Option NormalizedUnit
sign_with lib session normal =
    if not session.has_public_key || ltb (length session.hmac_key) hmac_size then none else do
      digest ← lib.generate_digest normal
      hmac ← lib.sign session.hmac_key digest
      some (record normal { hmac = hmac })

-- The hmac of a unit that asks for it, in `encode`.
unfoldable pub sign_body : Library → Option OpensslSession → NormalizedUnit → Option NormalizedUnit
sign_body lib session normal =
    if normal.wire_auth then session >>= (λ s. sign_with lib s normal) else some normal

-- The packet before the encryption, whose header is authenticated.
abbrev pub open_packet : Format → Bytes → Bytes → Bytes → WirePacket
open_packet format wrapped nonce plaintext = record {
  magic = prefix_magic;
  version = format.wire_version;
  form = form1_id;
  wrapped_cek_len = length wrapped % 2 ^ 16;
  nonce = nonce;
  ciphertext_len = length plaintext % 2 ^ 32;
  wrapped_cek = wrapped;
  ciphertext = [];
  tag = [];
}

-- What a buffer holds when `bytes` have been written to its front.
abbrev pub write_front : Bytes → Bytes → Bytes
write_front bytes buf = bytes ++ drop (length bytes) buf

-- `encode` tests `!pack(…)`, and no code of `pack` is 0: where it refuses, the buffer stays as it is.
abbrev pub written : Result Bytes → Bytes → Bytes
written (ok bytes) out_buf = write_front bytes out_buf
written (err e) out_buf = out_buf

-- `encode` from the plaintext on. `out_buf` is the buffer, whose length is `*out_len`; the result is
-- what the buffer holds then and the new `*out_len`.
unfoldable pub seal :
    Format → Library → Option OpensslSession → Random → Bytes → Bytes → Option (Bytes × ℕ)
seal format lib session random plaintext out_buf = do
  cek ← random.cek
  wrapped ← encrypt_payload_key lib session cek cek_max
  nonce ← random.nonce
  let pkt = open_packet format wrapped nonce plaintext
  (ciphertext, tag) ← lib.aesgcm_encrypt cek nonce (build_aad pkt) plaintext
  if ltb (body_max format) (length ciphertext) || ltb cek_max (length wrapped)
      then none
      else some (
        written
            (pack format
              (record pkt {
                ciphertext_len = length ciphertext % 2 ^ 32;
                ciphertext = ciphertext;
                tag = tag;
              })
              (length out_buf))
            out_buf,
        header_size + length wrapped + length ciphertext + tag_size,
      )

-- What `decode` returns: 0, or `SL_PAYLOAD_ERR_UNPACK`, which is not 0, or 1 with the unit.
pub data Decoded : Type 0 where
  failed malformed : Decoded
  decoded : NormalizedUnit → Decoded

-- The decision of a codec on a packet's nonce, kept in the unit. It is what `wire_auth` returns.
unfoldable pub wire_auth :
    Bool → Option ℕ → CodecState → NormalizedUnit → ℕ → CodecState × NormalizedUnit
wire_auth allocated window_ms state normal now =
    let (state', accepted) =
      packet_nonce_accept allocated window_ms state normal.timestamp normal.challenge now in
    (state', record normal { wire_auth = accepted })

-- `adapter_decode` from its test `!decode(…)` on. A packet that is malformed is delivered as the unit
-- that the adapter has cleared.
unfoldable pub deliver : Decoded → ℕ → Option RecvPacket
deliver failed received_ms = none
deliver malformed received_ms = do
  packet ← copy_recv_packet zero_unit
  some (record packet { received_ms = received_ms })
deliver (decoded normal) received_ms = do
  packet ← copy_recv_packet normal
  some (record packet { received_ms = received_ms })

-- `adapter_encode` from `encode` on, whose buffer of `packet_max_size` bytes is cleared.
unfoldable pub send_encoded :
    SendPacket → (NormalizedUnit → Bytes → Option (Bytes × ℕ)) → Format → Option EgressData
send_encoded send encode format = do
  normal ← copy_send_packet send
  (encoded, encoded_len) ← encode normal (replicate (packet_max_size format) 0)
  fill_egress send encoded encoded_len
