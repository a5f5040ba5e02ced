-- ===== src/Codec/Body.antt =====
-- The body of the plaintext in src/shared/knock/codec/v4/v4.c, behind its inner envelope, and in v3.c,
-- where it is the whole plaintext.
use siglatch.Prelude.{
  ℕ, ◌+◌, ◌%◌, ◌^◌, ◌<◌, ◌≤◌, ◌≡◌, refl, ap, ◌∙◌, ◌∷◌, ◌++◌, length, take, drop, take-all,
  length-append, arith,
}
use siglatch.M7mux.Packet.{Bytes}
use siglatch.Codec.Wire.{
  byte, read_u16, read_u32, write_u16, write_u32, first, read_u16-write_u16, read_u32-write_u32,
  take-append, drop-append, first-all,
}
use siglatch.Codec.Unit.{NormalizedUnit}
use siglatch.Codec.Sealed.{hmac_size, payload_max}

-- `sizeof(out->ip)`, less the terminator.
abbrev pub ip_max : ℕ
ip_max = 63

unfoldable pub write_body : NormalizedUnit → Bytes
write_body normal =
    write_u32 normal.timestamp
    ++ (write_u16 normal.user_id
        ++ (normal.action_id
            ∷ (write_u32 normal.challenge
                ++ (write_u32 (length normal.payload % 2 ^ 32)
                    ++ (normal.payload ++ first hmac_size normal.hmac)))))

-- The field at offset 11 of a body.
unfoldable pub body_payload_len : Bytes → ℕ
body_payload_len body = read_u32 (drop 11 body)

unfoldable pub read_body : NormalizedUnit → Bytes → Bytes → ℕ → NormalizedUnit
read_body out body ip client_port =
    let payload_len = body_payload_len body in
    record out {
      timestamp = read_u32 body;
      user_id = read_u16 (drop 4 body);
      action_id = byte body 6;
      challenge = read_u32 (drop 7 body);
      ip = take ip_max ip;
      client_port = client_port;
      payload = take payload_len (drop 15 body);
      hmac = take hmac_size (drop payload_len (drop 15 body));
    }

-- The fields of a body fit their places.
pub record FitsBody (normal : NormalizedUnit) : Type 0 where
  pub timestamp_fits : normal.timestamp < 4294967296
  pub user_id_fits : normal.user_id < 65536
  pub challenge_fits : normal.challenge < 4294967296
  pub hmac_length : length normal.hmac ≡ hmac_size
  pub payload_fits : length normal.payload ≤ payload_max

-- The fields of a unit that a body does not carry come from `out`, the others from `normal`.
unfoldable pub carried : NormalizedUnit → NormalizedUnit → Bytes → ℕ → NormalizedUnit
carried out normal ip client_port = record out {
  timestamp = normal.timestamp;
  user_id = normal.user_id;
  action_id = normal.action_id;
  challenge = normal.challenge;
  ip = take ip_max ip;
  client_port = client_port;
  payload = normal.payload;
  hmac = normal.hmac;
}

module _ (normal : NormalizedUnit) (fits : FitsBody normal) where
  pub length-write_body : length (write_body normal) ≡ 47 + length normal.payload
  unfolding write_body write_u32 write_u16
  length-write_body =
      rw (first-all hmac_size normal.hmac fits.hmac_length)
        (omega (arith, length-append normal.payload normal.hmac, fits.hmac_length))

  pub body_payload_len-write_body : body_payload_len (write_body normal) ≡ length normal.payload
  unfolding body_payload_len write_body write_u32 write_u16
  body_payload_len-write_body =
      let small : length normal.payload % 2 ^ 32 ≡ length normal.payload =
        omega (arith, fits.payload_fits) in
      read_u32-write_u32 (length normal.payload % 2 ^ 32) _ (omega (arith)) ∙ small

  -- The fields of the body, each where it is read.
  at_timestamp : read_u32 (write_body normal) ≡ normal.timestamp
  unfolding write_body
  at_timestamp = read_u32-write_u32 normal.timestamp _ fits.timestamp_fits

  at_user_id : read_u16 (drop 4 (write_body normal)) ≡ normal.user_id
  unfolding write_body write_u32
  at_user_id = read_u16-write_u16 normal.user_id _ fits.user_id_fits

  at_action_id : byte (write_body normal) 6 ≡ normal.action_id
  unfolding write_body write_u32 write_u16
  at_action_id = refl

  at_challenge : read_u32 (drop 7 (write_body normal)) ≡ normal.challenge
  unfolding write_body write_u32 write_u16
  at_challenge = read_u32-write_u32 normal.challenge _ fits.challenge_fits

  at_payload : drop 15 (write_body normal) ≡ normal.payload ++ normal.hmac
  unfolding write_body write_u32 write_u16
  at_payload = ap (λ h. normal.payload ++ h) (first-all hmac_size normal.hmac fits.hmac_length)

  pub read_body-write_body :
      (out : NormalizedUnit) (ip : Bytes) (client_port : ℕ)
      → read_body out (write_body normal) ip client_port ≡ carried out normal ip client_port
  unfolding read_body carried
  read_body-write_body out ip client_port =
      rw
        (
          at_timestamp,
          at_user_id,
          at_action_id,
          at_challenge,
          at_payload,
          body_payload_len-write_body,
          take-append normal.payload normal.hmac (length normal.payload) refl,
          drop-append normal.payload normal.hmac (length normal.payload) refl,
          take-all normal.hmac hmac_size (omega (arith, fits.hmac_length)),
        )
        refl
