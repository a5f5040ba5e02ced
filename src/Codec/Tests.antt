-- ===== src/Codec/Tests.antt =====
-- src/shared/knock/codec: the theorems at inputs.
use siglatch.Prelude.{
  ℕ, ◌≤◌, ◌≡◌, refl, Bool, true, false, ◌||◌, ◌&&◌, ◌==◌, leb, if◌then◌else◌, none, some, [], ◌∷◌,
  length, take, replicate, arith,
}
use siglatch.M7mux.Packet.{Bytes, Control}
use siglatch.M7mux.Ingress.{Datagram}
use siglatch.Codec.Unit.{NormalizedUnit, zero_unit}
use siglatch.Codec.Body.{carried}
use siglatch.Codec.Exchange.{OpensslSession, Library, Random, sign_body, decoded}
use siglatch.Codec.Exchange.RoundTrip.{IsPaired, int_max}
use siglatch.Codec.V3.Transfer as V3Transfer
use siglatch.Codec.V3.Transfer.RoundTrip.{encode-decode_v3}
use siglatch.Codec.V4
use siglatch.Codec.V4.Fragments.{join, payload_of, choose_fragment-fits, choose_fragment-join}

abbrev pub datagram : Datagram
datagram = record {
  buffer = [];
  received_ms = 9;
  ip = 49 ∷ [];
  client_port = 7;
  encrypted = false;
  magic = 0;
  version = 0;
  form = 0;
}

-- AES-GCM with a key of 16, 24 or 32 bytes that hides nothing, where the sizes fit an `int`.
abbrev is_accepted : Bytes → Bytes → Bytes → Bytes → Bool
is_accepted key nonce aad text =
    ((length key == 16) || ((length key == 24) || (length key == 32)))
    && (leb (length nonce) int_max && (leb (length aad) int_max && leb (length text) int_max))

accepts :
    (key nonce aad text : Bytes)
    → length key ≡ 32
    → length nonce ≡ 12
    → length aad ≤ int_max
    → length text ≤ int_max
    → is_accepted key nonce aad text ≡ true
accepts key nonce aad text k n a t = ground arith

-- A library that hides nothing.
abbrev pub plain : Library
plain = record {
  session_encrypt = λ s key. some key;
  session_decrypt = λ s wrapped. some wrapped;
  aesgcm_encrypt = λ key nonce aad plaintext.
      if is_accepted key nonce aad plaintext then some (plaintext, replicate 16 0) else none;
  aesgcm_decrypt = λ key nonce aad ciphertext tag.
      if is_accepted key nonce aad ciphertext then some ciphertext else none;
  generate_digest = λ normal. some (replicate 32 2);
  sign = λ key digest. some (replicate 32 3);
}

abbrev pub session : OpensslSession
session = record { id = 1; has_public_key = true; hmac_key = replicate 32 4 }

pub plain-IsPaired : IsPaired plain session session
plain-IsPaired = record {
  wraps = λ key h. (key, refl, refl, omega (arith, h), omega (arith, h));
  seals = λ key nonce aad plaintext k n a t. (
    plaintext,
    replicate 16 0,
    rw (accepts key nonce aad plaintext k n a t) refl,
    rw (accepts key nonce aad plaintext k n a t) refl,
    refl,
    refl,
  );
}

-- A unit of version 4 that is to be signed.
abbrev unit : NormalizedUnit
unit = record zero_unit {
  wire_version = 0x00040000;
  wire_form = 1;
  session_id = 11;
  message_id = 12;
  stream_id = 13;
  fragment_index = 0;
  fragment_count = 1;
  timestamp = 14;
  user_id = 15;
  action_id = 16;
  challenge = 17;
  wire_auth = true;
  payload = 104 ∷ 105 ∷ [];
}

abbrev signed : NormalizedUnit
signed = record unit { hmac = replicate 32 3 }

abbrev pub random : Random
random = record { cek = some (replicate 32 1); nonce = some (replicate 12 2) }

abbrev pub control : Control
control = record { stream_type = 5; session_by_client = 0 }

abbrev unit_v3 : NormalizedUnit
unit_v3 = record signed { wire_version = 0x00030000; wire_auth = false }

encode-decode_v3_example :
    (out : Bytes × ℕ) × (V3Transfer.encode plain (some session) random unit_v3 (replicate 858 0)
      ≡ some out)
    × (out.1 ≤ 858)
    × (V3Transfer.decode plain (some session) (record datagram { buffer = take out.1 out.0 })
        ≡ decoded (V3Transfer.received (carried zero_unit unit_v3 (49 ∷ []) 7)))
unfolding sign_body
encode-decode_v3_example =
    encode-decode_v3 plain session session (replicate 32 1) (replicate 12 2) (replicate 858 0)
      unit_v3 unit_v3 datagram plain-IsPaired refl refl refl refl refl
      (record {
        timestamp_fits = omega arith;
        user_id_fits = omega arith;
        challenge_fits = omega arith;
        hmac_length = refl;
        payload_fits = omega arith;
      })
      (omega arith)

-- Seven bytes in three fragments.
abbrev long : NormalizedUnit
long = record unit { payload = 1 ∷ 2 ∷ 3 ∷ 4 ∷ 5 ∷ 6 ∷ 7 ∷ [] }

choose_fragment-fits_example :
    (fragment : NormalizedUnit) × (V4.choose_fragment long 0 3 ≡ some fragment)
    × (length fragment.payload ≤ 512)
    × (fragment.complete ≡ false)
unfolding V4.count_fragments V4.required_fragments
choose_fragment-fits_example = choose_fragment-fits long 3 0 refl refl (omega arith)

choose_fragment-join_example :
    join (λ i. payload_of (V4.choose_fragment long i 3)) 0 3 ≡ 1 ∷ 2 ∷ 3 ∷ 4 ∷ 5 ∷ 6 ∷ 7 ∷ []
unfolding V4.count_fragments V4.required_fragments
choose_fragment-join_example = choose_fragment-join long 3 refl refl (omega arith)

-- The shares are three, two and two bytes.
choose_fragment-first :
    V4.choose_fragment long 0 3
    ≡ some (record long {
      fragment_index = 0;
      fragment_count = 3;
      complete = false;
      payload = 1 ∷ 2 ∷ 3 ∷ [];
    })
unfolding V4.choose_fragment V4.count_fragments V4.required_fragments V4.fragment_of
    V4.fragment_offset V4.fragment_payload_len
choose_fragment-first = refl
