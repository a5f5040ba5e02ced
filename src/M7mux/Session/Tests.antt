-- ===== src/M7mux/Session/Tests.antt =====
-- src/stdlib/protocol/udp/m7mux/session/session.c: the theorems at inputs.
use siglatch.Prelude.{ℕ, ◌+◌, ◌%◌, ◌^◌, ◌==◌, ◌≡◌, refl, inr, true, some, [], ◌∷◌, arith, find_slot}
use siglatch.M7mux.Packet.{RecvPacket, Control, zero_packet}
use siglatch.M7mux.Session.{
  Session, SessionState, session_capacity, state_init, ingest, ingest_as, find, register,
  register_by_id, register_raw, open_session, find_by_client_session, find_raw_by_ip, assign_id,
  bump_next, new_session, touch, anchor, refresh,
}
use siglatch.M7mux.Session.Inv.{IsSound, ingest-IsSound, state_init-IsSound}
use siglatch.M7mux.Session.Client.{ingest-find, ingest_twice-client}

-- A structured unit of version 4 from the client's session 9.
abbrev unit : RecvPacket
unit = record zero_packet {
  session_id = 9;
  wire_version = 4;
  wire_form = 1;
  ip = 49 ∷ 50 ∷ [];
  client_port = 4000;
}

abbrev by_client : Control
by_client = record { stream_type = 0; session_by_client = 1 }

-- The client's session is open.
opened : SessionState
opened = (ingest state_init by_client unit 5000).0

ingest-IsSound_example : IsSound (ingest state_init by_client unit 5000).0
unfolding state_init
ingest-IsSound_example =
    ingest-IsSound state_init by_client unit 5000 state_init-IsSound (omega arith) (omega arith)

ingest_twice-client_example :
    (packet' : RecvPacket) × ((ingest
        (ingest state_init by_client unit 5000).0
        by_client
        unit
        6000).1
      ≡ some packet')
    × (packet'.session_id ≡ 1)
unfolding state_init session_capacity ingest ingest_as register register_by_id register_raw
    open_session find_by_client_session find_raw_by_ip assign_id bump_next new_session touch anchor
    refresh find_slot
ingest_twice-client_example =
    ingest_twice-client state_init by_client by_client unit unit (record unit { session_id = 1 })
      5000 6000 (ground arith) (ground arith) (ground arith) (ground arith) refl refl refl refl

-- A unit without a session, from the server's side.
abbrev stranger : RecvPacket
stranger = record unit { session_id = 0 }

abbrev by_server : Control
by_server = record { stream_type = 0; session_by_client = 0 }

ingest-find_example :
    (i : ℕ) × (s : Session) × (find (ingest state_init by_server stranger 5000).0.sessions 1
      ≡ some (i, s))
    × (s.active ≡ true)
    × (s.last_active_ms ≡ 5000)
    × (s.expires_at_ms ≡ (5000 + 30000) % 2 ^ 64)
    × (true ≡ (0 == 0))
unfolding state_init session_capacity ingest ingest_as register register_by_id register_raw
    open_session find_by_client_session find_raw_by_ip assign_id bump_next new_session touch anchor
    refresh find_slot find
ingest-find_example =
    ingest-find state_init by_server stranger 5000
      (record unit { session_id = 1; synthetic_session = true }) state_init-IsSound (omega arith)
      (omega arith) (inr refl) refl
