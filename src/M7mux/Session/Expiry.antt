-- ===== src/M7mux/Session/Expiry.antt =====
-- src/stdlib/protocol/udp/m7mux/session/session.c: `m7mux_session_expire` ends the sessions whose time
-- is over, all of them and no others.
use siglatch.Prelude.{ℕ, if◌then◌else◌}
use siglatch.M7mux.Session.{Session, zero_session, is_stale}

abbrev pub ended : ℕ → Session → Session
ended now_ms s = if is_stale now_ms s then zero_session else s
