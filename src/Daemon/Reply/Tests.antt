-- ===== src/Daemon/Reply/Tests.antt =====
-- src/siglatch/app/daemon/runner.c: a reply of 200 bytes, and one that is sent.
use siglatch.Prelude.{ℕ, ◌+◌, ◌≡◌, refl, Bool, true, replicate, arith}
use siglatch.M7mux.Packet.{SendPacket}
use siglatch.M7mux.Outbox.{SendBytesPacket}
use siglatch.Daemon.Job.{ConnectionJob, zero_job}
use siglatch.Daemon.Reply.{
  Turn, reply_turn, stage_outbox_reply, copy_job_reply_to_send, stage_flushing,
}
use siglatch.Daemon.Reply.{reply_turn-gives_up}

-- An outbox that counts what it takes, and has room.
abbrev take_packet : ℕ → SendPacket → ℕ × Bool
take_packet n send = (n + 1, true)

abbrev take_bytes : ℕ → SendBytesPacket → ℕ × Bool
take_bytes n send = (n + 1, true)

abbrev flush : ℕ → ℕ × Bool
flush n = (0, true)

abbrev answered_with : ℕ → ConnectionJob
answered_with n = record zero_job {
  wire_version = 1;
  should_reply = true;
  response = record { bytes = replicate n 46; allocated = true; cap = 1280 };
}

reply_turn-short : reply_turn flush take_packet take_bytes 0 (answered_with 199) ≡ (1, Turn.goes_on)
unfolding reply_turn stage_outbox_reply copy_job_reply_to_send stage_flushing
reply_turn-short = refl

reply_turn-gives_up_example :
    reply_turn flush take_packet take_bytes 0 (answered_with 200) ≡ (0, Turn.gives_up)
reply_turn-gives_up_example =
    reply_turn-gives_up flush take_packet take_bytes 0 (answered_with 200) (λ e. absurd (cc))
      (omega arith)
