-- ===== src/Daemon/Job/Tests.antt =====
-- src/siglatch/app/daemon/job.c: the theorems on the queue of jobs at inputs.
use siglatch.Prelude.{
  ℕ, ◌≡◌, ◌<◌, ◌⊎◌, Bool, true, false, [], ◌∷◌, ◌++◌, length, length-replicate, replicate, some,
  arith,
}
use siglatch.M7mux.Packet.{RecvPacket, zero_packet}
use siglatch.Daemon.Job.{ConnectionJob, zero_job, state_init, enqueue}
use siglatch.Daemon.Job.Fifo.{waiting, carried, IsValid, IsJobOf, IsRefused, enqueue-waiting}

abbrev always : ℕ → Bool
always size = true

abbrev knock : RecvPacket
knock = record zero_packet {
  wire_version = 0x00040000;
  session_id = 5;
  user = some (record {
    user_id = 7;
    action_id = 3;
    challenge = 11;
    hmac = replicate 32 9;
    payload = 104 ∷ 105 ∷ [];
  });
}

state_init-IsValid : IsValid state_init
unfolding state_init
state_init-IsValid = record {
  full = length-replicate 64 zero_job;
  head_in = omega arith;
  tail_at = omega arith;
  fits = omega arith;
}

enqueue-waiting_example :
    IsValid (enqueue always state_init knock).0
    × ((((enqueue always state_init knock).1 ≡ true)
          × (length (waiting state_init) < 64)
          × ((job : ConnectionJob) × IsJobOf knock job
              × (waiting (enqueue always state_init knock).0 ≡ waiting state_init ++ (job ∷ []))))
        ⊎ (((enqueue always state_init knock).1 ≡ false)
            × (waiting (enqueue always state_init knock).0 ≡ waiting state_init)
            × ((length (waiting state_init) ≡ 64) ⊎ IsRefused always (carried knock))))
enqueue-waiting_example = enqueue-waiting always state_init knock state_init-IsValid
