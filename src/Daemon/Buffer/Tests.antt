-- ===== src/Daemon/Buffer/Tests.antt =====
-- src/siglatch/app/daemon/job.c: the theorems on buffers at inputs.
use siglatch.Prelude.{ℕ, Bool, true, arith}
use siglatch.Daemon.Buffer.{
  no_buffer, reserve_buffer, next_buffer_cap, IsReserved, IsGrown, next_buffer_cap-IsGrown,
  reserve_buffer-IsReserved,
}

abbrev always : ℕ → Bool
always size = true

next_buffer_cap-IsGrown_example : IsGrown 5000 (next_buffer_cap 0 5000 1280)
next_buffer_cap-IsGrown_example =
    next_buffer_cap-IsGrown 0 5000 1280 (omega arith) (omega arith) (omega arith)

reserve_buffer-IsReserved_example :
    IsReserved always no_buffer 1280 5000 (reserve_buffer always no_buffer 5000 1280)
reserve_buffer-IsReserved_example =
    reserve_buffer-IsReserved always no_buffer 5000 1280 (omega arith) (omega arith) (omega arith)
