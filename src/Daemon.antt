-- ===== src/Daemon.antt =====
-- src/siglatch/app/daemon: what the server does with the units that the multiplexer hands out.
pub mod Buffer
pub mod Job
pub mod Digest
pub mod Access
pub mod Reply
