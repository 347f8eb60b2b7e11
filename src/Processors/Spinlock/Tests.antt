-- ===== src/Processors/Spinlock/Tests.antt =====
-- Two processors: the witness of the theorem.
use potat_os.Prelude.{true}
use potat_os.Processors.Spinlock.{spinning, inside, System, update, init}

-- Processor 0 is inside, and processor 1 in the loop.
abbrev contended : System
contended = record {
  lock = true;
  pc = update (update (update init.pc 0 spinning) 0 inside) 1 spinning;
}
