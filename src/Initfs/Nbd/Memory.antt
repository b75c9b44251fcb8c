-- ===== src/Initfs/Nbd/Memory.antt =====
-- A clock for the host in memory, on which a sleep takes exactly its time.
use void_init.Base.{◌+◌, arith}
use void_init.Os.Memory.{Host, memory}
use void_init.Initfs.Nbd.{Clock, ClockLaws}

abbrev pub clock : Clock memory
clock = record { now = Host.time; sleep = λ d h. record h { time = h.time + d } }

abbrev pub clock-ClockLaws : ClockLaws memory clock
clock-ClockLaws = record { now-sleep = λ d s. omega arith }
