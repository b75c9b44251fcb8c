-- ===== src/Initfs/Nbd/Tests.antt =====
-- The wait on a host whose block device never gets a size.
use void_init.Base.{◌<◌, ◌≡◌, ◌⊎◌, true, false, [], Error, ok, err}
use void_init.Os.Memory.{Host, memory}
use void_init.Initfs.Nbd.{attached, settled, wait_for_nbd_size}
use void_init.Initfs.Nbd.Memory.{clock, clock-ClockLaws}
use void_init.Initfs.Nbd.Laws.{wait_for_nbd_size-ends}

abbrev host : Host
host = record {
  files = [];
  path = [];
  commands = [];
  logged = [];
  time = 0;
  handles = [];
  owners = [];
}

wait_for_nbd_size-ends_example :
    ((wait_for_nbd_size memory clock attached host).0 ≡ ok tt)
      × (settled memory clock attached (wait_for_nbd_size memory clock attached host).1 ≡ true)
    ⊎ ((e : Error) × ((wait_for_nbd_size memory clock attached host).0 ≡ err e)
        × (settled memory clock attached (wait_for_nbd_size memory clock attached host).1 ≡ false)
        × (5000 < (wait_for_nbd_size memory clock attached host).1.time))
wait_for_nbd_size-ends_example = wait_for_nbd_size-ends memory clock clock-ClockLaws attached host
