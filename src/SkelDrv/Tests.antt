-- ===== src/SkelDrv/Tests.antt =====
-- Runs of usb_skel_drv.c: an endpoint of packets of 4 bytes.
use mad_devicedriver.Prelude.{
  ◌+◌, ◌≡◌, ◌≤◌, refl, arith, List, [], ◌∷◌, ◌++◌, inr, true, false, none, some, if◌then◌else◌,
}
use mad_devicedriver.Kernel.{Ret, value}
use mad_devicedriver.SkelDrv.{
  Skel, Request, Pass, serve, await, arrive, pass, read_loop, skel_do_read_io, skel_read,
}
use mad_devicedriver.SkelDrv.Buffer.{unread, IsValid, AllFit}
use mad_devicedriver.SkelDrv.Write.{
  writes_in_flight, write_urb, skel_write, skel_write_bulk_callback,
}
use mad_devicedriver.SkelDrv.Write
use mad_devicedriver.SkelDrv.Returns.{IsAnswer, read_answers}
use mad_devicedriver.SkelDrv.Ends.{read_ends}
use mad_devicedriver.SkelDrv.Settled.{IsSettled, write_settles}
use mad_devicedriver.SkelDrv.History.{
  Trace, fresh, Reach, here, next, reads, writes, bytes_in_order, eight_in_flight,
}
use mad_devicedriver.SkelDrv.Life
use mad_devicedriver.SkelDrv.Life.{Life, skel_probe, attached, skel_open, skel_disconnect}
use mad_devicedriver.SkelDrv.Lifetime.{held_with, freed_with_last_use}

abbrev device : Skel
device = (fresh 4).dev

-- Three bytes are asked for.
abbrev request : Request
request = record { count = 3; nonblock = false; locked = true; granted = true }

-- The transfer is submitted; then it brings four bytes.
abbrev submits : Pass
submits = record { early = none; awaited = none; submitted = 0 }

abbrev brings : Pass
brings = record {
  early = none;
  awaited = some (record { status = 0; received = 1 ∷ 2 ∷ 3 ∷ 4 ∷ [] });
  submitted = 0;
}

abbrev passes : List Pass
passes = submits ∷ brings ∷ []

device-IsValid : IsValid device
device-IsValid = record {
  sized = refl;
  fits = omega arith;
  behind = omega arith;
  asked = omega arith;
  empty = λ e. refl;
}

passes-AllFit : AllFit 4 passes
passes-AllFit = (tt, tt, (tt, omega arith, tt))

read_result : (skel_read device request passes).ret ≡ some (value 3)
unfolding skel_read read_loop pass arrive await serve skel_do_read_io
read_result = refl

read_bytes : (skel_read device request passes).handed ≡ 1 ∷ 2 ∷ 3 ∷ []
unfolding skel_read read_loop pass arrive await serve skel_do_read_io
read_bytes = refl

abbrev after_read : Trace
after_read = record {
  dev = (skel_read device request passes).dev;
  arrived = (skel_read device request passes).arrived;
  handed = (skel_read device request passes).handed;
}

reads_once : Reach 4096 (fresh 4) after_read
reads_once = next here (reads request passes passes-AllFit read_result)

bytes_in_order_example : after_read.arrived ≡ after_read.handed ++ unread after_read.dev
bytes_in_order_example = bytes_in_order 4096 4 after_read reads_once

read_answers_example : IsAnswer request (value 3) (skel_read device request passes).handed
read_answers_example =
    read_answers device request passes (value 3) device-IsValid passes-AllFit (omega arith)
      read_result

read_ends_example : (ret : Ret) × ((skel_read device request passes).ret ≡ some ret)
read_ends_example =
    read_ends device request submits [] brings [] device-IsValid passes-AllFit (inr (omega arith))

abbrev granted : Write.Answers
granted = record {
  interrupted = false;
  alloc_urb = true;
  alloc_coherent = true;
  copied = true;
  submit_urb = none;
}

write_result : (skel_write 4096 device granted false 10).0 ≡ some (value 10)
unfolding skel_write write_urb
write_result = refl

abbrev after_write : Trace
after_write = record (fresh 4) { dev = (skel_write 4096 device granted false 10).2 }

eight_in_flight_example :
    (after_write.dev.limit_sem + after_write.dev.submitted ≡ writes_in_flight)
    × (after_write.dev.submitted ≤ writes_in_flight)
eight_in_flight_example =
    eight_in_flight 4096 4 after_write (next here (writes granted false 10 write_result))

write_settles_example : IsSettled 4096 10 device 0 (skel_write 4096 device granted false 10)
write_settles_example = write_settles 4096 device granted false 10 0 (omega arith)

abbrev probed : Life.Answers
probed = record {
  alloc_dev = true;
  find_common_endpoints = none;
  alloc_buffer = true;
  alloc_urb = true;
  register_dev = none;
}

probe_result : (skel_probe probed).0 ≡ value 0
unfolding skel_probe
probe_result = refl

attached_named : (skel_open (attached probed) true none).1.named ≡ true
unfolding skel_open attached
attached_named = refl

-- A file is opened, and the device disconnected.
abbrev unplugged : Life
unplugged = skel_disconnect (skel_open (attached probed) true none).1

freed_with_last_use_example :
    (unplugged.ledger ≡ record { held = held_with unplugged.named unplugged.files; stray = [] })
    × (unplugged.kref ≡ unplugged.files + (if unplugged.named then 1 else 0))
    × (unplugged.autopm ≡ unplugged.files)
freed_with_last_use_example =
    freed_with_last_use probed unplugged probe_result
      (Life.next (Life.next Life.here (Life.opens true none)) (Life.disconnects attached_named))
