-- ===== src/SkelDrv.antt =====
-- device_driver/usb_skel_drv.c: reads of a USB device through one bulk URB, with the errors that reads
-- and writes share. The writes stand in Write, the lifetime of the device's structure in Life.
pub mod Buffer
pub mod Stream
pub mod Write
pub mod History
pub mod Returns
pub mod Settled
pub mod Ends
pub mod Life
pub mod Lifetime
mod Tests
use mad_devicedriver.Prelude.{
  ℕ, zero, suc, ◌+◌, ◌-◌, List, [], ◌∷◌, ◌++◌, Bool, true, false, not, Option, none, some, ◌==◌,
  ltb, if◌then◌else◌, length, slice, splice,
}
use mad_devicedriver.Kernel.{Errno, enomem, efault, eintr, Ret, value, error}
use mad_devicedriver.PenDrv.{min_of}
use mad_devicedriver.PciDrv.{eio}

abbrev pub eagain : Errno
eagain = 11

abbrev pub enodev : Errno
enodev = 19

abbrev pub epipe : Errno
epipe = 32

abbrev pub erestartsys : Errno
erestartsys = 512

-- The fields of `struct usb_skel` that reads and writes use. `errors` has the error number, 0 for
-- none; `transfer_size` is the size of the transfer that `bulk_in_urb` was filled for; `limit_sem` is
-- the count of the semaphore, and `submitted` the number of URBs at the anchor.
pub record Skel : Type 0 where
  pub bulk_in_buffer : List ℕ
  pub bulk_in_size : ℕ
  pub bulk_in_filled : ℕ
  pub bulk_in_copied : ℕ
  pub transfer_size : ℕ
  pub errors : Errno
  pub ongoing_read : Bool
  pub disconnected : Bool
  pub limit_sem : ℕ
  pub submitted : ℕ

-- How the USB core ends a transfer: the status of the URB, 0 or an error, and the bytes received.
pub record Transfer : Type 0 where
  pub status : Errno
  pub received : List ℕ

-- By the URB's `status` and `actual_length`.
abbrev pub skel_read_bulk_callback : Skel → Errno → ℕ → Skel
skel_read_bulk_callback dev status actual_length =
    if status == 0
    then record dev { bulk_in_filled = actual_length; ongoing_read = false }
    else record dev { errors = status; ongoing_read = false }

-- The bytes of a transfer are in the buffer when the callback is called.
abbrev pub complete : Skel → Transfer → Skel
complete dev t =
    skel_read_bulk_callback (record dev { bulk_in_buffer = splice dev.bulk_in_buffer 0 t.received })
      t.status (length t.received)

-- `submitted` is the answer of usb_submit_urb: 0, or an error.
unfoldable pub skel_do_read_io : Skel → ℕ → Errno → Errno × Skel
skel_do_read_io dev count submitted =
    let filled : Skel = record dev {
      transfer_size = min_of dev.bulk_in_size count;
      ongoing_read = true;
      bulk_in_filled = 0;
      bulk_in_copied = 0;
    } in
    if submitted == 0
    then (0, filled)
    else (if submitted == enomem then enomem else eio, record filled { ongoing_read = false })

-- What happens around one pass of the code from the label `retry` on: the transfer under way may end
-- before the pass begins; if the pass waits, the wait ends with the transfer, or on a signal (`none`);
-- and the answer to a transfer that the pass submits.
pub record Pass : Type 0 where
  pub early : Option Transfer
  pub awaited : Option Transfer
  pub submitted : Errno

-- A call of `skel_read`: `locked` and `granted` say whether mutex_lock_interruptible and copy_to_user
-- succeed.
pub record Request : Type 0 where
  pub count : ℕ
  pub nonblock : Bool
  pub locked : Bool
  pub granted : Bool

-- A call of `skel_read` as far as it got: what it returns, the bytes handed to copy_to_user, the bytes
-- that transfers brought meanwhile, and the device. `none` is a call that still waits.
pub record Progress : Type 0 where
  pub ret : Option Ret
  pub handed : List ℕ
  pub arrived : List ℕ
  pub dev : Skel

abbrev pub finish : Ret → Skel → Progress
finish ret dev = record { ret = some ret; handed = []; arrived = []; dev = dev }

-- The data that a transfer brings: none if its status is an error.
abbrev pub brought : Transfer → List ℕ
brought t = if t.status == 0 then t.received else []

-- The end of a transfer before the pass, if one is under way and it ends: the data and the device.
unfoldable pub arrive : Skel → Option Transfer → List ℕ × Skel
arrive dev none = ([], dev)
arrive dev (some t) = if dev.ongoing_read then (brought t, complete dev t) else ([], dev)

-- A pass either ends the call or goes to `retry`.
pub data Next : Type 0 where
  exit : Ret → List ℕ → Skel → Next
  retry : Skel → Next

-- The answer of `skel_do_read_io` where the call waits for the data.
abbrev pub submit_and_retry : Errno × Skel → Next
submit_and_retry (zero, dev) = retry dev
submit_and_retry (suc e, dev) = exit (error (suc e)) [] dev

-- From the look at `errors` to the end of the pass: no transfer is under way.
unfoldable pub serve : Skel → Request → Errno → Next
serve dev r submitted =
    let available : ℕ = dev.bulk_in_filled - dev.bulk_in_copied in
    let chunk : ℕ = min_of available r.count in
    let bytes = slice dev.bulk_in_buffer dev.bulk_in_copied chunk in
    let copied : Skel = record dev { bulk_in_copied = dev.bulk_in_copied + chunk } in
    let ret : Ret = if r.granted then value chunk else error efault in
    if not (dev.errors == 0)
    then exit (error (if dev.errors == epipe then epipe else eio)) [] (record dev { errors = 0 })
    else if dev.bulk_in_filled == 0
    then submit_and_retry (skel_do_read_io dev r.count submitted)
    else if available == 0
    then submit_and_retry (skel_do_read_io dev r.count submitted)
    else if ltb available r.count
    then exit ret bytes (skel_do_read_io copied (r.count - chunk) submitted).1
    else exit ret bytes copied

-- The wait of a pass, if a transfer is under way: the data it brings and the device, or the error.
unfoldable pub await : Skel → Bool → Option Transfer → Option Errno × List ℕ × Skel
await dev nonblock awaited =
    if dev.ongoing_read
    then if nonblock then (some eagain, [], dev) else elim awaited [
      | none ↦ (some erestartsys, [], dev)
      | some t ↦ (none, brought t, complete dev t)
    ]
    else (none, [], dev)

-- A pass: the bytes that transfers bring, and how it ends.
unfoldable pub pass : Skel → Request → Pass → List ℕ × Next
pass dev r p =
    let (before, dev1) = arrive dev p.early in
    let (refused, during, dev2) = await dev1 r.nonblock p.awaited in
    (
      before ++ during,
      elim refused [ some e ↦ exit (error e) [] dev2 | none ↦ serve dev2 r p.submitted ],
    )

-- From the label `retry` to the label `exit`.
unfoldable pub read_loop : Skel → Request → List Pass → Progress
read_loop dev r [] = record { ret = none; handed = []; arrived = []; dev = dev }
read_loop dev r (p ∷ ps) =
    let (arrived, next) = pass dev r p in
    elim next [
      | exit ret handed dev' ↦ record {
        ret = some ret;
        handed = handed;
        arrived = arrived;
        dev = dev';
      }
      | retry dev' ↦
          let rest = read_loop dev' r ps in record rest { arrived = arrived ++ rest.arrived }
    ]

unfoldable pub skel_read : Skel → Request → List Pass → Progress
skel_read dev r ps =
    let progress = read_loop dev r ps in
    if r.count == 0
    then finish (value 0) dev
    else if not r.locked
    then finish (error eintr) dev
    else if dev.disconnected
    then finish (error enodev) dev
    else progress

-- usb_wait_anchor_empty_timeout and usb_kill_anchored_urbs end the writes; usb_kill_urb ends the read,
-- if one is under way, with the transfer given.
abbrev pub skel_draw_down : Skel → Transfer → Skel
skel_draw_down dev t = if dev.ongoing_read then complete dev t else dev

-- `file->private_data` is there.
abbrev pub skel_flush : Skel → Transfer → Ret × Skel
skel_flush dev t =
    let drained = skel_draw_down dev t in
    let e : Errno = drained.errors in
    (
      if e == 0 then value 0 else if e == epipe then error epipe else error eio,
      record drained { errors = 0 },
    )

abbrev pub skel_suspend : Skel → Transfer → Skel
skel_suspend dev t = skel_draw_down dev t

-- With the mutex held until `skel_post_reset`.
abbrev pub skel_pre_reset : Skel → Transfer → Skel
skel_pre_reset dev t = skel_draw_down dev t

abbrev pub skel_post_reset : Skel → Skel
skel_post_reset dev = record dev { errors = epipe }

-- From `dev->disconnected = 1` on; the writes end at usb_kill_anchored_urbs.
abbrev pub stop_io : Skel → Transfer → Skel
stop_io dev t = skel_draw_down (record dev { disconnected = true }) t
