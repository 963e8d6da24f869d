-- ===== src/PenDrv.antt =====
-- device_driver/usb_drv.c: reads and writes of a USB device through one buffer of 512 bytes.
pub mod Bulk
mod Tests
use mad_devicedriver.Prelude.{
  ℕ, List, [], ◌∷◌, Option, none, some, ◌==◌, not, leb, if◌then◌else◌, length, take, splice,
}
use mad_devicedriver.Kernel.{Errno, efault, Ret, value, error, Uaccess}
use mad_devicedriver.Setup.{driver, minor, Call, acquire, release}

abbrev pub max_pkt_size : ℕ
max_pkt_size = 512

-- `MIN(a,b)`, of a `size_t` and a count that is not negative.
abbrev pub min_of : ℕ → ℕ → ℕ
min_of a b = if leb a b then a else b

module _ {Mem : Type 0} (u : Uaccess Mem) where
  -- `received` is what usb_bulk_msg gives: an error, or the bytes of a packet. What is returned, user
  -- memory, and `bulk_buf`.
  unfoldable pub pen_read : List ℕ → Errno × List ℕ → Mem → ℕ → ℕ → Ret × Mem × List ℕ
  pen_read bulk_buf (retval, received) mem buf cnt =
      let bulk_buf' = splice bulk_buf 0 received in
      let n : ℕ = min_of cnt (length received) in
      let (left, mem') = u.copy_to_user mem buf (take n bulk_buf') in
      if not (retval == 0)
      then (error retval, mem, bulk_buf')
      else if not (left == 0)
      then (error efault, mem', bulk_buf')
      else (value n, mem', bulk_buf')

  -- `send` is usb_bulk_msg by the bytes it is given: an error number or 0, and `wrote_cnt` afterwards.
  -- What is returned, the bytes handed to it, and `bulk_buf`.
  unfoldable pub pen_write :
      List ℕ → (List ℕ → Errno × ℕ) → Mem → ℕ → ℕ → Ret × Option (List ℕ) × List ℕ
  pen_write bulk_buf send mem buf cnt =
      let n : ℕ = min_of cnt max_pkt_size in
      let (left, bytes) = u.copy_from_user mem buf n in
      let bulk_buf' = splice bulk_buf 0 bytes in
      let packet = take n bulk_buf' in
      if not (left == 0)
      then (error efault, none, bulk_buf')
      else (value (send packet).1, some packet, bulk_buf')

-- usb_register_dev, and its result.
abbrev pub pen_probe : Option Errno → Ret × List Call
pen_probe (some e) = (error e, [])
pen_probe none = (value 0, acquire minor ∷ [])

abbrev pub pen_disconnect : List Call
pen_disconnect = release minor ∷ []

abbrev pub pen_init : Option Errno → Ret × List Call
pen_init (some e) = (error e, [])
pen_init none = (value 0, acquire driver ∷ [])

abbrev pub pen_exit : List Call
pen_exit = release driver ∷ []
