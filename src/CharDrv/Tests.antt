-- ===== src/CharDrv/Tests.antt =====
-- Runs of char_drv.c.
use mad_devicedriver.Prelude.{
  ℕ, ◌+◌, ◌≡◌, refl, arith, List, [], ◌∷◌, ◌++◌, Bool, true, none, some, ◌==◌, if◌then◌else◌,
  length, take, drop, splice, replicate,
}
use mad_devicedriver.Kernel.{value, error, ebusy, done}
use mad_devicedriver.Setup.{region, class, cdev, device, gpio, irq, kobject, files, Call, acquire}
use mad_devicedriver.CharDrv.{
  buf_len, test_open, test_read, ioctl_set_msg, ioctl_get_msg, test_ioctl, Answers, at, param_init,
}
use mad_devicedriver.CharDrv.Message.{message_given_back}
use mad_devicedriver.Prelude.Int.{pos, negsuc}
use mad_devicedriver.Prelude.Scan.{scan_int}
use mad_devicedriver.CharDrv.ShareData.{
  Event, stores, red, after, test_share_data_show, test_share_data_store, shown_sets_back,
}
use mad_devicedriver.CharDrv.Openers.{
  Openers, opens, fails, Reach, here, next, unopened, Inv, exclusive_open,
}

-- "abc" at address 5, with its terminator.
abbrev user : ℕ → ℕ
user i = if i == 5 then b'a' else if i == 6 then b'b' else if i == 7 then b'c' else 0

abbrev blank : List ℕ
blank = replicate 80 0

abbrev abc : List ℕ
abc = b'a' ∷ b'b' ∷ b'c' ∷ []

message_given_back_example :
    let m = splice blank 0 (abc ++ 0 ∷ []) in
    let part = take 9 (drop 1 abc) in
    (test_ioctl blank user ioctl_set_msg 5 ≡ done (0, [], m))
    × (length m ≡ buf_len)
    × (test_ioctl m user ioctl_get_msg 0 ≡ done (0, abc ++ 0 ∷ [], m))
    × (test_read m 9 1 ≡ done (length part, part, 1 + length part))
    × (test_read m 9 3 ≡ done (0, [], 0))
message_given_back_example =
    message_given_back blank user user 5 0 abc 9 1 refl (omega arith)
      (refl, omega arith, (refl, omega arith, (refl, omega arith, refl))) (omega arith)

-- One file is open, and a second open failed.
abbrev one_open : Openers
one_open = record { already_open = 1; files = 1 }

Reach-one_open : Reach unopened one_open
unfolding test_open
Reach-one_open = next (next here (opens refl)) (fails refl)

exclusive_open_example :
    Inv one_open × ((test_open 1).0 ≡ (if 1 == 0 then value 0 else error ebusy))
exclusive_open_example = exclusive_open Reach-one_open

-- Everything is granted, but for the interrupt of the red line.
abbrev granting : Bool → Answers
granting kobject_create = record {
  register_chrdev_region = none;
  class_create = at;
  device_create = at;
  cdev_add = none;
  gpio_request = λ n. none;
  request_irq = λ n. if n == 301 then some 16 else none;
  kobject_create = kobject_create;
  sysfs_create_file = none;
}

abbrev loading : List Call
loading =
    acquire region
    ∷ acquire class
    ∷ acquire (device 0)
    ∷ acquire (cdev 0)
    ∷ acquire (gpio 299)
    ∷ acquire (irq 299)
    ∷ acquire (gpio 301)
    ∷ acquire kobject
    ∷ acquire (files 0)
    ∷ []

loads : param_init (granting true) ≡ done (value 0, loading)
unfolding param_init
loads = refl

-- 2^32 + 5 is stored, the red line interrupts, and -42 is stored.
abbrev events : List Event
events =
    stores (b'4' ∷ b'2' ∷ b'9' ∷ b'4' ∷ b'9' ∷ b'6' ∷ b'7' ∷ b'3' ∷ b'0' ∷ b'1' ∷ []) 10
    ∷ red
    ∷ stores (b' ' ∷ b'-' ∷ b'4' ∷ b'2' ∷ b'\n' ∷ []) 5
    ∷ []

events_run : after (pos 0) events ≡ negsuc 41
unfolding after test_share_data_store scan_int
events_run = refl

shown_sets_back_example :
    test_share_data_store (pos 7) (test_share_data_show (after (pos 0) events)).1 4
    ≡ (4, after (pos 0) events)
shown_sets_back_example = shown_sets_back events (pos 7) 4
