-- ===== src/CharDrv.antt =====
-- device_driver/char_drv.c: a character device that one file at a time may have open, with a message
-- of 80 bytes that is written, read, and reached by ioctl.
pub mod Message
pub mod Openers
pub mod Lifetime
pub mod ShareData
mod Tests
use mad_devicedriver.Prelude.{
  ℕ, zero, suc, ◌+◌, List, [], ◌∷◌, ◌++◌, Bool, true, false, Option, none, some, ◌==◌, leb, not,
  if◌then◌else◌, length, drop, splice, get_elem?,
}
use mad_devicedriver.Prelude.Text.{span}
use mad_devicedriver.Kernel.{Errno, eperm, enomem, ebusy, Ret, value, error, Outcome, done, overrun}
use mad_devicedriver.Setup.{
  if_granted, region, class, cdev, device, gpio, irq, kobject, files, Resource, Call, acquire,
  release,
}

abbrev pub buf_len : ℕ
buf_len = 80

-- `atomic_cmpxchg(&already_open, CDEV_NOT_USED, CDEV_EXCLUSIVE_OPEN)`: what is returned, and the flag.
unfoldable pub test_open : ℕ → Ret × ℕ
test_open already_open = if already_open == 0 then (value 0, 1) else (error ebusy, already_open)

unfoldable pub test_release : ℕ → Ret × ℕ
test_release already_open = (value 0, 0)

-- Whether a NUL ends the text in the buffer; a reader that looks for it leaves the buffer otherwise.
abbrev pub has_nul : List ℕ → Bool
has_nul [] = false
has_nul (c ∷ cs) = if c == 0 then true else has_nul cs

-- `user i` is the byte at address `i` of user memory, and 0 where there is none: get_user and
-- copy_from_user leave zeros after a fault, and their results are not looked at. The text is logged
-- with "%s". What is returned, `i`, is never set, and not modelled.
unfoldable pub test_write : List ℕ → (ℕ → ℕ) → ℕ → ℕ → Outcome (List ℕ)
test_write message user buffer bufsize =
    let message' = splice message 0 (span user buffer bufsize) in
    if not (leb bufsize (length message))
    then overrun
    else if has_nul message'
    then done message'
    else overrun

-- The loop over `length && *message_ptr`: the bytes put.
abbrev pub read_loop : ℕ → List ℕ → Outcome (List ℕ)
read_loop zero rest = done []
read_loop (suc length) [] = overrun
read_loop (suc length) (c ∷ rest) =
    let later = read_loop length rest in
    if c == 0 then done [] else elim later [ done cs ↦ done (c ∷ cs) | overrun ↦ overrun ]

-- What is returned, the bytes put at the user's buffer, and `*offset`.
unfoldable pub test_read : List ℕ → ℕ → ℕ → Outcome (ℕ × List ℕ × ℕ)
test_read message n offset = elim (get_elem? message offset) [
  | none ↦ overrun
  | some c ↦ if c == 0 then done (0, [], 0) else elim (read_loop n (drop offset message)) [
    | overrun ↦ overrun
    | done cs ↦ done (length cs, cs, offset + length cs)
  ]
]

pub data Command : Type 0 where
  ioctl_set_msg ioctl_get_msg ioctl_get_nth_byte other : Command

-- The loop over `ch && i < BUF_LEN` that measures the text, with `BUF_LEN - i` rounds to go: how many
-- rounds it takes.
abbrev pub count_loop : ℕ → (ℕ → ℕ) → ℕ → ℕ → ℕ
count_loop zero user ch tmp = 0
count_loop (suc rounds) user ch tmp =
    if ch == 0 then 0 else suc (count_loop rounds user (user tmp) (suc tmp))

-- What is returned, the bytes put at address `ioctl_param`, and the message.
unfoldable pub test_ioctl : List ℕ → (ℕ → ℕ) → Command → ℕ → Outcome (ℕ × List ℕ × List ℕ)
unfolding test_write test_read
test_ioctl message user ioctl_set_msg ioctl_param =
    elim (test_write message user ioctl_param
      (count_loop buf_len user (user ioctl_param) ioctl_param)) [
        | overrun ↦ overrun
        | done message' ↦ done (0, [], message')
      ]
test_ioctl message user ioctl_get_msg ioctl_param = elim (test_read message 99 0) [
  | overrun ↦ overrun
  | done (i, cs, offset) ↦ done (0, cs ++ 0 ∷ [], message)
]
test_ioctl message user ioctl_get_nth_byte ioctl_param = elim (get_elem? message ioctl_param) [
  | none ↦ overrun
  | some c ↦ done (c, [], message)
]
test_ioctl message user other ioctl_param = done (0, [], message)

-- What a kernel function that returns a pointer gives.
pub data Pointer : Type 0 where
  null at : Pointer
  err_ptr : Errno → Pointer

-- How the kernel answers `param_init`.
pub record Answers : Type 0 where
  pub register_chrdev_region : Option Errno
  pub class_create : Pointer
  pub device_create : Pointer
  pub cdev_add : Option Errno
  pub gpio_request : ℕ → Option Errno
  pub request_irq : ℕ → Option Errno
  pub kobject_create : Bool
  pub sysfs_create_file : Option Errno

abbrev pub led_blue : ℕ
led_blue = 299

abbrev pub led_red : ℕ
led_red = 301

-- Every failure is only logged; an interrupt is named by its line.
unfoldable pub set_gpio_interrupt : Answers → List Call
set_gpio_interrupt k =
    if_granted (k.gpio_request led_blue) (acquire (gpio led_blue) ∷ [])
    ++ (if_granted (k.request_irq led_blue) (acquire (irq led_blue) ∷ [])
        ++ (if_granted (k.gpio_request led_red) (acquire (gpio led_red) ∷ [])
            ++ if_granted (k.request_irq led_red) (acquire (irq led_red) ∷ [])))

-- From `cdev_add` on. Only a result of -1 counts as a failure there.
unfoldable pub add_cdev : Answers → Ret × List Call
unfolding set_gpio_interrupt
add_cdev k =
    let lines = set_gpio_interrupt k in
    let added : List Call = if_granted k.cdev_add (acquire (cdev 0) ∷ []) in
    let refused : Bool = elim k.cdev_add [ none ↦ false | some e ↦ e == 1 ] in
    if refused
    then (error eperm, release (device 0) ∷ release class ∷ release region ∷ [])
    else if not k.kobject_create
    then (error enomem, added ++ lines)
    else (
      value 0,
      added
          ++ (lines ++ (acquire kobject ∷ if_granted k.sysfs_create_file (acquire (files 0) ∷ []))),
    )

-- From `device_create` on. A NULL gives the class and the region back, and goes on.
unfoldable pub create_device : Answers → Ret × List Call
unfolding add_cdev
create_device k =
    let (ret, calls) = add_cdev k in
    elim k.device_create [
      | null ↦ (ret, release class ∷ release region ∷ calls)
      | at ↦ (ret, acquire (device 0) ∷ calls)
      | err_ptr e ↦ (ret, calls)
    ]

-- `overrun` where an ERR_PTR of class_create, which only NULL is tested for, is used as a class.
unfoldable pub param_init : Answers → Outcome (Ret × List Call)
unfolding create_device
param_init k = elim k.register_chrdev_region [
  | some e ↦ done (error eperm, [])
  | none ↦ elim k.class_create [
    | null ↦ done (error eperm, acquire region ∷ release region ∷ [])
    | err_ptr e ↦ overrun
    | at ↦ done ((create_device k).0, acquire region ∷ acquire class ∷ (create_device k).1)
  ]
]

-- kobject_put takes the attribute file with it.
unfoldable pub param_exit : List Call
param_exit =
    release (files 0)
    ∷ release kobject
    ∷ release (irq led_blue)
    ∷ release (irq led_red)
    ∷ release (gpio led_blue)
    ∷ release (gpio led_red)
    ∷ release (device 0)
    ∷ release class
    ∷ release region
    ∷ []
