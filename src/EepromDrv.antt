-- ===== src/EepromDrv.antt =====
-- device_driver/i2c_eeprom_drv.c: a character device for an I2C device, from its probe to its removal.
pub mod Settled
mod Tests
use mad_devicedriver.Prelude.{
  ℕ, zero, suc, ◌+◌, ◌-◌, ◌/◌, ◌%◌, List, [], ◌∷◌, ◌++◌, Bool, Option, none, some, ltb, not,
  if◌then◌else◌, length,
}
use mad_devicedriver.Kernel.{
  Errno, eperm, enomem, efault, Ret, value, error, Outcome, done, overrun,
}
use mad_devicedriver.Setup.{region, class, cdev, device, Call, acquire, release}

-- How the kernel answers. (`device_create` may fail, but its result is not looked at.)
pub record Answers : Type 0 where
  pub devm_kzalloc : Bool
  pub alloc_chrdev_region : Option Errno
  pub cdev_add : Option Errno
  pub class_create : Option Errno

-- The loop over the minor numbers has one round.
unfoldable pub create_cdev : Answers → Ret × List Call
create_cdev k = elim k.alloc_chrdev_region [
  | some e ↦ (error eperm, [])
  | none ↦ elim k.cdev_add [
    | some e ↦ (error eperm, acquire region ∷ release region ∷ [])
    | none ↦ elim k.class_create [
      | some e ↦
          (error eperm, acquire region ∷ acquire (cdev 0) ∷ release (cdev 0) ∷ release region ∷ [])
      | none ↦
          (value 0, acquire region ∷ acquire (cdev 0) ∷ acquire class ∷ acquire (device 0) ∷ [])
    ]
  ]
]

unfoldable pub delete_cdev : List Call
delete_cdev = release (device 0) ∷ release class ∷ release (cdev 0) ∷ release region ∷ []

-- A NULL of devm_kzalloc is written through.
unfoldable pub i2c_probe : Answers → Outcome (Ret × List Call)
unfolding create_cdev
i2c_probe k =
    let (ret, calls) = create_cdev k in
    if not k.devm_kzalloc
    then overrun
    else elim ret [ value n ↦ done (value 0, calls) | error e ↦ done (error enomem, calls) ]

unfoldable pub i2c_remove : List Call
unfolding delete_cdev
i2c_remove = delete_cdev

-- Whether the device of the opened node has a client.
abbrev pub mydevice_open : Bool → Ret
mydevice_open client = if client then value 0 else error efault

-- A digit of "%X", and the digits of a number; 8 are enough for 32 bits.
abbrev pub hex_digit : ℕ → ℕ
hex_digit n = if ltb n 10 then b'0' + n else b'A' + (n - 10)

unfoldable pub hex_digits : ℕ → ℕ → List ℕ
hex_digits zero n = []
hex_digits (suc f) n =
    let front = hex_digits f (n / 16) in
    if ltb n 16 then hex_digit n ∷ [] else front ++ hex_digit (n % 16) ∷ []

-- "%02X".
abbrev pub hex02 : ℕ → List ℕ
hex02 n = if ltb n 16 then b'0' ∷ hex_digit n ∷ [] else hex_digits 8 n

-- "id = 0x"
abbrev pub id_text : List ℕ
id_text = b'i' ∷ b'd' ∷ b' ' ∷ b'=' ∷ b' ' ∷ b'0' ∷ b'x' ∷ []

abbrev pub mydevice_close : Ret
mydevice_close = value 0

-- What is returned, and the text put at the user's address, whatever count is asked for. `version` is
-- the `int` that i2c_smbus_read_byte_data gives, in its 32 bits: a byte, or a negated error number.
unfoldable pub mydevice_read : ℕ → ℕ → Ret × List ℕ
unfolding hex_digits
mydevice_read version count =
    let text = id_text ++ hex02 version ++ b'\n' ∷ [] in (value (length text), text)

abbrev pub mydevice_write : ℕ → Ret
mydevice_write count = value count
