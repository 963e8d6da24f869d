-- ===== src/IntrptFile.antt =====
-- device_driver/intrpt_drv.c: the file of blocking_drv.c, whose reads also drive two LEDs, and the
-- interrupts of the two lines.
pub mod Leds
pub mod Lines
mod Tests
use mad_devicedriver.Prelude.{
  ℕ, zero, suc, ◌+◌, ◌%◌, List, [], ◌∷◌, ◌++◌, Bool, true, false, Option, none, some, ◌==◌,
  if◌then◌else◌, length,
}
use mad_devicedriver.Kernel.{Errno, enomem, Ret, value, error}
use mad_devicedriver.Setup.{if_granted, proc_file, gpio, irq, Resource, Call, acquire, release}
use mad_devicedriver.ProcFile
use mad_devicedriver.ProcFile.{State, output_msg}
use mad_devicedriver.ProcFile.Waiting
use mad_devicedriver.ProcFile.Waiting.{Pc, Gate}

-- `changeEvents`: the lines for "LED ON" and "LED OFF".
abbrev pub led_on : ℕ
led_on = 299

abbrev pub led_off : ℕ
led_off = 301

-- What the loop of `intrpt_output` does for one byte: a level on a line, and a byte for the user.
pub data Action : Type 0 where
  gpio_set_value : ℕ → ℕ → Action
  put_user : ℕ → Action

-- The `switch (i % 4)`.
abbrev pub switch_led : ℕ → Action
switch_led i =
    if i % 4 == 0
    then gpio_set_value led_on 0
    else if i % 4 == 1
    then gpio_set_value led_on 1
    else if i % 4 == 2
    then gpio_set_value led_off 0
    else gpio_set_value led_off 1

-- The loop over `i < len && output_msg[i]`, with `len - i` rounds to go.
abbrev pub output_loop : ℕ → ℕ → List ℕ → List Action
output_loop zero i text = []
output_loop (suc rounds) i [] = []
output_loop (suc rounds) i (c ∷ text) =
    if c == 0 then [] else switch_led i ∷ put_user c ∷ output_loop rounds (suc i) text

-- The bytes among the actions.
abbrev pub bytes_put : List Action → List ℕ
bytes_put [] = []
bytes_put (gpio_set_value line v ∷ rest) = bytes_put rest
bytes_put (put_user c ∷ rest) = c ∷ bytes_put rest

-- What is returned, what is done, and the module afterwards.
unfoldable pub intrpt_output : State → ℕ → ℕ × List Action × State
intrpt_output e len =
    let actions = output_loop len 0 (output_msg e.message) in
    if e.finished
    then (0, [], record e { finished = false })
    else (length (bytes_put actions), actions, record e { finished = true })

-- The other file operations are those of blocking_drv.c.
abbrev pub intrpt_input : State → (ℕ → ℕ) → ℕ → State
intrpt_input = ProcFile.module_input

-- `intrpt_open` and `intrpt_close`.
abbrev pub Move : Gate → Pc → Gate → Pc → Type 0
Move = Waiting.Move

-- How the kernel answers: proc_create gives an entry; gpio_request_array grants both lines, or none;
-- request_irq on the interrupt of line 0, and of line 1.
pub record Answers : Type 0 where
  pub proc_create : Bool
  pub gpio_request_array : Option Errno
  pub request_irq : ℕ → Option Errno

-- Every failure is only logged.
unfoldable pub set_gpio_interrupt : Answers → List Call
set_gpio_interrupt k =
    if_granted k.gpio_request_array (acquire (gpio led_on) ∷ acquire (gpio led_off) ∷ [])
    ++ (if_granted (k.request_irq 0) (acquire (irq 0) ∷ [])
        ++ if_granted (k.request_irq 1) (acquire (irq 1) ∷ []))

unfoldable pub intrpt_init : Answers → Ret × List Call
unfolding set_gpio_interrupt
intrpt_init k =
    if k.proc_create
    then (value 0, acquire proc_file ∷ set_gpio_interrupt k)
    else (error enomem, release proc_file ∷ [])

unfoldable pub intrpt_exit : List Call
intrpt_exit =
    release (irq 0)
    ∷ release (irq 1)
    ∷ release (gpio led_on)
    ∷ release (gpio led_off)
    ∷ release proc_file
    ∷ []
