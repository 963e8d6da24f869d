-- ===== src/ProcFile.antt =====
-- device_driver/blocking_drv.c: a file in /proc that one process at a time may have open, and that
-- gives back the last text written to it.
pub mod Waiting
pub mod Exclusion
pub mod Progress
pub mod Echo
mod Tests
use mad_devicedriver.Prelude.{
  ℕ, zero, suc, ◌+◌, ◌-◌, List, [], ◌∷◌, ◌++◌, Bool, true, false, Option, none, some, ◌==◌, min,
  if◌then◌else◌, length, take, splice,
}
use mad_devicedriver.Prelude.Text.{c_string}
use mad_devicedriver.Kernel.{Errno, enomem, Ret, value, error}
use mad_devicedriver.Setup.{proc_file, Call, acquire, release}

abbrev pub message_length : ℕ
message_length = 80

-- The static data of the module that reads and writes touch: `message`, and `finished` of
-- `module_output`, which all readers share.
pub record State : Type 0 where
  pub message : List ℕ
  pub finished : Bool

-- "Last input:"
abbrev pub last_input : List ℕ
last_input = b'L' ∷ b'a' ∷ b's' ∷ b't' ∷ b' ' ∷ b'i' ∷ b'n' ∷ b'p' ∷ b'u' ∷ b't' ∷ b':' ∷ []

-- The text of `sprintf(output_msg, "Last input:%s\n", message)`, without its terminator.
abbrev pub output_msg : List ℕ → List ℕ
output_msg message = last_input ++ (c_string message ++ b'\n' ∷ [])

-- The room for it.
abbrev pub output_msg_size : ℕ
output_msg_size = message_length + 30

-- The loop over `i < len && output_msg[i]`: the bytes given to put_user, in order. Its result is not
-- looked at, so a fault changes nothing here.
abbrev pub put_loop : ℕ → List ℕ → List ℕ
put_loop zero text = []
put_loop (suc len) [] = []
put_loop (suc len) (c ∷ text) = if c == 0 then [] else c ∷ put_loop len text

-- What is returned, the bytes put, and the module afterwards.
unfoldable pub module_output : State → ℕ → ℕ × List ℕ × State
module_output e len =
    let put = put_loop len (output_msg e.message) in
    if e.finished
    then (0, [], record e { finished = false })
    else (length put, put, record e { finished = true })

-- The loop over `i < MESSAGE_LENGTH - 1 && i < length`, with `rounds` to go at `i`, and the
-- terminator behind it. `user i` is the byte that get_user gives at `buf + i`.
abbrev pub get_loop : ℕ → ℕ → (ℕ → ℕ) → List ℕ → List ℕ
get_loop zero i user message = splice message i (0 ∷ [])
get_loop (suc rounds) i user message = get_loop rounds (suc i) user (splice message i (user i ∷ []))

-- The function ends without a `return`: what the caller gets is not determined, and not modelled.
unfoldable pub module_input : State → (ℕ → ℕ) → ℕ → State
module_input e user len = record e {
  message = get_loop (min (message_length - 1) len) 0 user e.message;
}

-- The answer of proc_create: `false` is NULL.
unfoldable pub sleep_init : Bool → Ret × List Call
sleep_init proc_create =
    if proc_create
    then (value 0, acquire proc_file ∷ [])
    else (error enomem, release proc_file ∷ [])

unfoldable pub sleep_exit : List Call
sleep_exit = release proc_file ∷ []
