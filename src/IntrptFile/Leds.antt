-- ===== src/IntrptFile/Leds.antt =====
-- A read of intrpt_drv.c's file: the bytes are those of blocking_drv.c's, and the LEDs run along.
use mad_devicedriver.Prelude.{ℕ, zero, suc, ◌≡◌, refl, arith, List, [], ◌∷◌, length}
use mad_devicedriver.ProcFile.{State, output_msg, put_loop, module_output}
use mad_devicedriver.IntrptFile.{
  Action, gpio_set_value, put_user, switch_led, output_loop, bytes_put, intrpt_output,
}

-- The levels among the actions.
abbrev pub levels_set : List Action → List Action
levels_set [] = []
levels_set (gpio_set_value line v ∷ rest) = gpio_set_value line v ∷ levels_set rest
levels_set (put_user c ∷ rest) = levels_set rest

-- The settings for bytes `i` to `i + n - 1`.
abbrev pub blinks : ℕ → ℕ → List Action
blinks i zero = []
blinks i (suc n) = switch_led i ∷ blinks (suc i) n

bytes_put-output_loop :
    (rounds i : ℕ) (text : List ℕ) → bytes_put (output_loop rounds i text) ≡ put_loop rounds text
bytes_put-output_loop zero i text = refl
bytes_put-output_loop (suc rounds) i [] = refl
bytes_put-output_loop (suc rounds) i (c ∷ text) =
    ground (arith, bytes_put-output_loop rounds (suc i) text)

levels_set-output_loop :
    (rounds i : ℕ) (text : List ℕ)
    → levels_set (output_loop rounds i text) ≡ blinks i (length (put_loop rounds text))
levels_set-output_loop zero i text = refl
levels_set-output_loop (suc rounds) i [] = refl
levels_set-output_loop (suc rounds) i (c ∷ text) =
    ground (arith, levels_set-output_loop rounds (suc i) text)

-- A read returns, gives and leaves what the same read of blocking_drv.c's file does, and sets one
-- level for each byte that it gives, in the order of `switch_led`.
pub read_blinks :
    (e : State) (len : ℕ)
    → let (n, actions, e') = intrpt_output e len in
      let (m, put, f) = module_output e len in
      (n ≡ m) × (bytes_put actions ≡ put) × (e' ≡ f) × (levels_set actions ≡ blinks 0 n)
unfolding intrpt_output module_output
read_blinks e len = ground (
  arith,
  bytes_put-output_loop len 0 (output_msg e.message),
  levels_set-output_loop len 0 (output_msg e.message),
)
