-- ===== src/Lcd/Screen.antt =====
-- lcd.c as its callers see it: texts, cursor moves, the start and the end of the display.
use Prim.Native.Nat.{bit_or}
use mad_devicedriver.Prelude.{
  ℕ, ◌+◌, ◌-◌, ◌*◌, ◌%◌, ◌≤◌, ◌≡◌, ◌≢◌, ◌⊎◌, inl, inr, refl, arith, List, [], ◌∷◌, ◌++◌, map, true,
  ◌==◌, ==_iff,
}
use mathlib.Core.Path.{subst}
use mad_devicedriver.Prelude.Tables.{every, at_of_every}
use mad_devicedriver.Kernel.{done}
use mad_devicedriver.Lcd.Bus.{Event}
use mad_devicedriver.Lcd.Panel.{
  lcd_print_string, lcd_display_clear, lcd_display_return_home, lcd_deinit, lcd_init,
  lcd_set_cursor,
}
use mad_devicedriver.Lcd.Controller.{Levels, Received, command, character}
use mad_devicedriver.Lcd.Latch.{
  Sends, IsText, lcd_send_command-Sends, lcd_print_string-done, Sends-append, delay-Sends,
}

-- A text of at least one character, each a byte other than the terminator, with EN low at the
-- start: `lcd_print_string` comes to an end, and the controller receives exactly its characters, in
-- order, with EN low at the end.
pub text_received :
    (c : ℕ) (cs rest : List ℕ) (l : Levels)
    → l.en ≡ 0
    → IsText (c ∷ cs)
    → (es : List Event) × (lcd_print_string ((c ∷ cs) ++ 0 ∷ rest) ≡ done es)
      × Sends l es (map character (c ∷ cs))
text_received = lcd_print_string-done

-- The display data RAM address of a place on the screen.
abbrev pub ddram_address : ℕ → ℕ → ℕ
ddram_address row column = 0x80 + (row - 1) * 0x40 + (column - 1)

first_line : every (λ i. bit_or i 0x80 == i + 0x80) 128 ≡ true
unfolding every
first_line = refl

second_line : every (λ i. bit_or i 0xc0 == i + 0xc0) 64 ≡ true
unfolding every
second_line = refl

or_first :
    (column : ℕ)
    → 1 ≤ column
    → column ≤ 16
    → bit_or ((column + 255) % 256) 0x80 ≡ ddram_address 1 column
or_first column lo hi =
    let e : (column + 255) % 256 ≡ column - 1 = omega arith in
    rw e (omega (arith, (==_iff _ _).0 (at_of_every _ 128 (column - 1) first_line (omega arith))))

or_second :
    (column : ℕ)
    → 1 ≤ column
    → column ≤ 16
    → bit_or ((column + 255) % 256) 0xc0 ≡ ddram_address 2 column
or_second column lo hi =
    let e : (column + 255) % 256 ≡ column - 1 = omega arith in
    rw e (omega (arith, (==_iff _ _).0 (at_of_every _ 64 (column - 1) second_line (omega arith))))

-- With EN low at the start: for rows 1 and 2 and columns 1 to 16 the controller receives one
-- command, which sets the address of that place; for every other row nothing is sent.
pub cursor_received :
    (row column : ℕ) (l : Levels)
    → l.en ≡ 0
    → 1 ≤ column
    → column ≤ 16
    → ((row ≡ 1) ⊎ (row ≡ 2)
        → Sends l (lcd_set_cursor row column) (command (ddram_address row column) ∷ []))
      × (row ≢ 1 → row ≢ 2 → lcd_set_cursor row column ≡ [])
unfolding lcd_set_cursor
cursor_received row column l idle lo hi = (
  elim [
    | inl e ↦
        rw (e, or_first column lo hi)
          (lcd_send_command-Sends l (ddram_address 1 column) idle (omega arith))
    | inr e ↦
        rw (e, or_second column lo hi)
          (lcd_send_command-Sends l (ddram_address 2 column) idle (omega arith))
  ],
  λ a b. ground arith,
)

clear_received : (l : Levels) → l.en ≡ 0 → Sends l lcd_display_clear (command 0x01 ∷ [])
unfolding lcd_display_clear
clear_received l idle =
    let s = lcd_send_command-Sends l 0x01 idle (omega arith) in
    Sends-append s (delay-Sends _ 2000 s.low)

home_received : (l : Levels) → l.en ≡ 0 → Sends l lcd_display_return_home (command 0x02 ∷ [])
unfolding lcd_display_return_home
home_received l idle =
    let s = lcd_send_command-Sends l 0x02 idle (omega arith) in
    Sends-append s (delay-Sends _ 2000 s.low)

-- The wake-up nibbles 3, 3, 3 and 2, in pairs, and the four set-up commands: 4-bit bus with two
-- lines, display on, clear, increment.
abbrev pub set_up : List Received
set_up =
    command 0x33 ∷ command 0x32 ∷ command 0x28 ∷ command 0x0e ∷ command 0x01 ∷ command 0x06 ∷ []

init_from : (l : Levels) → Sends (record l { en = 0 }) lcd_init set_up
unfolding lcd_init
init_from l = record { takes = λ later. refl; low = refl }

-- With EN low at the start, `lcd_init` sends the wake-up nibbles 3, 3, 3 and 2 and then the four
-- set-up commands (4-bit bus with two lines, display on, clear, increment), nothing else, and leaves
-- EN low.
pub init_received : (l : Levels) → l.en ≡ 0 → Sends l lcd_init set_up
init_received l idle =
    let same : record l { en = 0 } ≡ l = ground arith in
    subst (λ k. Sends k lcd_init set_up) same (init_from l)

-- `lcd_deinit` sends the clear and the return-home command.
deinit_received : (l : Levels) → l.en ≡ 0 → Sends l lcd_deinit (command 0x01 ∷ command 0x02 ∷ [])
unfolding lcd_deinit
deinit_received l idle = let s = clear_received l idle in Sends-append s (home_received _ s.low)
