-- ===== src/LcdApp/Alike.antt =====
-- lcd.c of the program and lcd.c of the platform driver, seen from the controller: the two set the
-- lines in the same order, with other delays.
use Prim.Native.Nat.{bit_or}
use mad_devicedriver.Prelude.{
  ℕ, ◌+◌, ◌%◌, ◌≡◌, refl, List, [], ◌∷◌, ◌++◌, Bool-cases, inl, inr, ◌==◌, Bool, true, false,
  if◌then◌else◌,
}
use mad_devicedriver.Kernel.{Outcome, done, overrun}
use mad_devicedriver.Lcd.Bus.{Event}
use mad_devicedriver.Lcd.Controller.{Levels, watch, settle}
use mad_devicedriver.Lcd.Latch.{watch-append, settle-append}
use mad_devicedriver.Lcd.Panel
use mad_devicedriver.LcdApp.Panel as AppPanel
use mad_devicedriver.LcdApp.Main.{init_gpios}

-- From any levels, the controller takes the same nibbles from both runs, and the lines end at the same
-- levels.
abbrev pub Alike : List Event → List Event → Type 0
Alike xs ys = (l : Levels) → (watch l xs ≡ watch l ys) × (settle l xs ≡ settle l ys)

-- The same of two runs that may leave a buffer: both do, or neither.
abbrev pub AlikeOutcome : Outcome (List Event) → Outcome (List Event) → Type 0
AlikeOutcome (done xs) (done ys) = Alike xs ys
AlikeOutcome overrun overrun = Unit
AlikeOutcome _ _ = ⊥

Alike-append :
    (xs ys xs' ys' : List Event) → Alike xs ys → Alike xs' ys' → Alike (xs ++ xs') (ys ++ ys')
Alike-append xs ys xs' ys' a b l =
    let (nibbles, levels) = a l in
    let (nibbles', levels') = b (settle l ys) in
    (
      rw (watch-append xs l xs', watch-append ys l ys', nibbles, levels, nibbles') refl,
      rw (settle-append xs l xs', settle-append ys l ys', levels, levels') refl,
    )

pub lcd_send_command-Alike :
    (c : ℕ) → Alike (AppPanel.lcd_send_command c) (Panel.lcd_send_command c)
unfolding AppPanel.lcd_send_command Panel.lcd_send_command
lcd_send_command-Alike c l = (refl, refl)

pub lcd_print_char-Alike : (c : ℕ) → Alike (AppPanel.lcd_print_char c) (Panel.lcd_print_char c)
unfolding AppPanel.lcd_print_char Panel.lcd_print_char
lcd_print_char-Alike c l = (refl, refl)

pub lcd_set_cursor-Alike :
    (row column : ℕ) → Alike (AppPanel.lcd_set_cursor row column) (Panel.lcd_set_cursor row column)
unfolding AppPanel.lcd_set_cursor Panel.lcd_set_cursor
lcd_set_cursor-Alike row column =
    let column' : ℕ = (column + 255) % 256 in
    elim (Bool-cases (row == 1)) [
      | inl e ↦
          rw (e, AppPanel.lcd_set_cursor, Panel.lcd_set_cursor)
            (lcd_send_command-Alike (bit_or column' 0x80))
      | inr e ↦ elim (Bool-cases (row == 2)) [
        | inl f ↦
            rw (e, f, AppPanel.lcd_set_cursor, Panel.lcd_set_cursor)
              (lcd_send_command-Alike (bit_or column' 0xc0))
        | inr f ↦ rw (e, f, AppPanel.lcd_set_cursor, Panel.lcd_set_cursor) (λ l. (refl, refl))
      ]
    ]

AlikeOutcome-if :
    (b : Bool) (r r' t t' : Outcome (List Event))
    → AlikeOutcome r r'
    → AlikeOutcome t t'
    → AlikeOutcome (if b then r else t) (if b then r' else t')
AlikeOutcome-if true r r' t t' p q = p
AlikeOutcome-if false r r' t t' p q = q

-- The same run before both.
AlikeOutcome-after :
    (xs ys : List Event) (r t : Outcome (List Event))
    → Alike xs ys
    → AlikeOutcome r t
    → AlikeOutcome
        (elim r [ done es ↦ done (xs ++ es) | overrun ↦ overrun ])
        (elim t [ done es ↦ done (ys ++ es) | overrun ↦ overrun ])
AlikeOutcome-after xs ys (done es) (done fs) p q = Alike-append xs ys es fs p q
AlikeOutcome-after xs ys (done es) overrun p q = absurd q
AlikeOutcome-after xs ys overrun (done fs) p q = absurd q
AlikeOutcome-after xs ys overrun overrun p q = tt

pub lcd_print_string-Alike :
    (text : List ℕ) → AlikeOutcome (AppPanel.lcd_print_string text) (Panel.lcd_print_string text)
unfolding AppPanel.lcd_print_string Panel.lcd_print_string
lcd_print_string-Alike [] = tt
lcd_print_string-Alike (c ∷ []) = tt
lcd_print_string-Alike (c ∷ b ∷ rest) =
    let same = lcd_print_char-Alike c in
    let xs = AppPanel.lcd_print_char c in
    let ys = Panel.lcd_print_char c in
    AlikeOutcome-if (b == 0) _ _ _ _ same (
      AlikeOutcome-after xs ys (AppPanel.lcd_print_string (b ∷ rest))
        (Panel.lcd_print_string (b ∷ rest)) same (lcd_print_string-Alike (b ∷ rest)))

pub init-Alike : Alike (init_gpios ++ AppPanel.lcd_init) Panel.lcd_init
unfolding init_gpios AppPanel.lcd_init Panel.lcd_init
init-Alike l = (refl, refl)

-- The user-space panel code and the driver's set the lines alike, whatever the delays between: from any
-- levels, the controller takes the same nibbles in the same order and the lines end the same, for every
-- command, character, cursor position and text (where the one runs past the text, the other does too),
-- for clearing the display and going home, and for the start of the panel with its lines.
pub panels_agree :
    (c row column : ℕ) (text : List ℕ)
    → Alike (AppPanel.lcd_send_command c) (Panel.lcd_send_command c)
      × Alike (AppPanel.lcd_print_char c) (Panel.lcd_print_char c)
      × Alike (AppPanel.lcd_set_cursor row column) (Panel.lcd_set_cursor row column)
      × AlikeOutcome (AppPanel.lcd_print_string text) (Panel.lcd_print_string text)
      × Alike AppPanel.lcd_deinit Panel.lcd_deinit
      × Alike (init_gpios ++ AppPanel.lcd_init) Panel.lcd_init
unfolding AppPanel.lcd_deinit Panel.lcd_deinit
panels_agree c row column text = (
  lcd_send_command-Alike c,
  lcd_print_char-Alike c,
  lcd_set_cursor-Alike row column,
  lcd_print_string-Alike text,
  λ l. (refl, refl),
  init-Alike,
)
