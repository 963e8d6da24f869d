-- ===== src/Lcd/Stores.antt =====
-- The attributes lcdcmd, lcdtext and lcdscroll: what the controller receives and what is shown.
use mad_devicedriver.Prelude.{
  ℕ, ◌<◌, ◌≡◌, refl, arith, List, [], ◌∷◌, ◌++◌, map, true, false, ◌⊎◌, inl, inr, Bool-cases,
}
use mad_devicedriver.Prelude.Int.{ℤ}
use mad_devicedriver.Prelude.Decimal.{to_u8}
use mad_devicedriver.Kernel.{
  Errno, einval, value, error, done, TextApi, parsed, refused, Parsed-cases,
}
use mad_devicedriver.Lcd.Bus.{Event}
use mad_devicedriver.Lcd.Panel.{lcd_send_command}
use mad_devicedriver.Lcd.Controller.{Levels, command, character}
use mad_devicedriver.Lcd.Latch.{Sends, IsText, lcd_send_command-Sends, Sends-append}
use mad_devicedriver.Lcd.Screen.{text_received}
use mad_devicedriver.Lcd.Attributes.{
  LcdPrivateData, shown, on, off, lcdcmd_store, lcdtext_store, lcdscroll_store, lcdscroll_show,
}

to_u8-lt : (n : ℤ) → to_u8 n < 256
to_u8-lt n = ground arith

lcdcmd_store-cases :
    (api : TextApi) (buf : List ℕ) (size : ℕ) (l : Levels)
    → l.en ≡ 0
    → ((n : ℤ)
        → api.kstrtol buf 0 ≡ parsed n
        → (es : List Event) × (lcdcmd_store api buf size ≡ (value size, es))
          × Sends l es (command (to_u8 n) ∷ []))
      × ((e : Errno) → api.kstrtol buf 0 ≡ refused e → lcdcmd_store api buf size ≡ (error e, []))
unfolding lcdcmd_store
lcdcmd_store-cases api buf size l idle = (
  λ n p. (
    lcd_send_command (to_u8 n),
    ground arith,
    lcd_send_command-Sends l (to_u8 n) idle (to_u8-lt n),
  ),
  λ e p. ground arith,
)

-- With EN low at the start: a number written to lcdcmd goes out as the command of its low byte and
-- the whole write is taken; what kstrtol refuses is answered with its error, and nothing goes out.
pub cmd_received :
    (api : TextApi) (buf : List ℕ) (size : ℕ) (l : Levels)
    → l.en ≡ 0
    → ((n : ℤ) × (api.kstrtol buf 0 ≡ parsed n)
        × ((es : List Event) × (lcdcmd_store api buf size ≡ (value size, es))
            × Sends l es (command (to_u8 n) ∷ [])))
      ⊎ ((e : Errno) × (api.kstrtol buf 0 ≡ refused e)
          × (lcdcmd_store api buf size ≡ (error e, [])))
cmd_received api buf size l idle =
    let (number, no_number) = lcdcmd_store-cases api buf size l idle in
    elim (Parsed-cases (api.kstrtol buf 0)) [
      | inl (n, p) ↦ inl (n, p, number n p)
      | inr (e, p) ↦ inr (e, p, no_number e p)
    ]

module _ (api : TextApi) (d : LcdPrivateData) (buf : List ℕ) (size : ℕ) (l : Levels)
    (idle : l.en ≡ 0) where
  lcdscroll_store-cases :
      (api.sysfs_streq buf on ≡ true
        → (d' : LcdPrivateData) × (es : List Event) × (lcdscroll_store api d buf size
            ≡ (value size, d', es))
          × (lcdscroll_show d' ≡ shown (on ++ b'\n' ∷ []))
          × (d'.lcdxy ≡ d.lcdxy)
          × Sends l es (command 0x18 ∷ []))
      × (api.sysfs_streq buf on ≡ false
          → api.sysfs_streq buf off ≡ true
          → (d' : LcdPrivateData) × (es : List Event) × (lcdscroll_store api d buf size
              ≡ (value size, d', es))
            × (lcdscroll_show d' ≡ shown (off ++ b'\n' ∷ []))
            × (d'.lcdxy ≡ d.lcdxy)
            × Sends l es (command 0x02 ∷ command 0x10 ∷ []))
      × (api.sysfs_streq buf on ≡ false
          → api.sysfs_streq buf off ≡ false
          → lcdscroll_store api d buf size ≡ (error einval, d, []))
  unfolding lcdscroll_store lcdscroll_show
  lcdscroll_store-cases = (
    λ p. (
      record d { lcd_scroll = 1 },
      lcd_send_command 0x18,
      ground arith,
      refl,
      refl,
      lcd_send_command-Sends l 0x18 idle (omega arith),
    ),
    λ p q.
        let home = lcd_send_command-Sends l 0x02 idle (omega arith) in
        (
          record d { lcd_scroll = 0 },
          lcd_send_command 0x02 ++ lcd_send_command 0x10,
          ground arith,
          refl,
          refl,
          Sends-append home (lcd_send_command-Sends _ 0x10 home.low (omega arith)),
        ),
    λ p q. ground arith,
  )

  -- The three answers of lcdscroll, with EN low at the start: "on" is shown as "on" from then on
  -- and sends the command 0x18, "off" as "off" and sends 0x02 and 0x10, and any other text is
  -- refused with -EINVAL and nothing changed or sent.
  pub scroll_stored :
      ((api.sysfs_streq buf on ≡ true)
        × ((d' : LcdPrivateData) × (es : List Event) × (lcdscroll_store api d buf size
              ≡ (value size, d', es))
            × (lcdscroll_show d' ≡ shown (on ++ b'\n' ∷ []))
            × (d'.lcdxy ≡ d.lcdxy)
            × Sends l es (command 0x18 ∷ [])))
      ⊎ ((api.sysfs_streq buf on ≡ false)
          × (api.sysfs_streq buf off ≡ true)
          × ((d' : LcdPrivateData) × (es : List Event) × (lcdscroll_store api d buf size
                ≡ (value size, d', es))
              × (lcdscroll_show d' ≡ shown (off ++ b'\n' ∷ []))
              × (d'.lcdxy ≡ d.lcdxy)
              × Sends l es (command 0x02 ∷ command 0x10 ∷ [])))
      ⊎ ((api.sysfs_streq buf on ≡ false)
          × (api.sysfs_streq buf off ≡ false)
          × (lcdscroll_store api d buf size ≡ (error einval, d, [])))
  scroll_stored =
      let (is_on, is_off, is_neither) = lcdscroll_store-cases in
      elim (Bool-cases (api.sysfs_streq buf on)) [
        | inl p ↦ inl (p, is_on p)
        | inr p ↦ elim (Bool-cases (api.sysfs_streq buf off)) [
          | inl q ↦ inr (inl (p, q, is_off p q))
          | inr q ↦ inr (inr (p, q, is_neither p q))
        ]
      ]

-- With EN low at the start, a text of at least one character, each a byte other than the
-- terminator, written to lcdtext reaches the controller character by character, and the whole write
-- is taken.
pub text_stored :
    (c : ℕ) (cs rest : List ℕ) (size : ℕ) (l : Levels)
    → l.en ≡ 0
    → IsText (c ∷ cs)
    → (es : List Event) × (lcdtext_store ((c ∷ cs) ++ 0 ∷ rest) size ≡ done (value size, es))
      × Sends l es (map character (c ∷ cs))
unfolding lcdtext_store
text_stored c cs rest size l idle t =
    let (es, run, sends) = text_received c cs rest l idle t in (es, ground arith, sends)
