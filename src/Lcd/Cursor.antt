-- ===== src/Lcd/Cursor.antt =====
-- The lcdxy attribute: which values fit its buffer, what is shown afterwards, and where the cursor
-- goes.
use mad_devicedriver.Prelude.{
  ℕ, zero, suc, ◌+◌, ◌*◌, ◌/◌, ◌%◌, ◌^◌, ◌≤◌, ◌<◌, ◌≡◌, ◌⊎◌, inl, inr, refl, ap, ◌∙◌, arith, List,
  [], ◌∷◌, ◌++◌, length, length-append, splice, ltb, Bool-cases,
}
use mad_devicedriver.Prelude.Int.{pos}
use mad_devicedriver.Prelude.Decimal.{
  digits, to_int, to_u8, length-digits_one, length-digits_le_three, length-digits_gt_three,
}
use mad_devicedriver.Kernel.{Ret, value, done, overrun, TextApi, parsed}
use mad_devicedriver.Lcd.Bus.{Event}
use mad_devicedriver.Lcd.Panel.{lcd_set_cursor}
use mad_devicedriver.Lcd.Controller.{Levels, command}
use mad_devicedriver.Lcd.Latch.{Sends}
use mad_devicedriver.Lcd.Screen.{ddram_address, cursor_received}
use mad_devicedriver.Lcd.Attributes.{
  LcdPrivateData, c_string, shown, xy_text, lcdxy_store, lcdxy_show, lcdxy_put,
}

abbrev NonZero : List ℕ → Type 0
NonZero [] = Unit
NonZero (c ∷ cs) = (0 < c) × NonZero cs

NonZero-append : (xs ys : List ℕ) → NonZero xs → NonZero ys → NonZero (xs ++ ys)
NonZero-append [] ys p q = q
NonZero-append (x ∷ xs) ys p q = (p.0, NonZero-append xs ys p.1 q)

NonZero-digits : (f n : ℕ) → NonZero (digits f n)
unfolding digits
NonZero-digits zero n = tt
NonZero-digits (suc f) n = elim (Bool-cases (ltb n 10)) [
  | inl small ↦ rw small (omega arith)
  | inr large ↦
      rw large (NonZero-append (digits f (n / 10)) _ (NonZero-digits f (n / 10)) (omega arith))
]

-- A terminated text that fits is read back.
c_string-splice :
    (xs t : List ℕ)
    → NonZero t
    → length t + 1 ≤ length xs
    → c_string (splice xs 0 (t ++ 0 ∷ [])) ≡ t
c_string-splice [] t p h = absurd (omega arith)
c_string-splice (x ∷ xs) [] p h = refl
c_string-splice (x ∷ xs) (c ∷ cs) p h = ground (arith, c_string-splice xs cs)

abbrev pub place_text : ℕ → List ℕ
place_text v = xy_text (pos (v / 10)) (pos (v % 10))

length-place_text : (v : ℕ) → length (place_text v) ≡ length (digits 20 (v / 10)) + 4
length-place_text v = omega (
  arith,
  length-append (digits 20 (v / 10)) (b',' ∷ (digits 20 (v % 10) ++ b')' ∷ [])),
  length-append (digits 20 (v % 10)) (b')' ∷ []),
  length-digits_one 19 (v % 10) (omega arith),
)

NonZero-place_text : (v : ℕ) → NonZero (place_text v)
NonZero-place_text v = (
  omega arith,
  NonZero-append (digits 20 (v / 10)) _ (NonZero-digits 20 (v / 10)) (
    omega arith,
    NonZero-append (digits 20 (v % 10)) _ (NonZero-digits 20 (v % 10)) (omega arith),
  ),
)

to_int_small : (n : ℕ) → n < 2 ^ 31 → to_int (pos n) ≡ pos n
to_int_small n h = ground arith

stored : LcdPrivateData → ℕ → LcdPrivateData
stored d v = record d { lcdxy = splice d.lcdxy 0 (place_text v ++ 0 ∷ []) }

-- `lcdxy_store` of a value that an `int` holds.
store_place :
    (api : TextApi) (d : LcdPrivateData) (buf : List ℕ) (size v : ℕ)
    → api.kstrtol buf 10 ≡ parsed (pos v)
    → v < 2 ^ 31
    → lcdxy_store api d buf size ≡ lcdxy_put d (pos (v / 10)) (pos (v % 10))
unfolding lcdxy_store
store_place api d buf size v parse int =
    ground (arith, to_int_small (v / 10), to_int_small (v % 10))

put_place :
    (d : LcdPrivateData) (v : ℕ)
    → (length (place_text v) + 1 ≤ length d.lcdxy
        → lcdxy_put d (pos (v / 10)) (pos (v % 10))
          ≡ done (
            value (length (place_text v)),
            stored d v,
            lcd_set_cursor (v / 10 % 256) (v % 10 % 256),
          ))
      × (length d.lcdxy < length (place_text v) + 1
          → lcdxy_put d (pos (v / 10)) (pos (v % 10)) ≡ overrun)
unfolding lcdxy_put stored
put_place d v = (λ h. ground arith, λ h. ground arith)

shown_place :
    (d : LcdPrivateData) (v : ℕ)
    → length (place_text v) + 1 ≤ length d.lcdxy
    → lcdxy_show (stored d v) ≡ shown (place_text v ++ b'\n' ∷ [])
unfolding lcdxy_show stored
shown_place d v h =
    ap (λ t. shown (t ++ b'\n' ∷ []))
      (c_string-splice d.lcdxy (place_text v) (NonZero-place_text v) h)

place_text_fits : (v : ℕ) → v < 10000 → length (place_text v) + 1 ≤ 8
place_text_fits v h =
    omega (arith, length-place_text v, length-digits_le_three 17 (v / 10) (omega arith))

place_text_too_long : (v : ℕ) → 10000 ≤ v → 8 < length (place_text v) + 1
place_text_too_long v h =
    omega (arith, length-place_text v, length-digits_gt_three 16 (v / 10) (omega arith))

-- A number below 2^31 written to lcdxy, whose text has 8 bytes of room: from 10000 on, the text is
-- written past its end; below 10000, the call returns the length of the text that it makes of the
-- place (not the size written), sets the cursor to that place, and the text is what lcdxy shows
-- from then on, with the scroll state unchanged.
pub xy_fits_below_10000 :
    (api : TextApi) (d : LcdPrivateData) (buf : List ℕ) (size v : ℕ)
    → length d.lcdxy ≡ 8
    → api.kstrtol buf 10 ≡ parsed (pos v)
    → v < 2 ^ 31
    → (v < 10000
        → (d' : LcdPrivateData) × (lcdxy_store api d buf size
            ≡ done
                (value (length (place_text v)), d', lcd_set_cursor (v / 10 % 256) (v % 10 % 256)))
          × (lcdxy_show d' ≡ shown (place_text v ++ b'\n' ∷ []))
          × (d'.lcd_scroll ≡ d.lcd_scroll))
      × (10000 ≤ v → lcdxy_store api d buf size ≡ overrun)
unfolding stored
xy_fits_below_10000 api d buf size v room parse int = (
  λ fits.
      let h : length (place_text v) + 1 ≤ length d.lcdxy = rw room (place_text_fits v fits) in
      (
        stored d v,
        ground (arith, store_place api d buf size v parse int, (put_place d v).0 h),
        shown_place d v h,
        refl,
      ),
  λ long.
      store_place api d buf size v parse int
      ∙ (put_place d v).1 (rw room (place_text_too_long v long)),
)

to_digits :
    (row column : ℕ)
    → column ≤ 9
    → ((row * 10 + column) / 10 ≡ row) × ((row * 10 + column) % 10 ≡ column)
to_digits row column h = omega arith

-- Two digits written to lcdxy, a row of 1 or 2 and a column of 1 to 9, move the cursor: with EN low
-- at the start the call completes, and the controller receives the one command that sets the
-- address of that place.
pub xy_moves_cursor :
    (api : TextApi) (d : LcdPrivateData) (buf : List ℕ) (size row column : ℕ) (l : Levels)
    → length d.lcdxy ≡ 8
    → api.kstrtol buf 10 ≡ parsed (pos (row * 10 + column))
    → (row ≡ 1) ⊎ (row ≡ 2)
    → 1 ≤ column
    → column ≤ 9
    → l.en ≡ 0
    → (r : Ret) × (d' : LcdPrivateData) × (es : List Event) × (lcdxy_store api d buf size
        ≡ done (r, d', es))
      × Sends l es (command (ddram_address row column) ∷ [])
xy_moves_cursor api d buf size row column l room parse lines lo hi idle =
    let v : ℕ = row * 10 + column in
    let at : (v / 10 ≡ row) × (v % 10 ≡ column) = to_digits row column hi in
    let fits : v < 10000 = omega arith in
    let (d', run, _, _) = (xy_fits_below_10000 api d buf size v room parse (omega arith)).0 fits in
    let row_eq : v / 10 % 256 ≡ row = omega arith in
    let column_eq : v % 10 % 256 ≡ column = omega arith in
    (
      value (length (place_text v)),
      d',
      lcd_set_cursor (v / 10 % 256) (v % 10 % 256),
      run,
      rw (row_eq, column_eq) ((cursor_received row column l idle lo (omega arith)).0 lines),
    )

-- Whatever non-negative number is written to lcdxy, a call that completes sets the cursor to a
-- column of at most 9: the columns 10 to 16 of the display are not reached.
pub xy_reaches_nine_columns :
    (api : TextApi) (d : LcdPrivateData) (buf : List ℕ) (size v : ℕ) {r : Ret} {d' : LcdPrivateData}
    {es : List Event}
    → api.kstrtol buf 10 ≡ parsed (pos v)
    → lcdxy_store api d buf size ≡ done (r, d', es)
    → (row : ℕ) × (column : ℕ) × (es ≡ lcd_set_cursor row column) × (column ≤ 9)
unfolding lcdxy_store lcdxy_put
xy_reaches_nine_columns api d buf size v parse run =
    (to_u8 (to_int (pos (v / 10))), v % 10, ground (arith, to_int_small (v % 10)), omega arith)
