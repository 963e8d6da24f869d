-- ===== src/LcdApp/Clock.antt =====
-- The date and the time as the program prints them: the numbers fit the buffer, and all of their
-- characters are shown.
use mad_devicedriver.Prelude.{
  ℕ, zero, suc, ◌+◌, ◌/◌, ◌%◌, ◌≤◌, ◌<◌, ◌≡◌, refl, subst, arith, List, [], ◌∷◌, ◌++◌, map, length,
  length-append,
}
use mad_devicedriver.Prelude.Decimal.{
  digits, length-digits_one, length-digits_more, length-digits_le_three,
}
use mad_devicedriver.Lcd.Controller.{character}
use mad_devicedriver.LcdApp.Panel.{text_buffer_size, lcd_printf}
use mad_devicedriver.LcdApp.Main.{Tm, three_numbers, print_time_and_date}
use mad_devicedriver.LcdApp.Shown.{printed, Displays, lcd_printf-Displays}
use mad_devicedriver.LcdApp.Round.{two_lines, two_lines-Displays}

abbrev IsPrintable : List ℕ → Type 0
IsPrintable [] = Unit
IsPrintable (c ∷ cs) = (0x20 ≤ c) × (c ≤ 0x7f) × IsPrintable cs

IsPrintable-append : (xs ys : List ℕ) → IsPrintable xs → IsPrintable ys → IsPrintable (xs ++ ys)
IsPrintable-append [] ys p q = q
IsPrintable-append (x ∷ xs) ys p q = (p.0, p.1, IsPrintable-append xs ys p.2 q)

digits-IsPrintable : (f n : ℕ) → IsPrintable (digits f n)
unfolding digits
digits-IsPrintable zero n = tt
digits-IsPrintable (suc f) n =
    let front =
      IsPrintable-append (digits f (n / 10)) ((b'0' + n % 10) ∷ []) (digits-IsPrintable f (n / 10))
        (omega arith, omega arith, tt) in
    ground (arith, front)

printed-all : (text : List ℕ) → IsPrintable text → printed text ≡ text
printed-all [] p = refl
printed-all (c ∷ cs) p = ground (arith, printed-all cs p.2)

three_numbers-IsPrintable :
    (separator a b c : ℕ)
    → 0x20 ≤ separator
    → separator ≤ 0x7f
    → IsPrintable (three_numbers separator a b c)
three_numbers-IsPrintable s a b c lo hi =
    IsPrintable-append (digits 20 a) _ (digits-IsPrintable 20 a) (
      lo,
      hi,
      IsPrintable-append (digits 20 b) _ (digits-IsPrintable 20 b)
          (lo, hi, digits-IsPrintable 20 c),
    )

length-digits_le_four : (n : ℕ) → n < 10000 → length (digits 20 n) ≤ 4
length-digits_le_four n h =
    ground
      (arith, length-digits_one 19 n, length-digits_more 19 n, length-digits_le_three 16 (n / 10))

-- A number of four digits at most, and two of three at most, with their separators.
length-three_numbers :
    (separator a b c : ℕ)
    → a < 10000
    → b < 1000
    → c < 1000
    → length (three_numbers separator a b c) < text_buffer_size
length-three_numbers s a b c ha hb hc =
    let cs : List ℕ = digits 20 c in
    let bs : List ℕ = digits 20 b in
    omega (
      arith,
      length-append (digits 20 a) (s ∷ bs ++ (s ∷ cs)),
      length-append bs (s ∷ cs),
      length-digits_le_four a ha,
      length-digits_le_three 17 b hb,
      length-digits_le_three 17 c hc,
    )

numbers-Displays :
    (separator a b c : ℕ)
    → 0x20 ≤ separator
    → separator ≤ 0x7f
    → a < 10000
    → b < 1000
    → c < 1000
    → let text = three_numbers separator a b c in Displays (lcd_printf text) (map character text)
numbers-Displays s a b c lo hi ha hb hc =
    let text = three_numbers s a b c in
    subst (λ xs. Displays (lcd_printf text) (map character xs))
      (printed-all text (three_numbers-IsPrintable s a b c lo hi))
      (lcd_printf-Displays text (length-three_numbers s a b c ha hb hc))

-- A date and a time of day in the ranges that `struct tm` documents, up to the year 9999.
pub record IsTm (t : Tm) : Type 0 where
  pub year : t.tm_year < 8100
  pub mon : t.tm_mon < 12
  pub mday : (1 ≤ t.tm_mday) × (t.tm_mday ≤ 31)
  pub hour : t.tm_hour < 24
  pub minute : t.tm_min < 60
  pub sec : t.tm_sec ≤ 60

pub print_time_and_date-Displays :
    (t : Tm)
    → IsTm t
    → Displays (print_time_and_date t) (
        two_lines
          (three_numbers b'-' (1900 + t.tm_year) t.tm_mon t.tm_mday)
          (three_numbers b':' t.tm_hour t.tm_min t.tm_sec))
unfolding print_time_and_date
print_time_and_date-Displays t v =
    two_lines-Displays _ _ _ _
      (numbers-Displays b'-' (1900 + t.tm_year) t.tm_mon t.tm_mday (omega arith) (omega arith)
        (omega arith) (omega arith) (omega arith))
      (numbers-Displays b':' t.tm_hour t.tm_min t.tm_sec (omega arith) (omega arith) (omega arith)
        (omega arith) (omega arith))
