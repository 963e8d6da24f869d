-- ===== src/CharDrv/ShareData.antt =====
-- The attribute share_data of char_drv.c, and the two interrupts that set it.
use mad_devicedriver.Prelude.{
  ℕ, ◌%◌, ◌^◌, ◌≤◌, ◌<◌, ◌≡◌, true, refl, ap, arith, List, [], ◌∷◌, ◌++◌, Option, none, some,
  length, ltb,
}
use mad_devicedriver.Prelude.Int.{ℤ, pos, negsuc, pos_part, neg_part}
use mad_devicedriver.Prelude.Decimal.{decimal, to_int}
use mad_devicedriver.Prelude.Scan.{scan_int, scan_int-decimal}

-- `sprintf(buf, "%d\n", share_data)`: what is returned, and the text.
unfoldable pub test_share_data_show : ℤ → ℕ × List ℕ
test_share_data_show share_data = let text = decimal share_data ++ b'\n' ∷ [] in (length text, text)

-- What is returned, and `share_data`, which stays if the text has no number.
unfoldable pub test_share_data_store : ℤ → List ℕ → ℕ → ℕ × ℤ
test_share_data_store share_data buf count =
    (count, elim (scan_int buf) [ none ↦ share_data | some n ↦ to_int n ])

abbrev pub led_blue_interrupt : ℤ
led_blue_interrupt = pos 100

abbrev pub led_red_interrupt : ℤ
led_red_interrupt = pos 200

-- What sets `share_data`.
pub data Event : Type 0 where
  stores : List ℕ → ℕ → Event
  blue red : Event

unfoldable pub after : ℤ → List Event → ℤ
after share_data [] = share_data
after share_data (stores buf count ∷ events) =
    after (test_share_data_store share_data buf count).1 events
after share_data (blue ∷ events) = after led_blue_interrupt events
after share_data (red ∷ events) = after led_red_interrupt events

-- The range of an `int`.
abbrev pub IsInt : ℤ → Type 0
IsInt z = (pos_part z < 2 ^ 31) × (neg_part z ≤ 2 ^ 31)

to_int-IsInt : (z : ℤ) → IsInt (to_int z)
to_int-IsInt (pos n) = ground arith
to_int-IsInt (negsuc n) = ground arith

to_int-of_int : (z : ℤ) → IsInt z → to_int z ≡ z
to_int-of_int (pos n) h =
    let small : n % 2 ^ 32 ≡ n = omega arith in
    let fits : ltb n (2 ^ 31) ≡ true = ground arith in rw (small, fits) refl
to_int-of_int (negsuc n) h =
    let small : n % 2 ^ 32 ≡ n = omega arith in
    let fits : ltb n (2 ^ 31) ≡ true = ground arith in rw (small, fits) refl

store-IsInt : (z : ℤ) (o : Option ℤ) → IsInt z → IsInt (elim o [ none ↦ z | some n ↦ to_int n ])
store-IsInt z none h = h
store-IsInt z (some n) h = to_int-IsInt n

after-IsInt : (z : ℤ) (events : List Event) → IsInt z → IsInt (after z events)
unfolding after test_share_data_store
after-IsInt z [] h = h
after-IsInt z (stores buf count ∷ events) h = after-IsInt _ events (store-IsInt z (scan_int buf) h)
after-IsInt z (blue ∷ events) h = after-IsInt led_blue_interrupt events (omega arith, omega arith)
after-IsInt z (red ∷ events) h = after-IsInt led_red_interrupt events (omega arith, omega arith)

-- After any stores, of any texts, also of numbers that no `int` holds, and any interrupts since the
-- load: share_data is an `int`.
pub share_data-IsInt : (events : List Event) → IsInt (after (pos 0) events)
share_data-IsInt events = after-IsInt (pos 0) events (omega arith, omega arith)

-- After any stores, of any texts, and any interrupts since the load: the text that share_data shows,
-- stored later over any value, sets the value that was shown.
pub shown_sets_back :
    (events : List Event) (later : ℤ) (count : ℕ)
    → let share_data = after (pos 0) events in
      test_share_data_store later (test_share_data_show share_data).1 count ≡ (count, share_data)
unfolding test_share_data_store test_share_data_show
shown_sets_back events later count =
    let z : ℤ = after (pos 0) events in
    let h : IsInt z = share_data-IsInt events in
    rw (scan_int-decimal z (omega (arith, h.0)) (omega (arith, h.1)))
      (ap (λ n. (count, n)) (to_int-of_int z h))
