-- ===== src/GpioSysfs/Labels.antt =====
-- The labels that gpio-sysfs.c gives to GPIOs whose node has none.
use mad_devicedriver.Prelude.{
  ℕ, ◌^◌, ◌<◌, ◌≤◌, ◌≡◌, ◌≢◌, sym, ap, ◌∙◌, arith, List, [], ◌∷◌, ◌++◌, none, take-all, length,
}
use mad_devicedriver.Prelude.Decimal.{digits}
use mad_devicedriver.Prelude.Scan.{scan_digits-digits, scan_digits, length-digits_le}
use mad_devicedriver.Kernel.{Outcome, done}
use mad_devicedriver.GpioSysfs.{unknown_gpio, set_label}

digits-distinct : (i j : ℕ) → i < 10 ^ 20 → j < 10 ^ 20 → digits 20 i ≡ digits 20 j → i ≡ j
digits-distinct i j h k e =
    sym (scan_digits-digits 20 i h) ∙ (ap (scan_digits 0) e ∙ scan_digits-digits 20 j k)

-- The label is not cut: an `int` has at most ten digits.
pub unlabelled : (i : ℕ) → i < 2 ^ 31 → set_label i none ≡ done (unknown_gpio ++ digits 20 i)
unfolding set_label
unlabelled i h =
    ap done (take-all 19 (unknown_gpio ++ digits 20 i) (omega (arith, length-digits_le 9 20 i)))

abbrev body : Outcome (List ℕ) → List ℕ
body (done (c1 ∷ c2 ∷ c3 ∷ c4 ∷ c5 ∷ c6 ∷ c7 ∷ c8 ∷ cs)) = cs
body _ = []

-- Two GPIOs without a label: the one with number `i` gets "unkngpio" and this number, whole, in at most
-- eighteen of the twenty bytes of the label, so that its terminator fits; and the two labels differ.
pub unlabelled_differ :
    (i j : ℕ)
    → i < 2 ^ 31
    → j < 2 ^ 31
    → i ≢ j
    → (set_label i none ≡ done (unknown_gpio ++ digits 20 i))
      × (length (unknown_gpio ++ digits 20 i) ≤ 18)
      × (set_label i none ≢ set_label j none)
unlabelled_differ i j h k different = (
  unlabelled i h,
  omega (arith, length-digits_le 9 20 i),
  λ e. different (
      digits-distinct i j (omega arith) (omega arith)
        (ap body (sym (unlabelled i h) ∙ (e ∙ unlabelled j k)))),
)
