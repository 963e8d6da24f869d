-- ===== src/GpioSysfs/Attributes.antt =====
-- The attributes direction and value: what a store does.
use mad_devicedriver.Prelude.{
  ◌⊎◌, inl, inr, Bool-cases, ℕ, ◌≡◌, arith, List, true, false, none, some,
}
use mad_devicedriver.Kernel.{Option-cases, Errno, einval, value, error, TextApi}
use mad_devicedriver.GpioSysfs.{
  GpioApi, GpioLaws, GpiodevPrivateData, in_text, out_text, line_of, direction_show,
  direction_store,
}

module _ {Desc : Type 0} (g : GpioApi Desc) (laws : GpioLaws g) (api : TextApi)
    (d : GpiodevPrivateData Desc) (buf : List ℕ) (count : ℕ) where
  direction_store-cases :
      let (ret, d') = direction_store g api d buf count in
      (d'.label ≡ d.label)
      × (api.sysfs_streq buf in_text ≡ true
          → ((g.direction_input d.desc).0 ≡ none
              → (ret ≡ value count) × (direction_show g d' ≡ line_of in_text))
            × ((e : Errno) → (g.direction_input d.desc).0 ≡ some e → ret ≡ error e))
      × (api.sysfs_streq buf in_text ≡ false
          → api.sysfs_streq buf out_text ≡ true
          → ((g.direction_output d.desc 0).0 ≡ none
              → (ret ≡ value count) × (direction_show g d' ≡ line_of out_text))
            × ((e : Errno) → (g.direction_output d.desc 0).0 ≡ some e → ret ≡ error e))
      × (api.sysfs_streq buf in_text ≡ false
          → api.sysfs_streq buf out_text ≡ false
          → (ret ≡ error einval) × (d' ≡ d))
  unfolding direction_store direction_show
  direction_store-cases = (
    ground arith,
    λ p. (λ ok. ground (arith, laws.input_set d.desc), λ e failed. ground arith),
    λ p q. (λ ok. ground (arith, laws.output_set d.desc 0), λ e failed. ground arith),
    λ p q. ground arith,
  )

  -- "in" and "out" written to direction are what is shown next, with the whole write taken, unless the
  -- GPIO refuses, and its error is then returned; every other text is refused with -EINVAL and the
  -- device as it was. No write changes the label.
  pub direction_shown :
      let (ret, d') = direction_store g api d buf count in
      (d'.label ≡ d.label)
      × (((api.sysfs_streq buf in_text ≡ true)
            × ((((g.direction_input d.desc).0 ≡ none)
                  × ((ret ≡ value count) × (direction_show g d' ≡ line_of in_text)))
                ⊎ ((e : Errno) × ((g.direction_input d.desc).0 ≡ some e) × (ret ≡ error e))))
          ⊎ ((api.sysfs_streq buf in_text ≡ false)
              × (api.sysfs_streq buf out_text ≡ true)
              × ((((g.direction_output d.desc 0).0 ≡ none)
                    × ((ret ≡ value count) × (direction_show g d' ≡ line_of out_text)))
                  ⊎ ((e : Errno) × ((g.direction_output d.desc 0).0 ≡ some e) × (ret ≡ error e))))
          ⊎ ((api.sysfs_streq buf in_text ≡ false)
              × (api.sysfs_streq buf out_text ≡ false)
              × ((ret ≡ error einval) × (d' ≡ d))))
  direction_shown =
      let (label, is_in, is_out, is_neither) = direction_store-cases in
      (
        label,
        elim (Bool-cases (api.sysfs_streq buf in_text)) [
          | inl p ↦ elim (Option-cases (g.direction_input d.desc).0) [
            | inl ok ↦ inl (p, inl (ok, (is_in p).0 ok))
            | inr (e, failed) ↦ inl (p, inr (e, failed, (is_in p).1 e failed))
          ]
          | inr p ↦ elim (Bool-cases (api.sysfs_streq buf out_text)) [
            | inl q ↦ elim (Option-cases (g.direction_output d.desc 0).0) [
              | inl ok ↦ inr (inl (p, q, inl (ok, (is_out p q).0 ok)))
              | inr (e, failed) ↦ inr (inl (p, q, inr (e, failed, (is_out p q).1 e failed)))
            ]
            | inr q ↦ inr (inr (p, q, is_neither p q))
          ]
        ],
      )
