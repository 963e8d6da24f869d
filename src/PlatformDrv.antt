-- ===== src/PlatformDrv.antt =====
-- device_driver/platform_drv.c: a platform driver whose operations only log, and its registration.
use mad_devicedriver.Prelude.{List, [], ◌∷◌, ◌++◌, ◌≡◌, ◌⊎◌, inl, inr, refl, Option, none, some}
use mad_devicedriver.Kernel.{Errno, Ret, value, error}
use mad_devicedriver.Setup.{driver, Call, acquire, release, replay, nothing}

abbrev devicemodel_probe : Ret
devicemodel_probe = value 0

abbrev devicemodel_remove : Ret
devicemodel_remove = value 0

abbrev devicemodel_suspend : Ret
devicemodel_suspend = value 0

abbrev devicemodel_resume : Ret
devicemodel_resume = value 0

-- platform_driver_register, and its result.
unfoldable devicemodel_init : Option Errno → Ret × List Call
devicemodel_init (some e) = (error e, [])
devicemodel_init none = (value 0, acquire driver ∷ [])

unfoldable devicemodel_exit : List Call
devicemodel_exit = release driver ∷ []

-- An init that returns 0 registers the driver, and the exit function gives it back; an init that does
-- not returns the error of the registration, and holds nothing.
init_then_exit :
    (register : Option Errno)
    → let (ret, calls) = devicemodel_init register in
      ((ret ≡ value 0) × (replay (calls ++ devicemodel_exit) nothing ≡ nothing))
      ⊎ ((e : Errno) × (register ≡ some e) × (ret ≡ error e) × (replay calls nothing ≡ nothing))
unfolding devicemodel_init devicemodel_exit
init_then_exit none = inl (refl, refl)
init_then_exit (some e) = inr (e, refl, refl, refl)
