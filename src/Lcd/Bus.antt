-- ===== src/Lcd/Bus.antt =====
-- custom_drivers/008lcd_platform_driver/gpio.c and lcd_platform_driver.h: the GPIO lines, and what
-- the driver does on them. The GPIO consumer functions of the kernel are code outside the
-- repository: a run of the driver is the list of its calls.
use mad_devicedriver.Prelude.{ℕ, List, [], ◌∷◌, ◌==◌, if◌then◌else◌}

-- The indices of `desc`.
pub data Line : Type 0 where
  lcd_rs lcd_rw lcd_en lcd_d4 lcd_d5 lcd_d6 lcd_d7 : Line

-- gpiod_set_value, gpiod_direction_output (with its first level), gpiod_direction_input, and the
-- delays in microseconds.
pub data Event : Type 0 where
  set_value : Line → ℕ → Event
  direction_output : Line → ℕ → Event
  direction_input : Line → Event
  delay : ℕ → Event

abbrev pub gpio_configure_dir : Line → ℕ → List Event
gpio_configure_dir desc_id dir_value =
    if dir_value == 0 then direction_input desc_id ∷ [] else direction_output desc_id 0 ∷ []

abbrev pub gpio_write_value : Line → ℕ → List Event
gpio_write_value desc_id out_value = set_value desc_id out_value ∷ []
