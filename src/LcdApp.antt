-- ===== src/LcdApp.antt =====
-- custom_drivers/007_gpio_sysfs_lcd: the program that shows a message on the LCD from user space, through
-- the attribute files of the gpio-sysfs driver beside it.
pub mod Cmd
pub mod Driver
pub mod Panel
pub mod Gpio
pub mod Main
pub mod Alike
pub mod Shown
pub mod Round
pub mod Clock
pub mod Loop
pub mod Driven
pub mod Writes
pub mod System
mod Tests
