-- ===== src/Lcd.antt =====
-- custom_drivers/008lcd_platform_driver: a 16x2 character LCD on seven GPIO lines, driven in 4-bit
-- mode.
pub mod Bus
pub mod Cmd
pub mod Panel
pub mod Controller
pub mod Latch
pub mod Screen
pub mod Attributes
pub mod Cursor
pub mod Stores
pub mod Probe
pub mod Lifetime
mod Tests
