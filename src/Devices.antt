-- ===== src/Devices.antt =====
-- kernel/devices: the keyboard.
pub mod Keyboard
pub mod Tty
