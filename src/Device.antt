-- ===== src/Device.antt =====
-- device/: the classes between the kernel and the hardware classes.
pub mod Watch
pub mod Keyboard
