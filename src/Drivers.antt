-- ===== src/Drivers.antt =====
-- driver: the kernel modules with logic of their own. The kernel's functions are parameters.
pub mod Words
pub mod Regmap
pub mod RegisterFile
pub mod RegisterBus
pub mod Iio
pub mod Probe
pub mod Ap3216c
pub mod Motion
pub mod Button
pub mod Gpio
pub mod FakeRtc
pub mod Sysfs
pub mod Kset
pub mod Chardev
mod Tests
