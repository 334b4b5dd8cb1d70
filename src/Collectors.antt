-- ===== src/Collectors.antt =====
-- src/collectors: the buffers, the retries, the rates and the bounds of the hardware readings.
pub mod PdhBuffer
pub mod PdhRecovery
pub mod DiskRates
pub mod Gpu
