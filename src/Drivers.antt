-- ===== src/Drivers.antt =====
-- kernel/drivers: the driver of the ATA disk.
pub mod Ata
