-- ===== src/Scsi.antt =====
-- Commands by SCSI pass-through: src/NVMeSCSIPassThrough.c.
pub mod Adapter
pub mod Properties
pub mod Transfer
pub mod Security
