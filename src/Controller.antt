-- ===== src/Controller.antt =====
-- The Identify Controller data and the command that reads it: src/NVMeIdentifyController.h and
-- src/NVMeIdentifyController.c.
pub mod Fields
pub mod Attributes
pub mod Structure
pub mod Layout
pub mod Version
pub mod Workaround
pub mod Identify
pub mod Report
