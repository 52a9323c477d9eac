-- ===== src/Features.antt =====
-- Get Features and Set Features: src/NVMeGetFeatures.c, src/NVMeSetFeatures.c and the files
-- src/NVMeFeatures*.c.
pub mod Reads
pub mod Fields
pub mod Reports
pub mod Thermal
pub mod WriteCache
pub mod Timestamp
pub mod Sensors
pub mod Setting
pub mod Structures
