-- ===== src/Checks.antt =====
-- The checks that decide a verdict by themselves, of equivalent/components.
pub mod Manifest
pub mod Property
