-- ===== src/Validators.antt =====
-- backend/validators.py: names, values put into SQL text, and addresses.
pub mod Escape
pub mod Url
