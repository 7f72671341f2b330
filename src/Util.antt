-- ===== src/Util.antt =====
-- kernel/include/util: the bitmap helpers and the powers of two.
pub mod Bitmap
pub mod Math
