-- ===== src/Utils.antt =====
-- utils/: helper functions.
pub mod Math
