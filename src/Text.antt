-- ===== src/Text.antt =====
-- The string helpers of the metadata service, and the parts of the C++ library it uses for text.
pub mod Decimal
pub mod Split
