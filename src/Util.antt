-- ===== src/Util.antt =====
-- util/common.h: single bits of a vector of blocks, and the bit matrix transposition.
pub mod Memory
pub mod Transpose
pub mod Bytes
