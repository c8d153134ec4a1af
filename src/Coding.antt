-- ===== src/Coding.antt =====
-- base/coding.cc. A std::string is the list of its bytes, each a number below 256; an output
-- argument is part of the result, so that the tests for a NULL output have no counterpart.
pub mod Fixed
mod Var
pub mod ZigZag
pub mod Url
pub mod Base16
pub mod Masks
pub mod Chunks
pub mod Base64
pub mod Base32
pub mod Memcomparable
pub mod Find
pub mod Split
mod Tests
