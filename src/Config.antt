-- ===== src/Config.antt =====
-- class ParseConfig, libtun/include/libtun/impl/parser/ParseConfig.cc: the reader of configuration
-- files.
pub mod Text
pub mod Order
pub mod Trim
pub mod Line
pub mod Entry
pub mod Laws
pub mod File
pub mod Total
pub mod Written
pub mod RoundTrip
pub mod Misread
