-- ===== src/Std.antt =====
-- What the program uses of the C and C++ standard libraries, over lists of bytes.
pub mod Int
pub mod Number
pub mod Text
pub mod Map
