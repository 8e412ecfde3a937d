-- ===== src/Std.antt =====
-- What the program uses of the C++ standard library: ordered keys, `std::map`, `std::set`,
-- numbers as text.
pub mod Key
pub mod Map
pub mod Decimal
pub mod Vector
