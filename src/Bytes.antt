-- ===== src/Bytes.antt =====
-- Python's `bytes` as lists of numbers, their order, `bytes.hex` and `bytes.fromhex`, and what
-- the program takes from `hashlib`. A `str` that holds hexadecimal digits is its code points.
mod Order
mod Hex
pub mod Toy
pub use Order.*
unfoldable pub use Hex.*
