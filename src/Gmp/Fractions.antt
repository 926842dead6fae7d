-- ===== src/Gmp/Fractions.antt =====
-- The rationals: fractions of integers up to cross multiplication. They show that what `Mpq` asks for
-- can be met.
mod Raw
mod Lowest
pub mod Rationals
