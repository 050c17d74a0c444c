-- ===== src/Examples.antt =====
-- The theorems at concrete inputs, with a small concrete generator and hash.
mod Toy
mod Programs
mod Menu
mod Bench
mod Outputs
mod Util
mod Net
mod Iknp
mod Kkrt
mod NaorPinkas
mod Factory
