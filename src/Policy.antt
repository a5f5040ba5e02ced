-- ===== src/Policy.antt =====
-- src/siglatch/app/policy/policy.c and src/stdlib/net/ip/range/range.c: which addresses may ask.
pub mod Range
pub mod Access
pub mod Blank
pub mod Mask
mod Tests
