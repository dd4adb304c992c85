-- ===== src/Liquid/Tests.antt =====
-- The theorems on Liquid arrays at concrete inputs, over packings, aggregates and conversions that
-- have the properties assumed of the crates.
mod Packing
mod Kernels
mod Integers
mod Dates
