-- ===== src/Orders/Tests.antt =====
-- The theorems on the order service at concrete data, and runs of its functions.
mod Data
mod Confirming
mod Managing
mod Placing
mod Repricing
