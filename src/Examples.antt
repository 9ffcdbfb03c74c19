-- ===== src/Examples.antt =====
-- Runs of the code on small inputs, over the functions of `Crates.Toy`.
mod Shared
mod Schemes
mod Composite
mod Wallets
mod Wire
mod Contracts
mod Targets
mod Browser
mod Programs
mod Attacks
mod Tampering
