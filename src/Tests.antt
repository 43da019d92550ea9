-- ===== src/Tests.antt =====
-- The theorems at concrete inputs.
pub mod Toy
pub mod Proving
pub mod Bundling
pub mod Redeeming
pub mod Allotting
pub mod Redeemed
pub mod Spending
pub mod Registering
pub mod Claiming
pub mod Refunding
pub mod Trees
pub mod Confirming
pub mod Minting
pub mod Custody
pub mod Pricing
