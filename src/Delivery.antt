-- ===== src/Delivery.antt =====
-- Who may be told what, and when (src/proactive_mcp/store/_delivery_eligibility.py,
-- _situation_claim.py, _delivery_receipt.py): direct claims, leases and their confirmation.
pub mod Eligibility
pub mod Receipts
pub mod Claim
pub mod Reserve
pub mod Confirm
