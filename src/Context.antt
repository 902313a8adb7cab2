-- ===== src/Context.antt =====
-- backend/dduo_solo_founder/context_budget.py: the automatic context under a hard size budget.
pub mod Text
pub mod Json
pub mod Digits
pub mod Fragment
pub mod Measure
pub mod Render
pub mod Delivery
pub mod Compose
pub mod Streaming
pub mod Budget
pub mod Prefix
pub mod Order
pub mod Totals
