-- ===== src/Pricing.antt =====
-- backend/dduo_solo_founder/pricing.py: list prices and the API-equivalent cost of a usage sample.
pub mod Decimal
pub mod Catalog
pub mod Cost
