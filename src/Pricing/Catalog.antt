-- ===== src/Pricing/Catalog.antt =====
-- The table of list prices of pricing.py and its lookup.
mod Model
mod Openai
mod Anthropic
mod Entries
unfoldable pub use Model.*
unfoldable pub use Entries.*
