-- ===== src/Pricing/Catalog/Model.antt =====
-- `ModelPrice` and the price list versions of pricing.py.
use dduo_solo_founder.Prelude.{ℕ, String, Option}
use dduo_solo_founder.Pricing.Decimal.{Decimal}

abbrev pub api_pricing_version : String
api_pricing_version = "api-list-prices-2026-08-29"

abbrev pub september_api_pricing_version : String
september_api_pricing_version = "api-list-prices-2026-09-05"

abbrev pub late_september_api_pricing_version : String
late_september_api_pricing_version = "api-list-prices-2026-09-22"

abbrev pub october_api_pricing_version : String
october_api_pricing_version = "api-list-prices-2026-10-23"

pub data Provider : Type 0 where
  openai anthropic : Provider

pub record ModelPrice : Type 0 where
  pub provider : Provider
  pub canonical_model : String
  pub input_usd_per_million : Decimal
  pub cached_input_usd_per_million : Decimal
  pub cache_write_input_usd_per_million : Decimal
  pub output_usd_per_million : Decimal
  pub context_window_tokens : ℕ
  pub max_output_tokens : Option ℕ
  pub long_context_threshold_input_tokens : Option ℕ
  pub long_context_input_multiplier : Decimal
  pub long_context_output_multiplier : Decimal
  pub pricing_version : String
