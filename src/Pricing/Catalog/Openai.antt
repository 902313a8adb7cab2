-- ===== src/Pricing/Catalog/Openai.antt =====
-- The OpenAI entries of pricing.py.
use dduo_solo_founder.Prelude.{none, some}
use dduo_solo_founder.Pricing.Decimal.{dec}
use dduo_solo_founder.Pricing.Catalog.Model.{
  ModelPrice, openai, api_pricing_version, september_api_pricing_version,
  late_september_api_pricing_version, october_api_pricing_version,
}

abbrev pub openai_astra : ModelPrice
openai_astra = record {
  provider = openai;
  canonical_model = "gpt-6-astra";
  input_usd_per_million = dec 10 0;
  cached_input_usd_per_million = dec 1 0;
  cache_write_input_usd_per_million = dec 1250 2;
  output_usd_per_million = dec 50 0;
  context_window_tokens = 1050000;
  max_output_tokens = none;
  long_context_threshold_input_tokens = some 272000;
  long_context_input_multiplier = dec 2 0;
  long_context_output_multiplier = dec 15 1;
  pricing_version = september_api_pricing_version;
}

abbrev pub openai_sol_61 : ModelPrice
openai_sol_61 = record {
  provider = openai;
  canonical_model = "gpt-6.1-sol";
  input_usd_per_million = dec 2 0;
  cached_input_usd_per_million = dec 10 2;
  cache_write_input_usd_per_million = dec 250 2;
  output_usd_per_million = dec 10 0;
  context_window_tokens = 1050000;
  max_output_tokens = some 128000;
  long_context_threshold_input_tokens = some 272000;
  long_context_input_multiplier = dec 2 0;
  long_context_output_multiplier = dec 15 1;
  pricing_version = october_api_pricing_version;
}

abbrev pub openai_sol_6 : ModelPrice
openai_sol_6 = record {
  provider = openai;
  canonical_model = "gpt-6-sol";
  input_usd_per_million = dec 2 0;
  cached_input_usd_per_million = dec 20 2;
  cache_write_input_usd_per_million = dec 250 2;
  output_usd_per_million = dec 10 0;
  context_window_tokens = 1050000;
  max_output_tokens = some 128000;
  long_context_threshold_input_tokens = some 272000;
  long_context_input_multiplier = dec 2 0;
  long_context_output_multiplier = dec 15 1;
  pricing_version = late_september_api_pricing_version;
}

abbrev pub openai_luna_6 : ModelPrice
openai_luna_6 = record {
  provider = openai;
  canonical_model = "gpt-6-luna";
  input_usd_per_million = dec 10 2;
  cached_input_usd_per_million = dec 1 2;
  cache_write_input_usd_per_million = dec 125 3;
  output_usd_per_million = dec 50 2;
  context_window_tokens = 1050000;
  max_output_tokens = some 128000;
  long_context_threshold_input_tokens = some 272000;
  long_context_input_multiplier = dec 2 0;
  long_context_output_multiplier = dec 15 1;
  pricing_version = late_september_api_pricing_version;
}

abbrev pub openai_sol : ModelPrice
openai_sol = record {
  provider = openai;
  canonical_model = "gpt-5.6-sol";
  input_usd_per_million = dec 4 0;
  cached_input_usd_per_million = dec 40 2;
  cache_write_input_usd_per_million = dec 5 0;
  output_usd_per_million = dec 20 0;
  context_window_tokens = 1050000;
  max_output_tokens = none;
  long_context_threshold_input_tokens = some 272000;
  long_context_input_multiplier = dec 2 0;
  long_context_output_multiplier = dec 15 1;
  pricing_version = api_pricing_version;
}

abbrev pub openai_terra : ModelPrice
openai_terra = record {
  provider = openai;
  canonical_model = "gpt-5.6-terra";
  input_usd_per_million = dec 2 0;
  cached_input_usd_per_million = dec 20 2;
  cache_write_input_usd_per_million = dec 250 2;
  output_usd_per_million = dec 12 0;
  context_window_tokens = 1050000;
  max_output_tokens = none;
  long_context_threshold_input_tokens = some 272000;
  long_context_input_multiplier = dec 2 0;
  long_context_output_multiplier = dec 15 1;
  pricing_version = api_pricing_version;
}

abbrev pub openai_luna : ModelPrice
openai_luna = record {
  provider = openai;
  canonical_model = "gpt-5.6-luna";
  input_usd_per_million = dec 20 2;
  cached_input_usd_per_million = dec 2 2;
  cache_write_input_usd_per_million = dec 25 2;
  output_usd_per_million = dec 120 2;
  context_window_tokens = 1050000;
  max_output_tokens = none;
  long_context_threshold_input_tokens = some 272000;
  long_context_input_multiplier = dec 2 0;
  long_context_output_multiplier = dec 15 1;
  pricing_version = api_pricing_version;
}
