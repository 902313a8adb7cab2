-- ===== src/Pricing/Catalog/Anthropic.antt =====
-- The Anthropic entries of pricing.py.
use dduo_solo_founder.Prelude.{none, some}
use dduo_solo_founder.Pricing.Decimal.{dec}
use dduo_solo_founder.Pricing.Catalog.Model.{
  ModelPrice, anthropic, api_pricing_version, september_api_pricing_version,
  october_api_pricing_version,
}

abbrev pub claude_opus_55 : ModelPrice
claude_opus_55 = record {
  provider = anthropic;
  canonical_model = "claude-opus-5-5";
  input_usd_per_million = dec 4 0;
  cached_input_usd_per_million = dec 20 2;
  cache_write_input_usd_per_million = dec 5 0;
  output_usd_per_million = dec 20 0;
  context_window_tokens = 1000000;
  max_output_tokens = some 128000;
  long_context_threshold_input_tokens = none;
  long_context_input_multiplier = dec 1 0;
  long_context_output_multiplier = dec 1 0;
  pricing_version = october_api_pricing_version;
}

abbrev pub claude_sonnet_55 : ModelPrice
claude_sonnet_55 = record {
  provider = anthropic;
  canonical_model = "claude-sonnet-5-5";
  input_usd_per_million = dec 2 0;
  cached_input_usd_per_million = dec 10 2;
  cache_write_input_usd_per_million = dec 250 2;
  output_usd_per_million = dec 10 0;
  context_window_tokens = 1000000;
  max_output_tokens = some 128000;
  long_context_threshold_input_tokens = none;
  long_context_input_multiplier = dec 1 0;
  long_context_output_multiplier = dec 1 0;
  pricing_version = october_api_pricing_version;
}

abbrev pub claude_haiku_55 : ModelPrice
claude_haiku_55 = record {
  provider = anthropic;
  canonical_model = "claude-haiku-5-5";
  input_usd_per_million = dec 10 2;
  cached_input_usd_per_million = dec 1 2;
  cache_write_input_usd_per_million = dec 125 3;
  output_usd_per_million = dec 50 2;
  context_window_tokens = 1000000;
  max_output_tokens = some 128000;
  long_context_threshold_input_tokens = some 100000;
  long_context_input_multiplier = dec 5 0;
  long_context_output_multiplier = dec 5 0;
  pricing_version = october_api_pricing_version;
}

abbrev pub claude_fable_51 : ModelPrice
claude_fable_51 = record {
  provider = anthropic;
  canonical_model = "claude-fable-5-1";
  input_usd_per_million = dec 10 0;
  cached_input_usd_per_million = dec 25 2;
  cache_write_input_usd_per_million = dec 1250 2;
  output_usd_per_million = dec 50 0;
  context_window_tokens = 1000000;
  max_output_tokens = none;
  long_context_threshold_input_tokens = none;
  long_context_input_multiplier = dec 1 0;
  long_context_output_multiplier = dec 1 0;
  pricing_version = september_api_pricing_version;
}

abbrev pub claude_fable_5 : ModelPrice
claude_fable_5 = record {
  provider = anthropic;
  canonical_model = "claude-fable-5";
  input_usd_per_million = dec 10 0;
  cached_input_usd_per_million = dec 1 0;
  cache_write_input_usd_per_million = dec 1250 2;
  output_usd_per_million = dec 50 0;
  context_window_tokens = 1000000;
  max_output_tokens = none;
  long_context_threshold_input_tokens = none;
  long_context_input_multiplier = dec 1 0;
  long_context_output_multiplier = dec 1 0;
  pricing_version = api_pricing_version;
}

abbrev pub claude_opus_5 : ModelPrice
claude_opus_5 = record {
  provider = anthropic;
  canonical_model = "claude-opus-5";
  input_usd_per_million = dec 5 0;
  cached_input_usd_per_million = dec 50 2;
  cache_write_input_usd_per_million = dec 625 2;
  output_usd_per_million = dec 25 0;
  context_window_tokens = 1000000;
  max_output_tokens = none;
  long_context_threshold_input_tokens = none;
  long_context_input_multiplier = dec 1 0;
  long_context_output_multiplier = dec 1 0;
  pricing_version = api_pricing_version;
}

abbrev pub claude_opus_48 : ModelPrice
claude_opus_48 = record {
  provider = anthropic;
  canonical_model = "claude-opus-4-8";
  input_usd_per_million = dec 5 0;
  cached_input_usd_per_million = dec 50 2;
  cache_write_input_usd_per_million = dec 625 2;
  output_usd_per_million = dec 25 0;
  context_window_tokens = 1000000;
  max_output_tokens = none;
  long_context_threshold_input_tokens = none;
  long_context_input_multiplier = dec 1 0;
  long_context_output_multiplier = dec 1 0;
  pricing_version = api_pricing_version;
}

abbrev pub claude_opus_47 : ModelPrice
claude_opus_47 = record {
  provider = anthropic;
  canonical_model = "claude-opus-4-7";
  input_usd_per_million = dec 5 0;
  cached_input_usd_per_million = dec 50 2;
  cache_write_input_usd_per_million = dec 625 2;
  output_usd_per_million = dec 25 0;
  context_window_tokens = 1000000;
  max_output_tokens = none;
  long_context_threshold_input_tokens = none;
  long_context_input_multiplier = dec 1 0;
  long_context_output_multiplier = dec 1 0;
  pricing_version = api_pricing_version;
}

abbrev pub claude_opus_46 : ModelPrice
claude_opus_46 = record {
  provider = anthropic;
  canonical_model = "claude-opus-4-6";
  input_usd_per_million = dec 5 0;
  cached_input_usd_per_million = dec 50 2;
  cache_write_input_usd_per_million = dec 625 2;
  output_usd_per_million = dec 25 0;
  context_window_tokens = 1000000;
  max_output_tokens = none;
  long_context_threshold_input_tokens = none;
  long_context_input_multiplier = dec 1 0;
  long_context_output_multiplier = dec 1 0;
  pricing_version = api_pricing_version;
}

abbrev pub claude_opus_45 : ModelPrice
claude_opus_45 = record {
  provider = anthropic;
  canonical_model = "claude-opus-4-5-20251101";
  input_usd_per_million = dec 5 0;
  cached_input_usd_per_million = dec 50 2;
  cache_write_input_usd_per_million = dec 625 2;
  output_usd_per_million = dec 25 0;
  context_window_tokens = 200000;
  max_output_tokens = none;
  long_context_threshold_input_tokens = none;
  long_context_input_multiplier = dec 1 0;
  long_context_output_multiplier = dec 1 0;
  pricing_version = api_pricing_version;
}

abbrev pub claude_sonnet_5 : ModelPrice
claude_sonnet_5 = record {
  provider = anthropic;
  canonical_model = "claude-sonnet-5";
  input_usd_per_million = dec 2 0;
  cached_input_usd_per_million = dec 20 2;
  cache_write_input_usd_per_million = dec 250 2;
  output_usd_per_million = dec 10 0;
  context_window_tokens = 1000000;
  max_output_tokens = none;
  long_context_threshold_input_tokens = none;
  long_context_input_multiplier = dec 1 0;
  long_context_output_multiplier = dec 1 0;
  pricing_version = api_pricing_version;
}

abbrev pub claude_sonnet_46 : ModelPrice
claude_sonnet_46 = record {
  provider = anthropic;
  canonical_model = "claude-sonnet-4-6";
  input_usd_per_million = dec 3 0;
  cached_input_usd_per_million = dec 30 2;
  cache_write_input_usd_per_million = dec 375 2;
  output_usd_per_million = dec 15 0;
  context_window_tokens = 1000000;
  max_output_tokens = none;
  long_context_threshold_input_tokens = none;
  long_context_input_multiplier = dec 1 0;
  long_context_output_multiplier = dec 1 0;
  pricing_version = api_pricing_version;
}

abbrev pub claude_sonnet_45 : ModelPrice
claude_sonnet_45 = record {
  provider = anthropic;
  canonical_model = "claude-sonnet-4-5-20250929";
  input_usd_per_million = dec 3 0;
  cached_input_usd_per_million = dec 30 2;
  cache_write_input_usd_per_million = dec 375 2;
  output_usd_per_million = dec 15 0;
  context_window_tokens = 200000;
  max_output_tokens = none;
  long_context_threshold_input_tokens = none;
  long_context_input_multiplier = dec 1 0;
  long_context_output_multiplier = dec 1 0;
  pricing_version = api_pricing_version;
}

abbrev pub claude_haiku_45 : ModelPrice
claude_haiku_45 = record {
  provider = anthropic;
  canonical_model = "claude-haiku-4-5-20251001";
  input_usd_per_million = dec 1 0;
  cached_input_usd_per_million = dec 10 2;
  cache_write_input_usd_per_million = dec 125 2;
  output_usd_per_million = dec 5 0;
  context_window_tokens = 200000;
  max_output_tokens = none;
  long_context_threshold_input_tokens = none;
  long_context_input_multiplier = dec 1 0;
  long_context_output_multiplier = dec 1 0;
  pricing_version = api_pricing_version;
}
