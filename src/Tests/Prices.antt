-- ===== src/Tests/Prices.antt =====
-- pricing.py at one OpenAI sample with cached tokens and reasoning.
use dduo_solo_founder.Prelude.{ℕ, ◌+◌, ◌*◌, ◌^◌, ◌≤◌, ◌≡◌, refl, none, some}
use dduo_solo_founder.Pricing.Decimal.{dec, pico_usd}
use dduo_solo_founder.Pricing.Decimal.Exact.{pico_value}
use dduo_solo_founder.Pricing.Catalog.{
  ModelPrice, openai, get_price, provider_alias, resolve_model_price, october_api_pricing_version,
}
use dduo_solo_founder.Pricing.Cost.{
  Usage, natural, missing, Counts, CacheTtl, EquivalentApiCost, cost_at, api_equivalent_cost,
  ttl_supported, parse_counts, prompt_counts, billable, price_billable, numeric_details,
}
use dduo_solo_founder.Pricing.Cost.Accepted.{
  reasoning_not_charged, api_equivalent_cost_bills_once, billed_tokens, reported_prompt,
}
use dduo_solo_founder.Pricing.Cost.Precision.{numeric_details_exact, cost_digits}

abbrev sample : Usage
sample = record {
  input_tokens = natural 300000;
  cached_input_tokens = natural 200000;
  cache_write_input_tokens = natural 0;
  output_tokens = natural 1000;
  reasoning_tokens = natural 400;
}

abbrev sample_counts : Counts
sample_counts = record {
  input_count = 300000;
  cached_count = 200000;
  cache_write_count = 0;
  output_count = 1000;
  reasoning_count = 400;
}

-- long context: input at twice, output at one and a half times the rate
abbrev sample_cost : EquivalentApiCost
sample_cost = record {
  cost_usd = dec 45500000 8;
  uncached_input_cost_usd = dec 400000 6;
  cached_input_cost_usd = dec 4000000 8;
  cache_write_input_cost_usd = dec 0 8;
  output_cost_usd = dec 150000 7;
  pricing_version = october_api_pricing_version;
  canonical_provider = openai;
  canonical_model = "gpt-6.1-sol";
  unit_price_usd_per_million = none;
}

sample_priced :
    api_equivalent_cost (some "codex") (some "gpt-6.1-sol") CacheTtl.unset sample ≡ some sample_cost
unfolding api_equivalent_cost resolve_model_price get_price provider_alias cost_at ttl_supported
    parse_counts prompt_counts billable price_billable
sample_priced = refl

api_equivalent_cost_bills_once_example :
    (price : ModelPrice) × (c : Counts) × (base : ℕ) × (prompt : ℕ) × (resolve_model_price
        (some "codex")
        (some "gpt-6.1-sol")
      ≡ some price)
    × (parse_counts sample ≡ some c)
    × (sample_cost ≡ price_billable price (billable price CacheTtl.unset c base prompt))
    × (billed_tokens (billable price CacheTtl.unset c base prompt)
        ≡ reported_prompt price.provider c)
    × ((billable price CacheTtl.unset c base prompt).output.0 ≡ c.output_count)
api_equivalent_cost_bills_once_example =
    api_equivalent_cost_bills_once (some "codex") (some "gpt-6.1-sol") CacheTtl.unset sample
      sample_priced

reasoning_not_charged_example :
    (api_equivalent_cost
        (some "codex")
        (some "gpt-6.1-sol")
        CacheTtl.unset
        (record sample { reasoning_tokens = missing })
      ≡ some sample_cost)
    × ((c : Counts) × (parse_counts sample ≡ some c) × (c.reasoning_count ≤ c.output_count))
reasoning_not_charged_example =
    reasoning_not_charged (some "codex") (some "gpt-6.1-sol") CacheTtl.unset sample sample_priced

numeric_details_exact_example :
    (parts : ℕ × ℕ × ℕ × ℕ) × (numeric_details sample_cost ≡ some parts)
    × (pico_usd sample_cost.cost_usd ≡ some (parts.0 + parts.1 + parts.2 + parts.3))
numeric_details_exact_example =
    numeric_details_exact (some "codex") (some "gpt-6.1-sol") CacheTtl.unset sample sample_priced

cost_digits_example :
    (sample_cost.cost_usd.coef ≤ 4 * 10 ^ 17) × (pico_value sample_cost.cost_usd ≤ 4 * 10 ^ 17)
cost_digits_example =
    cost_digits (some "codex") (some "gpt-6.1-sol") CacheTtl.unset sample sample_priced
