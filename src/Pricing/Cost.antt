-- ===== src/Pricing/Cost.antt =====
-- `_tokens`, `api_equivalent_cost` and `embedding_price` of pricing.py.
pub mod Accepted
mod Bounds
pub mod Precision
use dduo_solo_founder.Prelude.{
  ℕ, ◌+◌, ◌-◌, String, Bool, true, false, ◌&&◌, Option, none, some, List, [], ◌∷◌, ltb, leb, str_eq,
  not, if◌then◌else◌,
}
use dduo_solo_founder.Prelude.Options.{guard, ◌>>=◌, ◌>>◌}
use dduo_solo_founder.Pricing.Decimal.{Decimal, dec, mul, add, div_million, equals, pico_usd}
use dduo_solo_founder.Pricing.Catalog.{Provider, openai, anthropic, ModelPrice, resolve_model_price}

-- What a caller may pass as a token count: `None`, a `bool`, an `int` of either sign (`negative n`
-- is -(n + 1)), or something that is no number.
pub data RawCount : Type 0 where
  missing : RawCount
  boolean : Bool → RawCount
  natural : ℕ → RawCount
  negative : ℕ → RawCount
  other : RawCount

unfoldable pub tokens : RawCount → Option ℕ
tokens missing = none
tokens (boolean b) = none
tokens (natural n) = some n
tokens (negative n) = none
tokens other = none

-- the counters of one usage sample, as they are passed
pub record Usage : Type 0 where
  pub input_tokens : RawCount
  pub cached_input_tokens : RawCount
  pub cache_write_input_tokens : RawCount
  pub output_tokens : RawCount
  pub reasoning_tokens : RawCount

pub record Counts : Type 0 where
  pub input_count : ℕ
  pub cached_count : ℕ
  pub cache_write_count : ℕ
  pub output_count : ℕ
  pub reasoning_count : ℕ

pub record EquivalentApiCost : Type 0 where
  pub cost_usd : Decimal
  pub uncached_input_cost_usd : Decimal
  pub cached_input_cost_usd : Decimal
  pub cache_write_input_cost_usd : Decimal
  pub output_cost_usd : Decimal
  pub pricing_version : String
  pub canonical_provider : Provider
  pub canonical_model : String
  pub unit_price_usd_per_million : Option Decimal

-- `cache_write_ttl`: `None`, a text, or a value of another type
pub data CacheTtl : Type 0 where
  unset five_minutes one_hour unsupported : CacheTtl

unfoldable pub ttl_supported : CacheTtl → Bool
ttl_supported unsupported = false
ttl_supported unset = true
ttl_supported five_minutes = true
ttl_supported one_hour = true

-- a missing reasoning count is 0; one that is given must be a count
unfoldable pub optional_tokens : RawCount → Option ℕ
unfolding tokens
optional_tokens missing = some 0
optional_tokens (boolean b) = tokens (boolean b)
optional_tokens (natural n) = tokens (natural n)
optional_tokens (negative n) = tokens (negative n)
optional_tokens other = tokens other

unfoldable pub parse_counts : Usage → Option Counts
unfolding tokens optional_tokens
parse_counts u = do
  input ← tokens u.input_tokens
  cached ← tokens u.cached_input_tokens
  written ← tokens u.cache_write_input_tokens
  output ← tokens u.output_tokens
  reasoning ← optional_tokens u.reasoning_tokens
  some (record {
    input_count = input;
    cached_count = cached;
    cache_write_count = written;
    output_count = output;
    reasoning_count = reasoning;
  })

abbrev pub is_unset : CacheTtl → Bool
is_unset unset = true
is_unset five_minutes = false
is_unset one_hour = false
is_unset unsupported = false

abbrev pub is_one_hour : CacheTtl → Bool
is_one_hour one_hour = true
is_one_hour unset = false
is_one_hour five_minutes = false
is_one_hour unsupported = false

-- the base input count and the prompt size, by the provider's way to count
unfoldable pub prompt_counts : Provider → CacheTtl → Counts → Option (ℕ × ℕ)
prompt_counts openai ttl c =
    if ltb c.input_count (c.cached_count + c.cache_write_count)
    then none
    else some (c.input_count - c.cached_count - c.cache_write_count, c.input_count)
prompt_counts anthropic ttl c =
    if ltb 0 c.cache_write_count && is_unset ttl
    then none
    else some (c.input_count, c.input_count + c.cached_count + c.cache_write_count)

-- `limit is None or not n > limit`
abbrev pub within_limit : ℕ → Option ℕ → Bool
within_limit n none = true
within_limit n (some limit) = leb n limit

abbrev pub exceeds : ℕ → Option ℕ → Bool
exceeds n none = false
exceeds n (some limit) = ltb limit n

abbrev pub one : Decimal
one = dec 1 0

unfoldable pub write_rate : ModelPrice → CacheTtl → ℕ → Decimal
unfolding mul
write_rate price ttl count = elim price.provider [
  | openai ↦ price.cache_write_input_usd_per_million
  | anthropic ↦
      if ltb 0 count && is_one_hour ttl
      then mul price.input_usd_per_million (dec 2 0)
      else price.cache_write_input_usd_per_million
]

-- the four billable classes, each a count and its rate
pub record Billable : Type 0 where
  pub uncached : ℕ × Decimal
  pub cached : ℕ × Decimal
  pub cache_write : ℕ × Decimal
  pub output : ℕ × Decimal

unfoldable pub billable : ModelPrice → CacheTtl → Counts → ℕ → ℕ → Billable
unfolding mul write_rate
billable price ttl c base prompt =
    let long = exceeds prompt price.long_context_threshold_input_tokens in
    let input_multiplier = if long then price.long_context_input_multiplier else one in
    let output_multiplier = if long then price.long_context_output_multiplier else one in
    record {
      uncached = (base, mul price.input_usd_per_million input_multiplier);
      cached = (c.cached_count, mul price.cached_input_usd_per_million input_multiplier);
      cache_write =
          (c.cache_write_count, mul (write_rate price ttl c.cache_write_count) input_multiplier);
      output = (c.output_count, mul price.output_usd_per_million output_multiplier);
    }

-- `Decimal(count) * rate / MILLION`
unfoldable pub component_cost : ℕ × Decimal → Decimal
unfolding mul div_million
component_cost (count, rate) = div_million (mul (dec count 0) rate)

-- The set of the rates that some token was billed at: equal values are kept once.
unfoldable pub contains_rate : Decimal → List Decimal → Bool
unfolding equals
contains_rate r [] = false
contains_rate r (x ∷ xs) = if equals r x then true else contains_rate r xs

abbrev pub add_rate : ℕ × Decimal → List Decimal → List Decimal
add_rate (count, rate) rates =
    if ltb 0 count && not (contains_rate rate rates) then rate ∷ rates else rates

abbrev pub only_one : List Decimal → Option Decimal
only_one [] = none
only_one (r ∷ []) = some r
only_one (r ∷ _ ∷ _) = none

unfoldable pub unit_price : Billable → Option Decimal
unfolding contains_rate
unit_price b =
    only_one
      (add_rate b.output (add_rate b.cache_write (add_rate b.cached (add_rate b.uncached []))))

unfoldable pub price_billable : ModelPrice → Billable → EquivalentApiCost
unfolding component_cost add unit_price
price_billable price b =
    let uncached = component_cost b.uncached in
    let cached = component_cost b.cached in
    let cache_write = component_cost b.cache_write in
    let output = component_cost b.output in
    record {
      cost_usd = add (add (add (add (dec 0 0) uncached) cached) cache_write) output;
      uncached_input_cost_usd = uncached;
      cached_input_cost_usd = cached;
      cache_write_input_cost_usd = cache_write;
      output_cost_usd = output;
      pricing_version = price.pricing_version;
      canonical_provider = price.provider;
      canonical_model = price.canonical_model;
      unit_price_usd_per_million = unit_price b;
    }

-- `api_equivalent_cost` from the resolved price on
unfoldable pub cost_at : ModelPrice → CacheTtl → Usage → Option EquivalentApiCost
cost_at price ttl usage = do
  guard (ttl_supported ttl)
  c ← parse_counts usage
  guard (leb c.reasoning_count c.output_count)
  (base, prompt) ← prompt_counts price.provider ttl c
  guard (within_limit c.output_count price.max_output_tokens)
  guard (leb (prompt + c.output_count) price.context_window_tokens)
  some (price_billable price (billable price ttl c base prompt))

unfoldable pub api_equivalent_cost :
    Option String → Option String → CacheTtl → Usage → Option EquivalentApiCost
api_equivalent_cost provider model ttl usage = do
  price ← resolve_model_price provider model
  cost_at price ttl usage

-- `EquivalentApiCost.numeric_details`; `none` stands for the `ValueError` of `_pico_usd`
unfoldable pub numeric_details : EquivalentApiCost → Option (ℕ × ℕ × ℕ × ℕ)
unfolding pico_usd
numeric_details e = do
  uncached ← pico_usd e.uncached_input_cost_usd
  cached ← pico_usd e.cached_input_cost_usd
  written ← pico_usd e.cache_write_input_cost_usd
  output ← pico_usd e.output_cost_usd
  some (uncached, cached, written, output)

abbrev pub embedding_price_per_million : Decimal
embedding_price_per_million = dec 13 2

abbrev pub embedding_pricing_version : String
embedding_pricing_version = "openai-text-embedding-3-large-2026-08"

-- the three results of `embedding_price` are `None` together
unfoldable pub embedding_price : Option String → RawCount → Option (Decimal × Decimal × String)
unfolding mul div_million tokens
embedding_price none input = none
embedding_price (some model) input = do
  guard (str_eq model "text-embedding-3-large")
  count ← tokens input
  some (
    div_million (mul (dec count 0) embedding_price_per_million),
    embedding_price_per_million,
    embedding_pricing_version,
  )
