-- ===== src/Pricing/Cost/Bounds.antt =====
-- Bounds of the catalogued prices of pricing.py and of what a sample can be billed at them.
use mathlib.Core.Path.{subst}
use native.Mathlib.Nat.{mul-le-mul, pow-le-pow_right}
use dduo_solo_founder.Prelude.{
  ℕ, ◌+◌, ◌-◌, ◌≤◌, ◌≡◌, String, Bool, true, false, Option, some, none, List, [], ◌∷◌, ◌&&◌, str_eq,
  arith, leb→le, inl, inr, All, if◌then◌else◌,
}
use dduo_solo_founder.Prelude.Options.{if-eq-some, some-eq-some, >>=-eq-some}
use dduo_solo_founder.Pricing.Decimal.{Decimal, dec, mul}
use dduo_solo_founder.Pricing.Decimal.Exact.{pico_value}
use dduo_solo_founder.Pricing.Catalog.{
  ModelPrice, Provider, PriceEntry, model_prices, get_price, same_provider, provider_alias,
  resolve_model_price,
}
use dduo_solo_founder.Pricing.Cost.{
  Usage, CacheTtl, EquivalentApiCost, Billable, billable, write_rate, component_cost, exceeds,
}
use dduo_solo_founder.Pricing.Cost.Accepted.{Accepts, prompt_counts-partition}

-- a list price: at most three decimal places, and at most 12.50 dollars or 50 dollars
pub record IsRate (r : Decimal) : Type 0 where
  pub places : r.scale ≤ 3
  pub digits : r.coef ≤ 1250

pub record IsFactor (r : Decimal) : Type 0 where
  pub places : r.scale ≤ 1
  pub digits : r.coef ≤ 15

pub record IsListed (p : ModelPrice) : Type 0 where
  pub input : IsRate p.input_usd_per_million
  pub cached : IsRate p.cached_input_usd_per_million
  pub written : IsRate p.cache_write_input_usd_per_million
  pub output : IsRate p.output_usd_per_million
  pub input_factor : IsFactor p.long_context_input_multiplier
  pub output_factor : IsFactor p.long_context_output_multiplier
  pub window : p.context_window_tokens ≤ 1050000

model_prices-IsListed : All (λ (e : PriceEntry). IsListed e.2) model_prices
model_prices-IsListed = omega arith

get_price-All :
    (P : ModelPrice → Type 0) (p : Provider) (m : String) (l : List PriceEntry) {price : ModelPrice}
    → All (λ (e : PriceEntry). P e.2) l
    → get_price p m l ≡ some price
    → P price
unfolding get_price
get_price-All P p m [] a h = absurd (ground arith)
get_price-All P p m ((p', m', x) ∷ rest) a h =
    elim (if-eq-some (same_provider p' p && str_eq m' m) (some x) (get_price p m rest) h) [
      | inl (_, found) ↦ subst P (some-eq-some found) a.0
      | inr (_, later) ↦ get_price-All P p m rest a.1 later
    ]

pub resolve_model_price-IsListed :
    (provider model : Option String) {price : ModelPrice}
    → resolve_model_price provider model ≡ some price
    → IsListed price
unfolding resolve_model_price
resolve_model_price-IsListed none model h = absurd (ground arith)
resolve_model_price-IsListed (some s) none h = absurd (ground arith)
resolve_model_price-IsListed (some s) (some m) h =
    let (p, _, found) = >>=-eq-some (provider_alias s) (λ p. get_price p m model_prices) h in
    get_price-All IsListed p m model_prices model_prices-IsListed found

-- the bound of one billed class: the tokens, and the rate with its factor
pub record IsBilled (c : ℕ × Decimal) : Type 0 where
  pub tokens : c.0 ≤ 1050000
  pub places : c.1.scale ≤ 4
  pub digits : c.1.coef ≤ 37500

pub record IsSmall (x : Decimal) : Type 0 where
  pub places : x.scale ≤ 12
  pub value : pico_value x ≤ 100000000000000000

pub component_cost-IsSmall : (c : ℕ × Decimal) → IsBilled c → IsSmall (component_cost c)
unfolding component_cost
component_cost-IsSmall (count, rate) h = record {
  places = omega arith;
  value = omega (
    arith,
    mul-le-mul (mul-le-mul h.tokens h.digits) (
        pow-le-pow_right {n = 10} (omega arith) {i = 12 - (0 + rate.scale + 6)} {j = 6}
          (omega arith)),
  );
}

IsFactor-if : {x : Decimal} (b : Bool) → IsFactor x → IsFactor (if b then x else dec 1 0)
IsFactor-if true h = h
IsFactor-if false h = omega arith

rate_IsBilled :
    (n : ℕ) (r f : Decimal)
    → n ≤ 1050000
    → r.scale ≤ 3
    → r.coef ≤ 2500
    → IsFactor f
    → IsBilled (n, mul r f)
unfolding mul
rate_IsBilled n r f hn hs hc hf = record {
  tokens = hn;
  places = omega (arith, hf.places);
  digits = mul-le-mul hc hf.digits;
}

write_rate-bounds :
    (p : ModelPrice) (ttl : CacheTtl) (n : ℕ)
    → IsListed p
    → ((write_rate p ttl n).scale ≤ 3) × ((write_rate p ttl n).coef ≤ 2500)
unfolding write_rate
write_rate-bounds p ttl n h =
    ground (arith, h.written.places, h.written.digits, h.input.places, h.input.digits)

pub record IsSmallBill (b : Billable) : Type 0 where
  pub uncached : IsBilled b.uncached
  pub cached : IsBilled b.cached
  pub cache_write : IsBilled b.cache_write
  pub output : IsBilled b.output

pub billable-IsSmallBill :
    (p : ModelPrice) (ttl : CacheTtl) (u : Usage) {e : EquivalentApiCost} (a : Accepts p ttl u e)
    → IsListed p
    → IsSmallBill (billable p ttl a.counts a.base a.prompt)
unfolding billable
billable-IsSmallBill p ttl u a h =
    let room : a.prompt + a.counts.output_count ≤ 1050000 =
      omega (arith, leb→le _ _ a.window_fits, h.window) in
    let parts = prompt_counts-partition p.provider ttl a.counts a.prompted in
    let long = exceeds a.prompt p.long_context_threshold_input_tokens in
    let fi = IsFactor-if long h.input_factor in
    let fo = IsFactor-if long h.output_factor in
    let w = write_rate-bounds p ttl a.counts.cache_write_count h in
    record {
      uncached =
          rate_IsBilled _ _ _ (omega arith) h.input.places (omega (arith, h.input.digits)) fi;
      cached =
          rate_IsBilled _ _ _ (omega arith) h.cached.places (omega (arith, h.cached.digits)) fi;
      cache_write = rate_IsBilled _ _ _ (omega arith) w.0 w.1 fi;
      output =
          rate_IsBilled _ _ _ (omega arith) h.output.places (omega (arith, h.output.digits)) fo;
    }
