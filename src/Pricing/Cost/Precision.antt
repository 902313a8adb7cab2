-- ===== src/Pricing/Cost/Precision.antt =====
-- Costs of catalogued models are exact: whole picodollars, and far below the 28 digits at which
-- Python's default decimal context would round.
use mathlib.Core.Path.{subst}
use native.Mathlib.Nat.{le-mul_of_pos_right, one-le-pow}
use dduo_solo_founder.Prelude.{
  ℕ, ◌+◌, ◌-◌, ◌*◌, ◌^◌, ◌≤◌, ◌≡◌, ◌∙◌, sym, ap, String, Option, some, arith,
}
use dduo_solo_founder.Pricing.Decimal.{dec, add, pico_usd}
use dduo_solo_founder.Pricing.Decimal.Exact.{pico_value, pico_usd_exact, pico_value-add, scale-add}
use dduo_solo_founder.Pricing.Catalog.{ModelPrice}
use dduo_solo_founder.Pricing.Cost.{
  Usage, CacheTtl, EquivalentApiCost, Billable, billable, component_cost, price_billable,
  api_equivalent_cost, numeric_details,
}
use dduo_solo_founder.Pricing.Cost.Accepted.{cost_at-Accepts, accepted_price}
use dduo_solo_founder.Pricing.Cost.Bounds.{
  IsSmall, IsSmallBill, component_cost-IsSmall, billable-IsSmallBill, resolve_model_price-IsListed,
}

-- the four classes of a priced bill
record IsSmallCost (e : EquivalentApiCost) : Type 0 where
  uncached : IsSmall e.uncached_input_cost_usd
  cached : IsSmall e.cached_input_cost_usd
  cache_write : IsSmall e.cache_write_input_cost_usd
  output : IsSmall e.output_cost_usd

price_billable-IsSmallCost :
    (p : ModelPrice) (b : Billable) → IsSmallBill b → IsSmallCost (price_billable p b)
unfolding price_billable
price_billable-IsSmallCost p b h = record {
  uncached = component_cost-IsSmall _ h.uncached;
  cached = component_cost-IsSmall _ h.cached;
  cache_write = component_cost-IsSmall _ h.cache_write;
  output = component_cost-IsSmall _ h.output;
}

abbrev pub total_pico : EquivalentApiCost → ℕ
total_pico e =
    pico_value e.uncached_input_cost_usd
    + pico_value e.cached_input_cost_usd
    + pico_value e.cache_write_input_cost_usd
    + pico_value e.output_cost_usd

record IsTotal (e : EquivalentApiCost) : Type 0 where
  places : e.cost_usd.scale ≤ 12
  value : pico_value e.cost_usd ≡ total_pico e

price_billable-IsTotal :
    (p : ModelPrice) (b : Billable)
    → IsSmallCost (price_billable p b)
    → IsTotal (price_billable p b)
unfolding price_billable
price_billable-IsTotal p b h =
    let u = h.uncached.places in
    let c = h.cached.places in
    let w = h.cache_write.places in
    let o = h.output.places in
    let t1 = add (dec 0 0) (component_cost b.uncached) in
    let t2 = add t1 (component_cost b.cached) in
    let t3 = add t2 (component_cost b.cache_write) in
    let s1 = scale-add (dec 0 0) (component_cost b.uncached) {n = 12} (omega arith) u in
    let s2 = scale-add t1 (component_cost b.cached) {n = 12} s1 c in
    let s3 = scale-add t2 (component_cost b.cache_write) {n = 12} s2 w in
    record {
      places = scale-add t3 (component_cost b.output) s3 o;
      value = omega (
        arith,
        pico_value-add (dec 0 0) (component_cost b.uncached) (omega arith) u,
        pico_value-add t1 (component_cost b.cached) s1 c,
        pico_value-add t2 (component_cost b.cache_write) s2 w,
        pico_value-add t3 (component_cost b.output) s3 o,
      );
    }

accepted-IsSmallCost :
    (provider model : Option String) (ttl : CacheTtl) (u : Usage) {e : EquivalentApiCost}
    → api_equivalent_cost provider model ttl u ≡ some e
    → IsSmallCost e × IsTotal e
accepted-IsSmallCost provider model ttl u {e} h =
    let (price, resolved, cost) = accepted_price provider model ttl u h in
    let a = cost_at-Accepts price ttl u cost in
    let bill = billable price ttl a.counts a.base a.prompt in
    let small =
      price_billable-IsSmallCost price bill (
        billable-IsSmallBill price ttl u a
          (resolve_model_price-IsListed provider model resolved)) in
    subst (λ x. IsSmallCost x × IsTotal x) (sym a.billed)
      (small, price_billable-IsTotal price bill small)

-- For every sample that is priced, `numeric_details` does not raise: each component is a whole
-- number of picodollars, and the total is exactly the sum of the four components.
pub numeric_details_exact :
    (provider model : Option String) (ttl : CacheTtl) (u : Usage) {e : EquivalentApiCost}
    → api_equivalent_cost provider model ttl u ≡ some e
    → (parts : ℕ × ℕ × ℕ × ℕ) × (numeric_details e ≡ some parts)
      × (pico_usd e.cost_usd ≡ some (parts.0 + parts.1 + parts.2 + parts.3))
unfolding numeric_details
numeric_details_exact provider model ttl u {e} h =
    let (small, total) = accepted-IsSmallCost provider model ttl u h in
    (
      (
        pico_value e.uncached_input_cost_usd,
        pico_value e.cached_input_cost_usd,
        pico_value e.cache_write_input_cost_usd,
        pico_value e.output_cost_usd,
      ),
      rw (
        pico_usd_exact e.uncached_input_cost_usd small.uncached.places,
        pico_usd_exact e.cached_input_cost_usd small.cached.places,
        pico_usd_exact e.cache_write_input_cost_usd small.cache_write.places,
        pico_usd_exact e.output_cost_usd small.output.places,
      ),
      pico_usd_exact e.cost_usd total.places ∙ ap some total.value,
    )

-- No priced sample costs more than 400 000 dollars, and its total has far fewer than the 28 digits
-- at which Python's default decimal context would start to round.
pub cost_digits :
    (provider model : Option String) (ttl : CacheTtl) (u : Usage) {e : EquivalentApiCost}
    → api_equivalent_cost provider model ttl u ≡ some e
    → (e.cost_usd.coef ≤ 4 * 10 ^ 17) × (pico_value e.cost_usd ≤ 4 * 10 ^ 17)
cost_digits provider model ttl u {e} h =
    let (small, total) = accepted-IsSmallCost provider model ttl u h in
    let value : pico_value e.cost_usd ≤ 4 * 10 ^ 17 = omega (
      arith, total.value, small.uncached.value, small.cached.value, small.cache_write.value,
      small.output.value,
    ) in
    let shifted =
      le-mul_of_pos_right e.cost_usd.coef (one-le-pow (12 - e.cost_usd.scale) 10 (omega arith)) in
    (omega (arith, shifted, value), value)
