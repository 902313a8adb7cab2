-- ===== src/Pricing/Cost/Accepted.antt =====
-- What a sample that `api_equivalent_cost` of pricing.py accepts looks like.
use dduo_solo_founder.Prelude.{
  ℕ, ◌+◌, ◌≤◌, ◌≡◌, refl, sym, ◌∙◌, String, Option, some, true, arith, leb, le→leb, leb→le,
}
use dduo_solo_founder.Prelude.Options.{some-eq-some, >>=-eq-some, guard-eq-some}
use dduo_solo_founder.Pricing.Catalog.{ModelPrice, Provider, openai, anthropic, resolve_model_price}
use dduo_solo_founder.Pricing.Cost.{
  missing, tokens, optional_tokens, Usage, Counts, EquivalentApiCost, CacheTtl, ttl_supported,
  parse_counts, prompt_counts, within_limit, Billable, billable, price_billable, cost_at,
  api_equivalent_cost,
}

-- The counts, the prompt and the bill of an accepted sample.
pub record Accepts (price : ModelPrice) (ttl : CacheTtl) (u : Usage) (e : EquivalentApiCost)
    : Type 0 where
  pub counts : Counts
  pub base : ℕ
  pub prompt : ℕ
  pub supported : ttl_supported ttl ≡ true
  pub parsed : parse_counts u ≡ some counts
  pub reasoning : leb counts.reasoning_count counts.output_count ≡ true
  pub prompted : prompt_counts price.provider ttl counts ≡ some (base, prompt)
  pub output_fits : within_limit counts.output_count price.max_output_tokens ≡ true
  pub window_fits : leb (prompt + counts.output_count) price.context_window_tokens ≡ true
  pub billed : e ≡ price_billable price (billable price ttl counts base prompt)

pub cost_at-Accepts :
    (price : ModelPrice) (ttl : CacheTtl) (u : Usage) {e : EquivalentApiCost}
    → cost_at price ttl u ≡ some e
    → Accepts price ttl u e
unfolding cost_at
cost_at-Accepts price ttl u h =
    let (supported, h1) = guard-eq-some _ _ h in
    let (c, parsed, h2) = >>=-eq-some _ _ h1 in
    let (reasoning, h3) = guard-eq-some _ _ h2 in
    let (counted, prompted, h4) = >>=-eq-some _ _ h3 in
    let (output_fits, h5) = guard-eq-some _ _ h4 in
    let (window_fits, h6) = guard-eq-some _ _ h5 in
    record {
      counts = c;
      base = counted.0;
      prompt = counted.1;
      supported = supported;
      parsed = parsed;
      reasoning = reasoning;
      prompted = prompted;
      output_fits = output_fits;
      window_fits = window_fits;
      billed = sym (some-eq-some h6);
    }

pub accepted_price :
    (provider model : Option String) (ttl : CacheTtl) (u : Usage) {e : EquivalentApiCost}
    → api_equivalent_cost provider model ttl u ≡ some e
    → (price : ModelPrice) × (resolve_model_price provider model ≡ some price)
      × (cost_at price ttl u ≡ some e)
unfolding api_equivalent_cost
accepted_price provider model ttl u h = >>=-eq-some _ _ h

pub prompt_counts-partition :
    (p : Provider) (ttl : CacheTtl) (c : Counts) {base prompt : ℕ}
    → prompt_counts p ttl c ≡ some (base, prompt)
    → base + c.cached_count + c.cache_write_count ≡ prompt
unfolding prompt_counts
prompt_counts-partition openai ttl c h = ground arith
prompt_counts-partition anthropic ttl c h = ground arith

-- the tokens of the prompt, as the provider reports the cached part
abbrev pub reported_prompt : Provider → Counts → ℕ
reported_prompt openai c = c.input_count
reported_prompt anthropic c = c.input_count + c.cached_count + c.cache_write_count

prompt_counts-reported :
    (p : Provider) (ttl : CacheTtl) (c : Counts) {base prompt : ℕ}
    → prompt_counts p ttl c ≡ some (base, prompt)
    → prompt ≡ reported_prompt p c
unfolding prompt_counts
prompt_counts-reported openai ttl c h = ground arith
prompt_counts-reported anthropic ttl c h = ground arith

abbrev pub billed_tokens : Billable → ℕ
billed_tokens b = b.uncached.0 + b.cached.0 + b.cache_write.0

-- An accepted sample is priced from four classes of tokens: the three input classes add up to the
-- tokens of the prompt as the provider reports them, and the fourth is the output.
pub api_equivalent_cost_bills_once :
    (provider model : Option String) (ttl : CacheTtl) (u : Usage) {e : EquivalentApiCost}
    → api_equivalent_cost provider model ttl u ≡ some e
    → (price : ModelPrice) × (c : Counts) × (base : ℕ) × (prompt : ℕ) × (resolve_model_price
          provider model
        ≡ some price)
      × (parse_counts u ≡ some c)
      × (e ≡ price_billable price (billable price ttl c base prompt))
      × (billed_tokens (billable price ttl c base prompt) ≡ reported_prompt price.provider c)
      × ((billable price ttl c base prompt).output.0 ≡ c.output_count)
unfolding billable
api_equivalent_cost_bills_once provider model ttl u h =
    let (price, resolved, cost) = accepted_price provider model ttl u h in
    let a = cost_at-Accepts price ttl u cost in
    (
      price,
      a.counts,
      a.base,
      a.prompt,
      resolved,
      a.parsed,
      a.billed,
      prompt_counts-partition price.provider ttl a.counts a.prompted
          ∙ prompt_counts-reported price.provider ttl a.counts a.prompted,
      refl,
    )

-- the counts without the reasoning
abbrev without_reasoning : Counts → Counts
without_reasoning c = record c { reasoning_count = 0 }

parse_counts-missing :
    (u : Usage) {c : Counts}
    → parse_counts u ≡ some c
    → parse_counts (record u { reasoning_tokens = missing }) ≡ some (without_reasoning c)
unfolding parse_counts tokens optional_tokens
parse_counts-missing u h = ground arith

prompt_counts-without_reasoning :
    (p : Provider) (ttl : CacheTtl) (c : Counts)
    → prompt_counts p ttl (without_reasoning c) ≡ prompt_counts p ttl c
unfolding prompt_counts
prompt_counts-without_reasoning openai ttl c = refl
prompt_counts-without_reasoning anthropic ttl c = refl

cost_at-missing :
    (price : ModelPrice) (ttl : CacheTtl) (u : Usage) {e : EquivalentApiCost}
    → Accepts price ttl u e
    → cost_at price ttl (record u { reasoning_tokens = missing }) ≡ some e
unfolding cost_at billable
cost_at-missing price ttl u a =
    let fits : leb 0 a.counts.output_count ≡ true = le→leb 0 a.counts.output_count (omega arith) in
    rw (
      a.supported,
      parse_counts-missing u a.parsed,
      prompt_counts-without_reasoning price.provider ttl a.counts,
      a.prompted,
      a.output_fits,
      a.window_fits,
      a.billed,
      fits,
    )

-- A sample that is accepted has no more reasoning tokens than output tokens, and the same cost without
-- its count of reasoning tokens: reasoning is never charged on top of the output that contains it.
pub reasoning_not_charged :
    (provider model : Option String) (ttl : CacheTtl) (u : Usage) {e : EquivalentApiCost}
    → api_equivalent_cost provider model ttl u ≡ some e
    → (api_equivalent_cost provider model ttl (record u { reasoning_tokens = missing }) ≡ some e)
      × ((c : Counts) × (parse_counts u ≡ some c) × (c.reasoning_count ≤ c.output_count))
unfolding api_equivalent_cost
reasoning_not_charged provider model ttl u h =
    let (price, resolved, cost) = accepted_price provider model ttl u h in
    let a = cost_at-Accepts price ttl u cost in
    (
      rw resolved (cost_at-missing price ttl u a),
      (a.counts, a.parsed, leb→le a.counts.reasoning_count a.counts.output_count a.reasoning),
    )
