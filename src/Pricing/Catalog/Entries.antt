-- ===== src/Pricing/Catalog/Entries.antt =====
-- `MODEL_PRICES`, the provider aliases and `resolve_model_price`.
use dduo_solo_founder.Prelude.{
  String, Bool, true, false, ◌&&◌, Option, none, some, List, [], ◌∷◌, str_eq, if◌then◌else◌,
}
use dduo_solo_founder.Prelude.Options.{◌>>=◌}
use dduo_solo_founder.Pricing.Catalog.Model.{Provider, openai, anthropic, ModelPrice}
use dduo_solo_founder.Pricing.Catalog.Openai.{
  openai_astra, openai_sol_61, openai_sol_6, openai_luna_6, openai_sol, openai_terra, openai_luna,
}
use dduo_solo_founder.Pricing.Catalog.Anthropic.{
  claude_opus_55, claude_sonnet_55, claude_haiku_55, claude_fable_51, claude_fable_5, claude_opus_5,
  claude_opus_48, claude_opus_47, claude_opus_46, claude_opus_45, claude_sonnet_5, claude_sonnet_46,
  claude_sonnet_45, claude_haiku_45,
}

abbrev pub PriceEntry : Type 0
PriceEntry = Provider × String × ModelPrice

abbrev pub model_prices : List PriceEntry
model_prices =
    (openai, "gpt-6-astra", openai_astra)
    ∷ (openai, "gpt-6.1-sol", openai_sol_61)
    ∷ (openai, "gpt-6-sol", openai_sol_6)
    ∷ (openai, "gpt-6-luna", openai_luna_6)
    ∷ (openai, "gpt-5.6", openai_sol)
    ∷ (openai, "gpt-5.6-sol", openai_sol)
    ∷ (openai, "gpt-5.6-terra", openai_terra)
    ∷ (openai, "gpt-5.6-luna", openai_luna)
    ∷ (anthropic, "claude-fable-5", claude_fable_5)
    ∷ (anthropic, "claude-fable-5-1", claude_fable_51)
    ∷ (anthropic, "claude-opus-5-5", claude_opus_55)
    ∷ (anthropic, "claude-sonnet-5-5", claude_sonnet_55)
    ∷ (anthropic, "claude-haiku-5-5", claude_haiku_55)
    ∷ (anthropic, "claude-opus-5", claude_opus_5)
    ∷ (anthropic, "claude-opus-4-8", claude_opus_48)
    ∷ (anthropic, "claude-opus-4-7", claude_opus_47)
    ∷ (anthropic, "claude-opus-4-6", claude_opus_46)
    ∷ (anthropic, "claude-opus-4-5", claude_opus_45)
    ∷ (anthropic, "claude-opus-4-5-20251101", claude_opus_45)
    ∷ (anthropic, "claude-sonnet-5", claude_sonnet_5)
    ∷ (anthropic, "claude-sonnet-4-6", claude_sonnet_46)
    ∷ (anthropic, "claude-sonnet-4-5", claude_sonnet_45)
    ∷ (anthropic, "claude-sonnet-4-5-20250929", claude_sonnet_45)
    ∷ (anthropic, "claude-haiku-4-5", claude_haiku_45)
    ∷ (anthropic, "claude-haiku-4-5-20251001", claude_haiku_45)
    ∷ []

abbrev pub same_provider : Provider → Provider → Bool
same_provider openai openai = true
same_provider anthropic anthropic = true
same_provider openai anthropic = false
same_provider anthropic openai = false

-- `MODEL_PRICES.get((provider, model))`
unfoldable pub get_price : Provider → String → List PriceEntry → Option ModelPrice
get_price p m [] = none
get_price p m ((p', m', price) ∷ rest) =
    if same_provider p' p && str_eq m' m then some price else get_price p m rest

-- `_PROVIDER_ALIASES.get(provider)`
unfoldable pub provider_alias : String → Option Provider
provider_alias s =
    if str_eq s "openai"
    then some openai
    else if str_eq s "codex"
    then some openai
    else if str_eq s "anthropic"
    then some anthropic
    else if str_eq s "claude"
    then some anthropic
    else none

-- `occurred_at` is discarded by the code. An argument that is no text is `none`.
unfoldable pub resolve_model_price : Option String → Option String → Option ModelPrice
resolve_model_price (some provider) (some model) = do
  canonical ← provider_alias provider
  get_price canonical model model_prices
resolve_model_price _ _ = none
