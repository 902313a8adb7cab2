-- ===== src/Context/Text.antt =====
-- Python texts as lists of code points, and their UTF-16 and UTF-8 sizes as context_budget.py takes
-- them.
use dduo_solo_founder.Prelude.{
  ℕ, ◌+◌, ◌/◌, ◌%◌, Bool, false, ◌&&◌, ◌||◌, List, [], ◌∷◌, ◌++◌, Option, none, some, length, ltb,
  leb, max, if◌then◌else◌, String,
}
use Prim.Native.Char.{code}

abbrev pub Text : Type 0
Text = List ℕ

-- a literal of the source
abbrev pub codes : String → Text
codes String.[] = []
codes (String.◌∷◌ c rest) = code c ∷ codes rest

abbrev pub is_surrogate : ℕ → Bool
is_surrogate c = leb 0xd800 c && leb c 0xdfff

unfoldable pub has_surrogate : Text → Bool
has_surrogate [] = false
has_surrogate (c ∷ cs) = is_surrogate c || has_surrogate cs

-- the UTF-16 units of one code point
abbrev pub utf16_width : ℕ → ℕ
utf16_width c = if ltb c 0x10000 then 1 else 2

unfoldable pub utf16_length : Text → ℕ
utf16_length [] = 0
utf16_length (c ∷ cs) = utf16_width c + utf16_length cs

-- `none` stands for the `ValueError` about an unpaired surrogate
unfoldable pub utf16_units : Text → Option ℕ
unfolding has_surrogate utf16_length
utf16_units value = if has_surrogate value then none else some (utf16_length value)

-- the UTF-8 bytes of one code point
unfoldable pub utf8_char : ℕ → List ℕ
utf8_char c =
    if ltb c 0x80
    then c ∷ []
    else if ltb c 0x800
    then (0xc0 + c / 0x40) ∷ (0x80 + c % 0x40) ∷ []
    else if ltb c 0x10000
    then (0xe0 + c / 0x1000) ∷ (0x80 + c / 0x40 % 0x40) ∷ (0x80 + c % 0x40) ∷ []
    else (0xf0 + c / 0x40000)
      ∷ (0x80 + c / 0x1000 % 0x40)
      ∷ (0x80 + c / 0x40 % 0x40)
      ∷ (0x80 + c % 0x40)
      ∷ []

-- `value.encode("utf-8")` of a text with no surrogate
unfoldable pub encode_utf8 : Text → List ℕ
unfolding utf8_char
encode_utf8 [] = []
encode_utf8 (c ∷ cs) = utf8_char c ++ encode_utf8 cs

-- The stricter of the two lengths. The texts that are measured come from `canonical_json`, which
-- refuses surrogates, so `utf16_units` does not raise on them.
unfoldable pub context_units : Text → ℕ
unfolding utf16_length
context_units value = max (length value) (utf16_length value)
