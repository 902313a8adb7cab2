-- ===== src/Context/Fragment.antt =====
-- The fragments of the automatic context and their one-line JSON records: the data types and the
-- line helpers of context_budget.py.
use dduo_solo_founder.Prelude.{
  ℕ, Bool, true, false, ◌&&◌, ◌||◌, not, [], ◌∷◌, Option, none, some, length, ltb, leb, ◌==◌,
  if◌then◌else◌, any_row, String,
}
use dduo_solo_founder.Prelude.Options.{◌>>=◌, ◌>>◌, guard}
use dduo_solo_founder.Context.Text.{Text, codes, utf16_length, encode_utf8}
use dduo_solo_founder.Context.Json.{Fields, end, field, text, object, canonical_json}

pub data ℤ : Type 0 where
  pos : ℕ → ℤ
  negsuc : ℕ → ℤ

abbrev pub less : ℤ → ℤ → Bool
less (pos a) (pos b) = ltb a b
less (pos a) (negsuc b) = false
less (negsuc a) (pos b) = true
less (negsuc a) (negsuc b) = ltb b a

-- A mapping of the caller. `refused` stands for one that `json.dumps` does not serialise, such as
-- one with a NaN in it.
pub data Mapping : Type 0 where
  json : Fields → Mapping
  refused : Mapping

pub record ContextFragment : Type 0 where
  pub component : Text
  pub priority : ℤ
  pub reference : Text
  pub payload : Mapping
  pub excerpt : Option Mapping
  pub required : Bool

abbrev pub is_alphanumeric : ℕ → Bool
is_alphanumeric c =
    leb b'0' c && leb c b'9' || (leb b'A' c && leb c b'Z') || (leb b'a' c && leb c b'z')

abbrev pub is_name_char : ℕ → Bool
is_name_char c = is_alphanumeric c || c == b'.' || c == b'_' || c == b'-'

-- `_COMPONENT_RE.fullmatch`
unfoldable pub is_component : Text → Bool
unfolding any_row
is_component [] = false
is_component (c ∷ cs) =
    is_alphanumeric c && not (any_row (λ d. not (is_name_char d)) cs) && leb (length cs) 63

-- `__post_init__`; `none` stands for the `ValueError`
unfoldable pub context_fragment :
    Text → ℤ → Text → Mapping → Option Mapping → Bool → Option ContextFragment
unfolding is_component
context_fragment component priority reference payload excerpt required =
    guard (is_component component)
    >> (guard (not (length reference == 0))
        >> (guard (leb (length reference) 256)
            >> some (record {
              component = component;
              priority = priority;
              reference = reference;
              payload = payload;
              excerpt = excerpt;
              required = required;
            })))

pub data FragmentOutcome : Type 0 where
  full partial omitted : FragmentOutcome

-- the keys in the order of `sort_keys`
unfoldable pub fragment_line : ContextFragment → Mapping → String → Option Text
unfolding canonical_json
fragment_line fragment refused delivery = none
fragment_line fragment (json payload) delivery = canonical_json (
    object (
      field (codes "component") (text fragment.component) (
        field (codes "delivery") (text (codes delivery)) (
          field (codes "payload") (object payload)
            (field (codes "reference") (text fragment.reference) end)))))

-- `_Candidate`. Every caller measures the full lines of all its candidates before it does anything
-- else with them, so `full_line` is computed once, when the candidate is made.
pub record Candidate : Type 0 where
  pub index : ℕ
  pub fragment : ContextFragment
  pub full_line : Text

unfoldable pub candidate : ℕ → ContextFragment → Option Candidate
unfolding fragment_line
candidate index fragment = fragment_line fragment fragment.payload "full" >>= λ line.
    some (record { index = index; fragment = fragment; full_line = line })

-- the outer `none` is the `ValueError`, the inner one is Python's `None`
unfoldable pub excerpt_line : Candidate → Option (Option Text)
unfolding fragment_line
excerpt_line c = elim c.fragment.excerpt [
  | none ↦ some none
  | some excerpt ↦ fragment_line c.fragment excerpt "partial" >>= λ line. some (some line)
]

unfoldable pub expands : Text → Text → Bool
unfolding utf16_length encode_utf8
expands excerpt line =
    ltb (length line) (length excerpt)
    || ltb (utf16_length line) (utf16_length excerpt)
    || ltb (length (encode_utf8 line)) (length (encode_utf8 excerpt))

unfoldable pub nonexpanding_excerpt : Candidate → Option (Option Text)
unfolding excerpt_line expands
nonexpanding_excerpt c = excerpt_line c >>= λ line. elim line [
  | none ↦ some none
  | some excerpt ↦ some (if expands excerpt c.full_line then none else some excerpt)
]
