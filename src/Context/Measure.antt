-- ===== src/Context/Measure.antt =====
-- The measurements of context_budget.py. `sha256` is the hexadecimal digest of `hashlib`.
use dduo_solo_founder.Prelude.{ℕ, ◌+◌, Bool, true, false, List, [], ◌∷◌, ◌++◌, length, max}
use dduo_solo_founder.Context.Text.{Text, utf16_length, encode_utf8}

pub record ContextMeasurement : Type 0 where
  pub characters : ℕ
  pub utf16_units : ℕ
  pub utf8_bytes : ℕ
  pub budget_units : ℕ
  pub sha256 : Text

unfoldable pub join_lines : List Text → Text
join_lines [] = []
join_lines (line ∷ []) = line
join_lines (line ∷ next ∷ lines) = line ++ (10 ∷ join_lines (next ∷ lines))

-- The variables of the loop of `_measure_lines`. `fed` holds the bytes that `digest` was given.
pub record Running : Type 0 where
  pub characters : ℕ
  pub utf16 : ℕ
  pub utf8_bytes : ℕ
  pub fed : List ℕ
  pub first : Bool

abbrev pub separator : Running → Running
separator r = elim r.first [
  | true ↦ r
  | false ↦ record r {
    characters = r.characters + 1;
    utf16 = r.utf16 + 1;
    utf8_bytes = r.utf8_bytes + 1;
    fed = r.fed ++ 10 ∷ [];
  }
]

unfoldable pub add_line : Text → Running → Running
unfolding utf16_length encode_utf8
add_line line r = record {
  characters = r.characters + length line;
  utf16 = r.utf16 + utf16_length line;
  utf8_bytes = r.utf8_bytes + length (encode_utf8 line);
  fed = r.fed ++ encode_utf8 line;
  first = false;
}

unfoldable pub run_lines : List Text → Running → Running
unfolding add_line
run_lines [] r = r
run_lines (line ∷ lines) r = run_lines lines (add_line line (separator r))

abbrev pub started : Running
started = record { characters = 0; utf16 = 0; utf8_bytes = 0; fed = []; first = true }

module _ (sha256 : List ℕ → Text) where
  -- of a text without a surrogate
  unfoldable pub measure : Text → ContextMeasurement
  unfolding utf16_length encode_utf8
  measure value = record {
    characters = length value;
    utf16_units = utf16_length value;
    utf8_bytes = length (encode_utf8 value);
    budget_units = max (length value) (utf16_length value);
    sha256 = sha256 (encode_utf8 value);
  }

  unfoldable pub measure_lines : List Text → ContextMeasurement
  unfolding run_lines
  measure_lines lines =
      let r = run_lines lines started in
      record {
        characters = r.characters;
        utf16_units = r.utf16;
        utf8_bytes = r.utf8_bytes;
        budget_units = max r.characters r.utf16;
        sha256 = sha256 r.fed;
      }
