-- ===== src/Index/Labels.antt =====
-- `_normalized` and `_labels` of task_index.py.
use dduo_solo_founder.Prelude.{
  Bool, true, false, Option, none, some, List, [], ◌∷◌, ◌++◌, map, ltb, ◌==◌, if◌then◌else◌, String,
  any_row,
}
use dduo_solo_founder.Prelude.Equality.{same, list_eq, nat_eq}
use dduo_solo_founder.Context.Text.{Text, codes}
use dduo_solo_founder.Memory.Keys.{is_space}

-- the words that `str.split()` gives, where `word` is what was read of the word at hand
unfoldable pub split_words : Text → Text → List Text
split_words [] [] = []
split_words (d ∷ ds) [] = (d ∷ ds) ∷ []
split_words [] (c ∷ cs) = elim (is_space c) [
  | true ↦ split_words [] cs
  | false ↦ split_words (c ∷ []) cs
]
split_words (d ∷ ds) (c ∷ cs) = elim (is_space c) [
  | true ↦ (d ∷ ds) ∷ split_words [] cs
  | false ↦ split_words ((d ∷ ds) ++ c ∷ []) cs
]

-- `sep.join(parts)`
unfoldable pub join : Text → List Text → Text
join sep [] = []
join sep (t ∷ []) = t
join sep (t ∷ u ∷ us) = t ++ sep ++ join sep (u ∷ us)

unfoldable pub normalized : Text → Text
unfolding split_words join
normalized value = join (b' ' ∷ []) (split_words [] value)

abbrev pub normalized_field : Option String → Text
normalized_field none = []
normalized_field (some value) = normalized (codes value)

-- the order of Python on texts
unfoldable pub text_leb : Text → Text → Bool
text_leb [] ds = true
text_leb (c ∷ cs) [] = false
text_leb (c ∷ cs) (d ∷ ds) =
    let rest = text_leb cs ds in if ltb c d then true else if c == d then rest else false

unfoldable pub text_set : List Text → List Text
unfolding any_row
text_set [] = []
text_set (t ∷ ts) = let rest = text_set ts in if any_row (same t) rest then rest else t ∷ rest

abbrev pub drop_empty : List Text → List Text
drop_empty [] = []
drop_empty ([] ∷ ts) = drop_empty ts
drop_empty ((c ∷ cs) ∷ ts) = (c ∷ cs) ∷ drop_empty ts

-- `str.casefold` reads the tables of Unicode.
module _ (casefold : Text → Text) where
  -- `(item.casefold(), item)`
  unfoldable pub key_leb : Text → Text → Bool
  unfolding text_leb
  key_leb a b =
      if same (casefold a) (casefold b) then text_leb a b else text_leb (casefold a) (casefold b)

  unfoldable pub insert_label : Text → List Text → List Text
  unfolding key_leb
  insert_label t [] = t ∷ []
  insert_label t (u ∷ us) =
      let rest = insert_label t us in if key_leb t u then t ∷ u ∷ us else u ∷ rest

  unfoldable pub sort_labels : List Text → List Text
  unfolding insert_label
  sort_labels [] = []
  sort_labels (t ∷ ts) = insert_label t (sort_labels ts)

  unfoldable pub render_labels : List Text → Text
  unfolding normalized text_set sort_labels join
  render_labels value =
      join (b',' ∷ b' ' ∷ []) (sort_labels (drop_empty (text_set (map normalized value))))
