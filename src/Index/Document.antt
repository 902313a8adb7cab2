-- ===== src/Index/Document.antt =====
-- The two truncations and `render_task_document` of task_index.py.
use dduo_solo_founder.Prelude.{
  ℕ, zero, suc, ◌+◌, ◌-◌, ◌*◌, ◌/◌, min, Bool, true, false, ◌||◌, Option, none, some, List, [], ◌∷◌,
  ◌++◌, map, length, leb, ltb, ◌==◌, if◌then◌else◌, any_row,
}
use dduo_solo_founder.Prelude.Equality.{list_eq, nat_eq}
use dduo_solo_founder.Context.Text.{Text, codes, encode_utf8, has_surrogate}
use dduo_solo_founder.Memory.Keys.{take}
use dduo_solo_founder.Work.Store.{Task}
use dduo_solo_founder.Index.Bytes.{decode_ignore}
use dduo_solo_founder.Index.Labels.{join, normalized, normalized_field, render_labels}

-- `value[n:]`
unfoldable pub drop : ℕ → List ℕ → List ℕ
drop zero cs = cs
drop (suc n) [] = []
drop (suc n) (c ∷ cs) = drop n cs

-- `value[-n:] if n else ''`
unfoldable pub last_items : ℕ → List ℕ → List ℕ
unfolding drop
last_items n cs = drop (length cs - n) cs

abbrev pub ellipsis : Text
ellipsis = 0x2026 ∷ []

unfoldable pub truncate_middle : Text → ℕ → Text
unfolding take last_items
truncate_middle value budget =
    if leb (length value) budget
    then value
    else if leb budget 1
    then take budget ellipsis
    else take (budget / 2) value ++ ellipsis ++ last_items (budget - 1 - budget / 2) value

unfoldable pub truncate_utf8_middle : Text → ℕ → Text
unfolding encode_utf8 take decode_ignore last_items
truncate_utf8_middle value budget =
    let encoded = encode_utf8 value in
    let remaining = budget - 3 in
    let head_budget = remaining * 2 / 3 in
    if leb (length encoded) budget
    then value
    else if leb budget 3
    then decode_ignore (take budget encoded)
    else decode_ignore (take head_budget encoded)
      ++ ellipsis
      ++ decode_ignore (last_items (remaining - head_budget) encoded)

abbrev pub sum : List ℕ → ℕ
sum [] = 0
sum (n ∷ ns) = n + sum ns

abbrev pub nth : List ℕ → ℕ → ℕ
nth [] i = 0
nth (n ∷ ns) zero = n
nth (n ∷ ns) (suc i) = nth ns i

unfoldable pub add_at : ℕ → ℕ → List ℕ → List ℕ
add_at i extra [] = []
add_at zero extra (n ∷ ns) = (n + extra) ∷ ns
add_at (suc i) extra (n ∷ ns) = n ∷ add_at i extra ns

abbrev pub weights : List ℕ
weights = 15 ∷ 22 ∷ 22 ∷ 34 ∷ 7 ∷ []

-- the share of each field
unfoldable pub shares : ℕ → List ℕ → List ℕ → List ℕ
shares available (n ∷ ns) (w ∷ ws) = min n (available * w / 100) ∷ shares available ns ws
shares available ns ws = []

-- the loop that gives out what remains
unfoldable pub spend : List ℕ → ℕ → List ℕ → List ℕ → List ℕ
unfolding add_at
spend [] remaining lengths allocations = allocations
spend (i ∷ order) remaining lengths allocations =
    let extra = min remaining (nth lengths i - nth allocations i) in
    elim (remaining - extra == 0) [
      | true ↦ add_at i extra allocations
      | false ↦ spend order (remaining - extra) lengths (add_at i extra allocations)
    ]

unfoldable pub allocate : ℕ → List ℕ → List ℕ
unfolding shares spend
allocate available lengths =
    let first = shares available lengths weights in
    spend (0 ∷ 1 ∷ 2 ∷ 4 ∷ 3 ∷ []) (available - sum first) lengths first

unfoldable pub zip_with : (Text → ℕ → Text) → List Text → List ℕ → List Text
zip_with f (t ∷ ts) (n ∷ ns) = f t n ∷ zip_with f ts ns
zip_with f ts ns = []

-- `any(len(value) > allocation ...)`
abbrev pub any_over : List ℕ → List ℕ → Bool
any_over (n ∷ ns) (a ∷ allocations) = ltb a n || any_over ns allocations
any_over ns allocations = false

abbrev pub field_names : List Text
field_names = map codes ("title" ∷ "objective" ∷ "next_action" ∷ "description" ∷ "labels" ∷ [])

-- `f"{name}: {value}"`
unfoldable pub label_values : List Text → List Text → List Text
label_values (name ∷ names) (value ∷ values) =
    (name ++ codes ": " ++ value) ∷ label_values names values
label_values names values = []

abbrev pub character_overhead : ℕ
character_overhead = sum (map (λ name. length name + 2) field_names) + length field_names - 1

pub record TaskDocument : Type 0 where
  pub text : Text
  pub semantic_hash : ℕ
  pub render_version : Text
  pub truncated : Bool
  pub source_characters : ℕ
  pub source_utf8_bytes : ℕ

abbrev pub render_version_name : Text
render_version_name = codes "task_semantic_v2"

abbrev pub min_characters : ℕ
min_characters = 512

abbrev pub byte_length : Text → ℕ
byte_length value = length (encode_utf8 value)

-- `byte_overhead` in `render_task_document`
unfoldable pub byte_overhead : ℕ
unfolding join encode_utf8
byte_overhead = byte_length (join (10 ∷ []) (map (λ name. name ++ codes ": ") field_names))

-- the values after the character budget, and after the byte budget
unfoldable pub bound_characters : ℕ → List Text → List Text
unfolding allocate zip_with truncate_middle
bound_characters max_characters values =
    zip_with truncate_middle values
      (allocate (max_characters - character_overhead) (map length values))

unfoldable pub bound_bytes : ℕ → List Text → List Text
unfolding allocate zip_with truncate_utf8_middle encode_utf8 byte_overhead
bound_bytes max_utf8_bytes values =
    zip_with truncate_utf8_middle values
      (allocate (max_utf8_bytes - byte_overhead) (map byte_length values))

-- `hashed` stands for the SHA-256 digest, a text that is only compared.
module _ (casefold : Text → Text) (hashed : List ℕ → ℕ) where
  unfoldable pub field_values : Task → List Text
  unfolding normalized render_labels
  field_values t =
      normalized (codes t.title)
      ∷ normalized_field t.objective
      ∷ normalized_field t.next_action
      ∷ normalized (codes t.description)
      ∷ render_labels casefold (map codes t.labels)
      ∷ []

  unfoldable pub document_of : List Text → ℕ → ℕ → TaskDocument
  unfolding bound_characters bound_bytes label_values join encode_utf8 allocate byte_overhead
  document_of values max_characters max_utf8_bytes =
      let bounded = bound_characters max_characters values in
      let text = join (10 ∷ []) (label_values field_names (bound_bytes max_utf8_bytes bounded)) in
      let lengths = map length values in
      let byte_lengths = map byte_length bounded in
      record {
        text = text;
        semantic_hash = hashed (encode_utf8 (render_version_name ++ 0 ∷ text));
        render_version = render_version_name;
        truncated =
            any_over lengths (allocate (max_characters - character_overhead) lengths)
            || any_over byte_lengths (allocate (max_utf8_bytes - byte_overhead) byte_lengths);
        source_characters = sum lengths;
        source_utf8_bytes = sum (map byte_length values);
      }

  -- `none` stands for the `ValueError`, also the one of a surrogate that cannot be encoded
  unfoldable pub render_task_document : Task → ℕ → ℕ → Option TaskDocument
  unfolding field_values document_of any_row has_surrogate
  render_task_document t max_characters max_utf8_bytes =
      if ltb max_characters min_characters || ltb max_utf8_bytes min_characters
      then none
      else if any_row has_surrogate (field_values t)
      then none
      else some (document_of (field_values t) max_characters max_utf8_bytes)
