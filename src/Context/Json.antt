-- ===== src/Context/Json.antt =====
-- `json.dumps` as `_canonical_json` of context_budget.py calls it: sorted keys, no spaces, text that
-- is not ASCII kept.
use dduo_solo_founder.Prelude.{
  ℕ, zero, suc, ◌+◌, ◌/◌, ◌%◌, Bool, true, false, [], ◌∷◌, ◌++◌, Option, none, some, ltb, ◌==◌,
  if◌then◌else◌,
}
use dduo_solo_founder.Context.Text.{Text, codes, has_surrogate}

-- A number is its text, as Python prints it.
mutual
  pub data Json : Type 0 where
    null : Json
    boolean : Bool → Json
    number : Text → Json
    text : Text → Json
    array : Items → Json
    object : Fields → Json

  pub data Items : Type 0 where
    nil : Items
    cons : Json → Items → Items

  pub data Fields : Type 0 where
    end : Fields
    field : Text → Json → Fields → Fields

-- the decimal digits of an `int`; fuel above the number is enough
unfoldable pub digits : ℕ → ℕ → Text → Text
digits zero n acc = acc
digits (suc fuel) n acc =
    let rest = digits fuel (n / 10) ((48 + n % 10) ∷ acc) in
    if ltb n 10 then (48 + n) ∷ acc else rest

unfoldable pub decimal : ℕ → Text
unfolding digits
decimal n = digits (suc n) n []

abbrev pub hex_digit : ℕ → ℕ
hex_digit d = if ltb d 10 then 48 + d else 87 + d

-- the escape of one character, with `ensure_ascii=False`
unfoldable pub escape_char : ℕ → Text
escape_char c =
    if c == b'"'
    then 92 ∷ 34 ∷ []
    else if c == 92
    then 92 ∷ 92 ∷ []
    else if c == 10
    then 92 ∷ b'n' ∷ []
    else if c == 13
    then 92 ∷ b'r' ∷ []
    else if c == 9
    then 92 ∷ b't' ∷ []
    else if c == 12
    then 92 ∷ b'f' ∷ []
    else if c == 8
    then 92 ∷ b'b' ∷ []
    else if ltb c 32
    then 92 ∷ b'u' ∷ 48 ∷ 48 ∷ hex_digit (c / 16) ∷ hex_digit (c % 16) ∷ []
    else c ∷ []

unfoldable pub escape : Text → Text
unfolding escape_char
escape [] = []
escape (c ∷ cs) = escape_char c ++ escape cs

unfoldable pub quote : Text → Text
unfolding escape
quote t = 34 ∷ (escape t ++ 34 ∷ [])

-- `a < b` for texts: by code points
unfoldable pub text_less : Text → Text → Bool
text_less [] [] = false
text_less [] (d ∷ ds) = true
text_less (c ∷ cs) [] = false
text_less (c ∷ cs) (d ∷ ds) = let rest = text_less cs ds in if c == d then rest else ltb c d

unfoldable pub insert_field : Text → Json → Fields → Fields
unfolding text_less
insert_field k v end = field k v end
insert_field k v (field j w rest) =
    if text_less j k then field j w (insert_field k v rest) else field k v (field j w rest)

unfoldable pub sort_fields : Fields → Fields
unfolding insert_field
sort_fields end = end
sort_fields (field k v rest) = insert_field k v (sort_fields rest)

-- Objects sort their keys at every depth.
unfoldable mutual
  unfolding sort_fields

  pub sort_keys : Json → Json
  sort_keys null = null
  sort_keys (boolean b) = boolean b
  sort_keys (number t) = number t
  sort_keys (text t) = text t
  sort_keys (array xs) = array (sort_items xs)
  sort_keys (object fs) = object (sort_fields (sort_values fs))

  pub sort_items : Items → Items
  sort_items nil = nil
  sort_items (cons x xs) = cons (sort_keys x) (sort_items xs)

  pub sort_values : Fields → Fields
  sort_values end = end
  sort_values (field k v fs) = field k (sort_keys v) (sort_values fs)

-- `first` tells whether the item stands first: the others have a comma in front.
abbrev pub comma : Bool → Text
comma true = []
comma false = 44 ∷ []

unfoldable mutual
  unfolding quote

  pub render : Json → Text
  render null = codes "null"
  render (boolean true) = codes "true"
  render (boolean false) = codes "false"
  render (number t) = t
  render (text t) = quote t
  render (array xs) = 91 ∷ render_items xs true
  render (object fs) = 123 ∷ render_fields fs true

  pub render_items : Items → Bool → Text
  render_items nil first = 93 ∷ []
  render_items (cons x xs) first = comma first ++ (render x ++ render_items xs false)

  pub render_fields : Fields → Bool → Text
  render_fields end first = 125 ∷ []
  render_fields (field k v fs) first =
      comma first ++ (quote k ++ (58 ∷ (render v ++ render_fields fs false)))

unfoldable pub dumps : Json → Text
unfolding sort_keys render
dumps v = render (sort_keys v)

-- `none` stands for the `ValueError`: `rendered.encode("utf-8")` refuses a surrogate
unfoldable pub canonical_json : Json → Option Text
unfolding has_surrogate dumps
canonical_json v = let rendered = dumps v in if has_surrogate rendered then none else some rendered
