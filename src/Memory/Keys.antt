-- ===== src/Memory/Keys.antt =====
-- `normalize_node_key` of memory_engine.py.
use dduo_solo_founder.Prelude.{
  ℕ, zero, suc, ◌+◌, Bool, true, false, ◌&&◌, ◌||◌, [], ◌∷◌, Option, none, some, leb, ◌==◌,
  if◌then◌else◌,
}
use dduo_solo_founder.Context.Text.{Text}

-- what `str.strip` removes when it has no argument
abbrev pub is_space : ℕ → Bool
is_space c =
    leb 9 c && leb c 13
    || (leb 28 c && leb c 32)
    || c == 0x85
    || c == 0xa0
    || c == 0x1680
    || (leb 0x2000 c && leb c 0x200a)
    || c == 0x2028
    || c == 0x2029
    || c == 0x202f
    || c == 0x205f
    || c == 0x3000

unfoldable pub strip_left : (ℕ → Bool) → Text → Text
strip_left drops [] = []
strip_left drops (c ∷ cs) = let rest = strip_left drops cs in if drops c then rest else c ∷ cs

abbrev pub unless_dropped : Bool → ℕ → Text → Text
unless_dropped true c [] = []
unless_dropped true c (d ∷ ds) = c ∷ d ∷ ds
unless_dropped false c rest = c ∷ rest

unfoldable pub strip_right : (ℕ → Bool) → Text → Text
strip_right drops [] = []
strip_right drops (c ∷ cs) = unless_dropped (drops c) c (strip_right drops cs)

unfoldable pub strip_chars : (ℕ → Bool) → Text → Text
unfolding strip_left strip_right
strip_chars drops value = strip_right drops (strip_left drops value)

-- `str.lower`, up to the characters that the pattern below replaces: only the letters A to Z, the
-- Kelvin sign and the dotted I have a lowercase form with a character that it keeps.
unfoldable pub lower : Text → Text
lower [] = []
lower (c ∷ cs) =
    let rest = lower cs in
    if leb b'A' c && leb c b'Z'
    then (c + 32) ∷ rest
    else if c == 0x212a
    then b'k' ∷ rest
    else if c == 0x130
    then b'i' ∷ 0x307 ∷ rest
    else c ∷ rest

-- the characters outside the class of `_KEY_PARTS`
abbrev pub is_key_char : ℕ → Bool
is_key_char c =
    leb b'a' c && leb c b'z'
    || (leb b'0' c && leb c b'9')
    || c == b':'
    || c == b'_'
    || c == b'.'
    || c == b'/'
    || c == b'-'

-- `_KEY_PARTS.sub("-", ...)`; `gap` tells that the character before was replaced
unfoldable pub sub_key_parts : Bool → Text → Text
sub_key_parts gap [] = []
sub_key_parts gap (c ∷ cs) = elim (is_key_char c) [
  | true ↦ c ∷ sub_key_parts false cs
  | false ↦ elim gap [ true ↦ sub_key_parts true cs | false ↦ b'-' ∷ sub_key_parts true cs ]
]

abbrev pub is_edge : ℕ → Bool
is_edge c = c == b'-' || c == b':' || c == b'.' || c == b'/'

-- `value[:n]`
unfoldable pub take : ℕ → Text → Text
take zero cs = []
take (suc n) [] = []
take (suc n) (c ∷ cs) = c ∷ take n cs

-- `none` stands for the `ValueError`
unfoldable pub normalize_node_key : Text → Option Text
unfolding strip_chars lower sub_key_parts take
normalize_node_key value =
    elim (strip_chars is_edge (sub_key_parts false (lower (strip_chars is_space value)))) [
      | [] ↦ none
      | c ∷ cs ↦ some (take 200 (c ∷ cs))
    ]
