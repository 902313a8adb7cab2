-- ===== src/Team/Encoding.antt =====
-- `_encoded` and `_decoded` of authority_receipts.py: base64 with the URL alphabet and no padding.
use dduo_solo_founder.Prelude.{
  ℕ, zero, suc, ◌+◌, ◌-◌, ◌*◌, ◌/◌, ◌%◌, ◌<◌, ◌≡◌, refl, inl, inr, Bool, true, false, ◌&&◌, ◌||◌,
  Option, none, some, List, [], ◌∷◌, All, leb, ltb, ◌==◌, if◌then◌else◌, arith, Bool-cases, ap,
}
use dduo_solo_founder.Prelude.Options.{◌>>=◌}
use dduo_solo_founder.Prelude.Equality.{same, same→eq, option_eq, nat_eq}
use dduo_solo_founder.Prelude.{sym, subst}
use dduo_solo_founder.Context.Text.{Text}

-- the character of six bits
abbrev pub symbol : ℕ → ℕ
symbol n =
    if ltb n 26
    then b'A' + n
    else if ltb n 52
    then b'a' + (n - 26)
    else if ltb n 62
    then b'0' + (n - 52)
    else if n == 62
    then b'-'
    else b'_'

-- none outside of the alphabet
abbrev pub bits : ℕ → Option ℕ
bits c =
    if leb b'A' c && leb c b'Z'
    then some (c - b'A')
    else if leb b'a' c && leb c b'z'
    then some (c - b'a' + 26)
    else if leb b'0' c && leb c b'9'
    then some (c - b'0' + 52)
    else if c == b'-'
    then some 62
    else if c == b'_'
    then some 63
    else none

-- `[A-Za-z0-9_-]`
abbrev pub is_alphabet : ℕ → Bool
is_alphabet c =
    leb b'A' c && leb c b'Z'
    || (leb b'a' c && leb c b'z')
    || (leb b'0' c && leb c b'9')
    || c == b'_'
    || c == b'-'

unfoldable pub encoded : List ℕ → Text
encoded [] = []
encoded (a ∷ []) = symbol (a / 4) ∷ symbol (a % 4 * 16) ∷ []
encoded (a ∷ b ∷ []) = symbol (a / 4) ∷ symbol (a % 4 * 16 + b / 16) ∷ symbol (b % 16 * 4) ∷ []
encoded (a ∷ b ∷ c ∷ rest) =
    symbol (a / 4)
    ∷ symbol (a % 4 * 16 + b / 16)
    ∷ symbol (b % 16 * 4 + c / 64)
    ∷ symbol (c % 64)
    ∷ encoded rest

-- what the padded text decodes to; the bits that are left over are dropped
unfoldable pub decode_symbols : Text → Option (List ℕ)
decode_symbols [] = some []
decode_symbols (p ∷ []) = none
decode_symbols (p ∷ q ∷ []) = bits p >>= λ i. bits q >>= λ j. some ((i * 4 + j / 16) ∷ [])
decode_symbols (p ∷ q ∷ r ∷ []) = bits p >>= λ i.
    bits q >>= λ j. bits r >>= λ k. some ((i * 4 + j / 16) ∷ (j % 16 * 16 + k / 4) ∷ [])
decode_symbols (p ∷ q ∷ r ∷ s ∷ rest) = bits p >>= λ i. bits q >>= λ j. bits r >>= λ k.
    bits s >>= λ l. decode_symbols rest >>= λ bytes.
    some ((i * 4 + j / 16) ∷ (j % 16 * 16 + k / 4) ∷ (k % 4 * 64 + l) ∷ bytes)

-- none stands for the `AuthorityReceiptError`
unfoldable pub decoded : Text → Option (List ℕ)
unfolding decode_symbols
decoded [] = none
decoded (c ∷ cs) = decode_symbols (c ∷ cs)

first_true : (a b : Bool) → (a && b) ≡ true → a ≡ true
first_true true b h = refl
first_true false b h = cc

second_true : (a b : Bool) → (a && b) ≡ true → b ≡ true
second_true true b h = h
second_true false b h = cc

all_below : ℕ → (ℕ → Bool) → Bool
all_below zero test = true
all_below (suc k) test = test k && all_below k test

all_below-lt : (k : ℕ) (test : ℕ → Bool) (n : ℕ) → all_below k test ≡ true → n < k → test n ≡ true
unfolding all_below
all_below-lt zero test n h lt = absurd (omega arith)
all_below-lt (suc k) test n h lt = elim (Bool-cases (n == k)) [
  | inl e ↦ let q : n ≡ k = ground arith in subst (λ z. test z ≡ true) (sym q) (first_true _ _ h)
  | inr e ↦ all_below-lt k test n (second_true _ _ h) (ground arith)
]

abbrev reads_back : ℕ → Bool
reads_back n = same (bits (symbol n)) (some n) && is_alphabet (symbol n)

all_read_back : all_below 64 reads_back ≡ true
unfolding all_below
all_read_back = refl

bits-symbol : (n : ℕ) → n < 64 → bits (symbol n) ≡ some n
bits-symbol n h =
    let t = all_below-lt 64 reads_back n all_read_back h in
    same→eq (bits (symbol n)) (some n) (first_true _ _ t)

symbol_fits : (n : ℕ) → n < 64 → is_alphabet (symbol n) ≡ true
symbol_fits n h = second_true _ _ (all_below-lt 64 reads_back n all_read_back h)

abbrev pub IsByte : ℕ → Type 0
IsByte b = b < 256

top2 : (a x : ℕ) → x < 16 → a < 256 → a / 4 * 4 + (a % 4 * 16 + x) / 16 ≡ a
top2 a x hx h = omega arith

mid2 : (b a y : ℕ) → y < 4 → b < 256 → (a % 4 * 16 + b / 16) % 16 * 16 + (b % 16 * 4 + y) / 4 ≡ b
mid2 b a y hy h = omega arith

low2 : (c b : ℕ) → c < 256 → (b % 16 * 4 + c / 64) % 4 * 64 + c % 64 ≡ c
low2 c b h = omega arith

alone : (a : ℕ) → a < 256 → a / 4 * 4 + a % 4 * 16 / 16 ≡ a
alone a h = omega arith

last2 : (b a : ℕ) → b < 256 → (a % 4 * 16 + b / 16) % 16 * 16 + b % 16 * 4 / 4 ≡ b
last2 b a h = omega arith

decode_symbols-encoded :
    (bytes : List ℕ) → All IsByte bytes → decode_symbols (encoded bytes) ≡ some bytes
unfolding decode_symbols encoded
decode_symbols-encoded [] h = refl
decode_symbols-encoded (a ∷ []) (ha, _) =
    rw (bits-symbol (a / 4) (omega arith), bits-symbol (a % 4 * 16) (omega arith))
      (ap (λ z. some (z ∷ [])) (alone a ha))
decode_symbols-encoded (a ∷ b ∷ []) (ha, (hb, _)) =
    rw
      (
        bits-symbol (a / 4) (omega arith),
        bits-symbol (a % 4 * 16 + b / 16) (omega arith),
        bits-symbol (b % 16 * 4) (omega arith),
        top2 a (b / 16) (omega arith) ha,
        last2 b a hb,
      )
      refl
decode_symbols-encoded (a ∷ b ∷ c ∷ rest) (ha, (hb, (hc, hr))) =
    rw
      (
        bits-symbol (a / 4) (omega arith),
        bits-symbol (a % 4 * 16 + b / 16) (omega arith),
        bits-symbol (b % 16 * 4 + c / 64) (omega arith),
        bits-symbol (c % 64) (omega arith),
        decode_symbols-encoded rest hr,
        top2 a (b / 16) (omega arith) ha,
        mid2 b a (c / 64) (omega arith) hb,
        low2 c b hc,
      )
      refl

-- Whatever bytes are encoded, at least one, decoding gives them back.
pub decoded-encoded :
    (b : ℕ) (bytes : List ℕ)
    → All IsByte (b ∷ bytes)
    → decoded (encoded (b ∷ bytes)) ≡ some (b ∷ bytes)
unfolding decoded encoded
decoded-encoded b [] h = decode_symbols-encoded (b ∷ []) h
decoded-encoded b (c ∷ []) h = decode_symbols-encoded (b ∷ c ∷ []) h
decoded-encoded b (c ∷ d ∷ rest) h = decode_symbols-encoded (b ∷ c ∷ d ∷ rest) h

-- The encoding holds no dot and nothing else that a token or a URL could take for its own.
pub encoded_fits :
    (bytes : List ℕ) → All IsByte bytes → All (λ c. is_alphabet c ≡ true) (encoded bytes)
unfolding encoded
encoded_fits [] h = tt
encoded_fits (a ∷ []) (ha, _) =
    (symbol_fits (a / 4) (omega arith), (symbol_fits (a % 4 * 16) (omega arith), tt))
encoded_fits (a ∷ b ∷ []) (ha, (hb, _)) = (
  symbol_fits (a / 4) (omega arith),
  (symbol_fits (a % 4 * 16 + b / 16) (omega arith), (symbol_fits (b % 16 * 4) (omega arith), tt)),
)
encoded_fits (a ∷ b ∷ c ∷ rest) (ha, (hb, (hc, hr))) = (
  symbol_fits (a / 4) (omega arith),
  (
    symbol_fits (a % 4 * 16 + b / 16) (omega arith),
    (
      symbol_fits (b % 16 * 4 + c / 64) (omega arith),
      (symbol_fits (c % 64) (omega arith), encoded_fits rest hr),
    ),
  ),
)
