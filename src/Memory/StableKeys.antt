-- ===== src/Memory/StableKeys.antt =====
-- What `normalize_node_key` of memory_engine.py returns, and that it leaves its own results alone.
use dduo_solo_founder.Prelude.{
  ℕ, zero, suc, ◌≤◌, Bool, true, false, ◌&&◌, [], ◌∷◌, none, some, ◌≡◌, ◌≢◌, refl, ap, subst, ◌∙◌,
  arith, leb, ◌==◌, All, length, Bool-cases, inl, inr,
}
use dduo_solo_founder.Prelude.Options.{some-eq-some}
use dduo_solo_founder.Context.Text.{Text}
use dduo_solo_founder.Memory.Keys.{
  is_space, strip_left, unless_dropped, strip_right, strip_chars, lower, is_key_char, sub_key_parts,
  is_edge, take, normalize_node_key,
}

abbrev pub IsKey : Text → Type 0
IsKey = All (λ c. is_key_char c ≡ true)

part-IsKey :
    (b gap : Bool) (c : ℕ) (kept skipped : Text)
    → (b ≡ true → is_key_char c ≡ true)
    → IsKey kept
    → IsKey skipped
    → IsKey
        (elim b [ true ↦ c ∷ kept | false ↦ elim gap [ true ↦ skipped | false ↦ b'-' ∷ skipped ] ])
part-IsKey true gap c kept skipped k h g = (k refl, h)
part-IsKey false true c kept skipped k h g = g
part-IsKey false false c kept skipped k h g = (refl, g)

sub_key_parts-IsKey : (gap : Bool) (cs : Text) → IsKey (sub_key_parts gap cs)
unfolding sub_key_parts
sub_key_parts-IsKey gap [] = tt
sub_key_parts-IsKey gap (c ∷ cs) =
    part-IsKey (is_key_char c) gap c (sub_key_parts false cs) (sub_key_parts true cs) (λ t. t)
      (sub_key_parts-IsKey false cs) (sub_key_parts-IsKey true cs)

strip_left-IsKey : (drops : ℕ → Bool) (cs : Text) → IsKey cs → IsKey (strip_left drops cs)
unfolding strip_left
strip_left-IsKey drops [] h = tt
strip_left-IsKey drops (c ∷ cs) (k, h) = elim (Bool-cases (drops c)) [
  | inl t ↦ rw t (strip_left-IsKey drops cs h)
  | inr t ↦ rw t (k, h)
]

unless_dropped-IsKey :
    (b : Bool) (c : ℕ) (cs : Text) → is_key_char c ≡ true → IsKey cs → IsKey (unless_dropped b c cs)
unless_dropped-IsKey true c [] k h = tt
unless_dropped-IsKey true c (d ∷ ds) k h = (k, h)
unless_dropped-IsKey false c cs k h = (k, h)

strip_right-IsKey : (drops : ℕ → Bool) (cs : Text) → IsKey cs → IsKey (strip_right drops cs)
unfolding strip_right
strip_right-IsKey drops [] h = tt
strip_right-IsKey drops (c ∷ cs) (k, h) =
    unless_dropped-IsKey (drops c) c (strip_right drops cs) k (strip_right-IsKey drops cs h)

take-IsKey : (n : ℕ) (cs : Text) → IsKey cs → IsKey (take n cs)
unfolding take
take-IsKey zero cs h = tt
take-IsKey (suc n) [] h = tt
take-IsKey (suc n) (c ∷ cs) (k, h) = (k, take-IsKey n cs h)

length-take : (n : ℕ) (cs : Text) → length (take n cs) ≤ n
unfolding take
length-take zero cs = omega arith
length-take (suc n) [] = omega arith
length-take (suc n) (c ∷ cs) = omega (arith, length-take n cs)

-- the first character, if there is one, is none that is stripped
abbrev pub StartsKept : (ℕ → Bool) → Text → Type 0
StartsKept drops [] = Unit
StartsKept drops (c ∷ cs) = drops c ≡ false

strip_left-StartsKept : (drops : ℕ → Bool) (cs : Text) → StartsKept drops (strip_left drops cs)
unfolding strip_left
strip_left-StartsKept drops [] = tt
strip_left-StartsKept drops (c ∷ cs) = elim (Bool-cases (drops c)) [
  | inl t ↦ rw t (strip_left-StartsKept drops cs)
  | inr t ↦ rw t t
]

unless_dropped-StartsKept :
    (drops : ℕ → Bool) (b : Bool) (c : ℕ) (cs : Text)
    → drops c ≡ false
    → StartsKept drops (unless_dropped b c cs)
unless_dropped-StartsKept drops true c [] k = tt
unless_dropped-StartsKept drops true c (d ∷ ds) k = k
unless_dropped-StartsKept drops false c cs k = k

strip_right-StartsKept :
    (drops : ℕ → Bool) (cs : Text) → StartsKept drops cs → StartsKept drops (strip_right drops cs)
unfolding strip_right
strip_right-StartsKept drops [] k = tt
strip_right-StartsKept drops (c ∷ cs) k =
    unless_dropped-StartsKept drops (drops c) c (strip_right drops cs) k

strip_left-same : (drops : ℕ → Bool) (cs : Text) → StartsKept drops cs → strip_left drops cs ≡ cs
unfolding strip_left
strip_left-same drops [] k = refl
strip_left-same drops (c ∷ cs) k = rw k refl

-- On the characters of a key, the other steps change nothing.
key_char_lower :
    (c : ℕ)
    → is_key_char c ≡ true
    → (leb b'A' c && leb c b'Z') ≡ false × ((c == 0x212a) ≡ false) × ((c == 0x130) ≡ false)
key_char_lower c k = (ground arith, ground arith, ground arith)

key_char_space : (c : ℕ) → is_key_char c ≡ true → is_space c ≡ false
key_char_space c k = ground arith

lower-same : (cs : Text) → IsKey cs → lower cs ≡ cs
unfolding lower
lower-same [] h = refl
lower-same (c ∷ cs) (k, h) =
    let (a, b, d) = key_char_lower c k in rw a (rw b (rw d (ap (λ l. c ∷ l) (lower-same cs h))))

sub_key_parts-same : (cs : Text) → IsKey cs → sub_key_parts false cs ≡ cs
unfolding sub_key_parts
sub_key_parts-same [] h = refl
sub_key_parts-same (c ∷ cs) (k, h) =
    rw (k, sub_key_parts) (ap (λ l. c ∷ l) (sub_key_parts-same cs h))

strip_right-spaces : (cs : Text) → IsKey cs → strip_right is_space cs ≡ cs
unfolding strip_right
strip_right-spaces [] h = refl
strip_right-spaces (c ∷ cs) (k, h) =
    rw (key_char_space c k) (ap (λ l. c ∷ l) (strip_right-spaces cs h))

starts_without_space : (cs : Text) → IsKey cs → StartsKept is_space cs
starts_without_space [] h = tt
starts_without_space (c ∷ cs) (k, h) = key_char_space c k

take-same : (n : ℕ) (cs : Text) → length cs ≤ n → take n cs ≡ cs
unfolding take
take-same zero [] le = refl
take-same zero (c ∷ cs) le = absurd (omega arith)
take-same (suc n) [] le = refl
take-same (suc n) (c ∷ cs) le = ap (λ l. c ∷ l) (take-same n cs (omega (arith, le)))

-- the cut that ends the normalisation of a key that is not empty
cut :
    (s : Text) {k : Text}
    → (elim s [ [] ↦ none | c ∷ cs ↦ some (take 200 (c ∷ cs)) ]) ≡ some k
    → (s ≢ []) × (take 200 s ≡ k)
cut [] h = cc
cut (c ∷ cs) h = (λ e. cc, some-eq-some h)

take-StartsKept :
    (drops : ℕ → Bool) (n : ℕ) (cs : Text) → StartsKept drops cs → StartsKept drops (take n cs)
unfolding take
take-StartsKept drops zero cs k = tt
take-StartsKept drops (suc n) [] k = tt
take-StartsKept drops (suc n) (c ∷ cs) k = k

take-nonempty : (cs : Text) → cs ≢ [] → take 200 cs ≢ []
unfolding take
take-nonempty [] n e = n refl
take-nonempty (c ∷ cs) n e = cc

-- Every key that `normalize_node_key` returns has 1 to 200 characters, all of them lowercase letters,
-- digits, colons, underscores, dots, slashes or dashes, and the first is none of the four that it
-- strips from the ends.
pub normalize_node_key-IsKey :
    (value key : Text)
    → normalize_node_key value ≡ some key
    → (key ≢ []) × (length key ≤ 200) × IsKey key × StartsKept is_edge key
unfolding normalize_node_key strip_chars
normalize_node_key-IsKey value key h =
    let parts = sub_key_parts false (lower (strip_chars is_space value)) in
    let left = strip_left is_edge parts in
    let (nonempty, e) = cut (strip_right is_edge left) h in
    let keys = strip_right-IsKey is_edge left (
      strip_left-IsKey is_edge parts
        (sub_key_parts-IsKey false (lower (strip_chars is_space value)))) in
    let starts = strip_right-StartsKept is_edge left (strip_left-StartsKept is_edge parts) in
    subst (λ k. (k ≢ []) × (length k ≤ 200) × IsKey k × StartsKept is_edge k) e
      (
        take-nonempty (strip_right is_edge left) nonempty,
        length-take 200 (strip_right is_edge left),
        take-IsKey 200 (strip_right is_edge left) keys,
        take-StartsKept is_edge 200 (strip_right is_edge left) starts,
      )

nonempty_cut :
    (k : Text)
    → k ≢ []
    → (elim k [ [] ↦ none | c ∷ cs ↦ some (take 200 (c ∷ cs)) ]) ≡ some (take 200 k)
nonempty_cut [] n = absurd (n refl)
nonempty_cut (c ∷ cs) n = refl

-- `normalize_node_key` maps a key that it returned to itself, unless the cut to 200 characters left a
-- dash, colon, dot or slash at its end.
pub normalize_node_key-normalize_node_key :
    (value key : Text)
    → normalize_node_key value ≡ some key
    → strip_right is_edge key ≡ key
    → normalize_node_key key ≡ some key
unfolding normalize_node_key strip_chars
normalize_node_key-normalize_node_key value key h ends =
    let (nonempty, le, keys, starts) = normalize_node_key-IsKey value key h in
    let spaces : strip_right is_space (strip_left is_space key) ≡ key =
      ap (strip_right is_space) (strip_left-same is_space key (starts_without_space key keys))
      ∙ strip_right-spaces key keys in
    let parts : sub_key_parts false (lower (strip_right is_space (strip_left is_space key))) ≡ key =
      ap (λ t. sub_key_parts false (lower t)) spaces
      ∙ ap (sub_key_parts false) (lower-same key keys)
      ∙ sub_key_parts-same key keys in
    let all_same =
      ap (λ t. strip_right is_edge (strip_left is_edge t)) parts
      ∙ ap (strip_right is_edge) (strip_left-same is_edge key starts)
      ∙ ends in
    ap (λ s. elim s [ [] ↦ none | c ∷ cs ↦ some (take 200 (c ∷ cs)) ]) all_same
    ∙ nonempty_cut key nonempty
    ∙ ap some (take-same 200 key le)
