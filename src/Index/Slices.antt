-- ===== src/Index/Slices.antt =====
-- The first bytes of the characters in slices of an encoded text.
use dduo_solo_founder.Prelude.{
  ℕ, zero, suc, ◌+◌, ◌/◌, ◌%◌, ◌<◌, ◌≤◌, ◌≡◌, refl, inl, inr, Bool, true, false, ◌&&◌, List, [],
  ◌∷◌, ◌++◌, length, leb, ltb, if◌then◌else◌, Bool-cases, arith,
}
use dduo_solo_founder.Context.Text.{Text, utf8_char, encode_utf8}
use dduo_solo_founder.Memory.Keys.{take}
use dduo_solo_founder.Index.Document.{drop}

abbrev pub is_further : ℕ → Bool
is_further b = leb 0x80 b && ltb b 0xc0

abbrev pub starts : ℕ → ℕ
starts b = if is_further b then 0 else 1

-- the bytes that start a character
abbrev pub leads : List ℕ → ℕ
leads [] = 0
leads (b ∷ bs) = starts b + leads bs

-- A first byte comes before more than `g` further bytes, and then at least every fourth byte is one.
pub data Grounded : ℕ → List ℕ → Type 0 where
  ends : {g : ℕ} → Grounded g []
  leads_on : {g b : ℕ} {bs : List ℕ} → is_further b ≡ false → Grounded 3 bs → Grounded g (b ∷ bs)
  goes_on :
      {g b h : ℕ} {bs : List ℕ}
      → is_further b ≡ true
      → g ≡ h + 1
      → Grounded h bs
      → Grounded g (b ∷ bs)

further_byte : (x : ℕ) → is_further (0x80 + x % 0x40) ≡ true
further_byte x = ground arith

first_byte : (x y : ℕ) → 0xc0 ≤ x → is_further (x + y) ≡ false
first_byte x y h = ground arith

abbrev pub AnyGround : List ℕ → Type 0
AnyGround bs = (g : ℕ) → Grounded g bs

after_further :
    {g h : ℕ} (x : ℕ) {bs : List ℕ}
    → g ≡ h + 1
    → Grounded h bs
    → Grounded g ((0x80 + x % 0x40) ∷ bs)
after_further x e k = goes_on (further_byte x) e k

utf8_char-AnyGround : (c : ℕ) (rest : List ℕ) → AnyGround rest → AnyGround (utf8_char c ++ rest)
unfolding utf8_char
utf8_char-AnyGround c rest k g = elim (Bool-cases (ltb c 0x80)) [
  | inl t ↦ rw t (leads_on (ground arith) (k 3))
  | inr t ↦ rw t elim (Bool-cases (ltb c 0x800)) [
    | inl u ↦
        rw u (leads_on (first_byte 0xc0 (c / 0x40) (omega arith)) (after_further c refl (k 2)))
    | inr u ↦ rw u elim (Bool-cases (ltb c 0x10000)) [
      | inl w ↦ rw w (
          leads_on (first_byte 0xe0 (c / 0x1000) (omega arith))
            (after_further (c / 0x40) refl (after_further c refl (k 1))))
      | inr w ↦ rw w (
          leads_on (first_byte 0xf0 (c / 0x40000) (omega arith)) (
            after_further (c / 0x1000) refl
              (after_further (c / 0x40) refl (after_further c refl (k 0)))))
    ]
  ]
]

pub encode_utf8-AnyGround : (value : Text) → AnyGround (encode_utf8 value)
unfolding encode_utf8
encode_utf8-AnyGround [] g = ends
encode_utf8-AnyGround (c ∷ cs) g =
    utf8_char-AnyGround c (encode_utf8 cs) (encode_utf8-AnyGround cs) g

leads-utf8_char : (c : ℕ) (rest : List ℕ) → leads (utf8_char c ++ rest) ≡ 1 + leads rest
unfolding utf8_char
leads-utf8_char c rest = elim (Bool-cases (ltb c 0x80)) [
  | inl t ↦ rw t ground arith
  | inr t ↦ rw t elim (Bool-cases (ltb c 0x800)) [
    | inl u ↦ rw u ground arith
    | inr u ↦
        rw u elim (Bool-cases (ltb c 0x10000)) [
          | inl w ↦ rw w ground arith
          | inr w ↦ rw w ground arith
        ]
  ]
]

pub leads-encode_utf8 : (value : Text) → leads (encode_utf8 value) ≡ length value
unfolding encode_utf8
leads-encode_utf8 [] = refl
leads-encode_utf8 (c ∷ cs) =
    rw (leads-utf8_char c (encode_utf8 cs), leads-encode_utf8 cs) (omega arith)

leads-drop_lem : (n : ℕ) (bs : List ℕ) → leads (drop n bs) ≤ leads bs
unfolding drop
leads-drop_lem zero bs = omega arith
leads-drop_lem (suc n) [] = omega arith
leads-drop_lem (suc n) (b ∷ bs) = omega (arith, leads-drop_lem n bs)

pub leads-take_lem : (n : ℕ) (bs : List ℕ) → leads (take n bs) ≤ leads bs
unfolding take
leads-take_lem zero bs = omega arith
leads-take_lem (suc n) [] = omega arith
leads-take_lem (suc n) (b ∷ bs) = omega (arith, leads-take_lem n bs)

-- More than `g` bytes hold a first byte.
drop_lead :
    (g m : ℕ) (bs : List ℕ)
    → Grounded g bs
    → g < m
    → m ≤ length bs
    → leads (drop m bs) + 1 ≤ leads bs
unfolding drop
drop_lead g zero bs k h le = absurd (omega arith)
drop_lead g (suc m) [] k h le = absurd (omega arith)
drop_lead g (suc m) (b ∷ bs) (leads_on f k) h le = rw f (omega (arith, leads-drop_lem m bs))
drop_lead g (suc m) (b ∷ bs) (goes_on {h = n} f e k) h le =
    rw f (omega (arith, drop_lead n m bs k (omega arith) (omega arith)))

-- Four bytes between two slices hold a first byte.
pub window_lead :
    (g n m : ℕ) (bs : List ℕ)
    → Grounded g bs
    → g < 4
    → n + 4 ≤ m
    → m ≤ length bs
    → leads (take n bs) + 1 + leads (drop m bs) ≤ leads bs
unfolding take drop
window_lead g zero m bs k h far le = omega (arith, drop_lead g m bs k (omega arith) le)
window_lead g (suc n) zero bs k h far le = absurd (omega arith)
window_lead g (suc n) (suc m) [] k h far le = absurd (omega arith)
window_lead g (suc n) (suc m) (b ∷ bs) (leads_on f k) h far le =
    omega (arith, window_lead 3 n m bs k (omega arith) (omega arith) (omega arith))
window_lead g (suc n) (suc m) (b ∷ bs) (goes_on {h = r} f e k) h far le =
    omega (arith, window_lead r n m bs k (omega arith) (omega arith) (omega arith))
