-- ===== src/Index/Cuts.antt =====
-- What the two truncations of task_index.py leave of a text.
use dduo_solo_founder.Prelude.{
  ℕ, zero, suc, ◌+◌, ◌-◌, ◌*◌, ◌/◌, ◌<◌, ◌≤◌, ◌≡◌, refl, inl, inr, List, [], ◌∷◌, ◌++◌, length, leb,
  Bool-cases, leb→le, arith, length-append, Option, none, some, ◌&&◌,
}
use dduo_solo_founder.Context.Text.{Text, utf8_char, encode_utf8}
use dduo_solo_founder.Context.Streaming.{encode_utf8-append}
use dduo_solo_founder.Memory.Keys.{take}
use dduo_solo_founder.Index.Bytes.{
  Expects, lead, further, start_byte, take_further, shifted, take_byte, put_character, decode_from,
  decode_ignore, decode_ignore-bytes,
}
use dduo_solo_founder.Index.Document.{
  drop, last_items, ellipsis, truncate_middle, truncate_utf8_middle,
}
use dduo_solo_founder.Index.Slices.{
  starts, leads, encode_utf8-AnyGround, leads-encode_utf8, leads-take_lem, window_lead,
}

-- the character that a state has begun
abbrev begun : Expects → ℕ
begun lead = 0
begun (further left value low high) = 1

abbrev given : Option ℕ → ℕ
given none = 0
given (some c) = 1

abbrev Starts : ℕ → Option ℕ × Expects → Type 0
Starts b stepped = given stepped.0 + begun stepped.1 ≤ starts b

start_byte-Starts : (b : ℕ) → Starts b (start_byte b)
unfolding start_byte
start_byte-Starts b = ground arith

take_further-begun :
    (left value : ℕ) → given (take_further left value).0 + begun (take_further left value).1 ≤ 1
take_further-begun zero value = omega arith
take_further-begun (suc left) value = omega arith

take_byte-begun :
    (e : Expects) (b : ℕ) → given (take_byte e b).0 + begun (take_byte e b).1 ≤ begun e + starts b
unfolding take_byte
take_byte-begun lead b = omega (arith, start_byte-Starts b)
take_byte-begun (further left v l h) b = elim (Bool-cases (leb l b && leb b h)) [
  | inl t ↦ rw t (omega (arith, take_further-begun left (shifted v b)))
  | inr t ↦ rw t (omega (arith, start_byte-Starts b))
]

length-put_character :
    (o : Option ℕ) (cs : Text) → length (put_character o cs) ≡ given o + length cs
length-put_character none cs = omega arith
length-put_character (some c) cs = omega arith

decode_from-leads : (e : Expects) (bs : List ℕ) → length (decode_from e bs) ≤ begun e + leads bs
unfolding decode_from
decode_from-leads e [] = omega arith
decode_from-leads e (b ∷ bs) =
    rw (length-put_character (take_byte e b).0 (decode_from (take_byte e b).1 bs))
      (omega (arith, take_byte-begun e b, decode_from-leads (take_byte e b).1 bs))

decode_ignore-leads : (bs : List ℕ) → length (decode_ignore bs) ≤ leads bs
unfolding decode_ignore
decode_ignore-leads bs = omega (arith, decode_from-leads lead bs)

length-take : (n : ℕ) (xs : List ℕ) → length (take n xs) ≤ n
unfolding take
length-take zero xs = omega arith
length-take (suc n) [] = omega arith
length-take (suc n) (x ∷ xs) = omega (arith, length-take n xs)

length-drop : (n : ℕ) (xs : List ℕ) → length (drop n xs) ≡ length xs - n
unfolding drop
length-drop zero xs = omega arith
length-drop (suc n) [] = omega arith
length-drop (suc n) (x ∷ xs) = omega (arith, length-drop n xs)

length-last_items : (n : ℕ) (xs : List ℕ) → length (last_items n xs) ≤ n
unfolding last_items
length-last_items n xs = omega (arith, length-drop (length xs - n) xs)

within_parts :
    (head tail : Text) {bound : ℕ}
    → length head + 1 + length tail ≤ bound
    → length (head ++ ellipsis ++ tail) ≤ bound
within_parts head tail h =
    omega (arith, length-append (head ++ ellipsis) tail, length-append head ellipsis)

mark_bytes : length (encode_utf8 ellipsis) ≡ 3
unfolding encode_utf8 utf8_char
mark_bytes = refl

bytes-parts :
    (head tail : Text)
    → length (encode_utf8 (head ++ ellipsis ++ tail))
      ≡ length (encode_utf8 head) + 3 + length (encode_utf8 tail)
bytes-parts head tail =
    rw (encode_utf8-append (head ++ ellipsis) tail, encode_utf8-append head ellipsis)
      (omega (
        arith,
        mark_bytes,
        length-append (encode_utf8 head ++ encode_utf8 ellipsis) (encode_utf8 tail),
        length-append (encode_utf8 head) (encode_utf8 ellipsis),
      ))

-- A text cut in its middle keeps within its budget of characters.
pub truncate_middle-length :
    (value : Text) (budget : ℕ) → length (truncate_middle value budget) ≤ budget
unfolding truncate_middle
truncate_middle-length value budget = elim (Bool-cases (leb (length value) budget)) [
  | inl t ↦ rw t (leb→le (length value) budget t)
  | inr t ↦ rw t elim (Bool-cases (leb budget 1)) [
    | inl u ↦ rw u (length-take budget ellipsis)
    | inr u ↦
        let head = take (budget / 2) value in
        let tail = last_items (budget - 1 - budget / 2) value in
        rw u (
          within_parts head tail (
            ground (
              arith,
              length-take (budget / 2) value,
              length-last_items (budget - 1 - budget / 2) value,
            )))
  ]
]

module _ (value : Text) (budget : ℕ) (long : budget < length (encode_utf8 value))
    (wide : 3 < budget) where
  abbrev head_budget : ℕ
  head_budget = (budget - 3) * 2 / 3

  abbrev tail_budget : ℕ
  tail_budget = budget - 3 - head_budget

  abbrev head : Text
  head = decode_ignore (take head_budget (encode_utf8 value))

  abbrev tail : Text
  tail = decode_ignore (last_items tail_budget (encode_utf8 value))

  cut_bytes : length (encode_utf8 (head ++ ellipsis ++ tail)) ≤ budget
  cut_bytes =
      let h1 = decode_ignore-bytes (take head_budget (encode_utf8 value)) in
      let h2 = length-take head_budget (encode_utf8 value) in
      let h3 = decode_ignore-bytes (last_items tail_budget (encode_utf8 value)) in
      let h4 = length-last_items tail_budget (encode_utf8 value) in
      omega (arith, bytes-parts head tail)

  cut_characters : length (head ++ ellipsis ++ tail) ≤ length value
  unfolding last_items
  cut_characters =
      let middle = length (encode_utf8 value) - tail_budget in
      let h1 = decode_ignore-leads (take head_budget (encode_utf8 value)) in
      let h2 = decode_ignore-leads (last_items tail_budget (encode_utf8 value)) in
      let w =
        window_lead 3 head_budget middle (encode_utf8 value) (encode_utf8-AnyGround value 3)
          (omega arith) (omega arith) (omega arith) in
      let all = leads-encode_utf8 value in within_parts head tail (omega arith)

truncate_utf8-cases :
    (P : Text → Type 0) (value : Text) (budget : ℕ)
    → (length (encode_utf8 value) ≤ budget → P value)
    → (budget ≤ 3 → P (decode_ignore (take budget (encode_utf8 value))))
    → ((long : budget < length (encode_utf8 value)) (wide : 3 < budget)
        → P (head value budget long wide ++ ellipsis ++ tail value budget long wide))
    → P (truncate_utf8_middle value budget)
unfolding truncate_utf8_middle
truncate_utf8-cases P value budget short narrow cut =
    elim (Bool-cases (leb (length (encode_utf8 value)) budget)) [
      | inl t ↦ rw t (short (leb→le _ _ t))
      | inr t ↦ rw t elim (Bool-cases (leb budget 3)) [
        | inl u ↦ rw u (narrow (leb→le budget 3 u))
        | inr u ↦ rw u (cut (ground arith) (ground arith))
      ]
    ]

-- A text cut by its encoding keeps within its budget of bytes.
pub truncate_utf8_middle-bytes :
    (value : Text) (budget : ℕ) → length (encode_utf8 (truncate_utf8_middle value budget)) ≤ budget
truncate_utf8_middle-bytes value budget =
    truncate_utf8-cases (λ r. length (encode_utf8 r) ≤ budget) value budget (λ h. h)
      (λ h. omega (
        arith,
        decode_ignore-bytes (take budget (encode_utf8 value)),
        length-take budget (encode_utf8 value),
      ))
      (cut_bytes value budget)

-- It has no more characters than before.
pub truncate_utf8_middle-characters :
    (value : Text) (budget : ℕ) → length (truncate_utf8_middle value budget) ≤ length value
truncate_utf8_middle-characters value budget =
    truncate_utf8-cases (λ r. length r ≤ length value) value budget (λ h. omega arith)
      (λ h. omega (
        arith,
        decode_ignore-leads (take budget (encode_utf8 value)),
        leads-take_lem budget (encode_utf8 value),
        leads-encode_utf8 value,
      ))
      (cut_characters value budget)
