-- ===== src/Index/Bytes.antt =====
-- `bytes.decode("utf-8", errors="ignore")`, which task_index.py applies to slices of encoded texts.
use dduo_solo_founder.Prelude.{
  ℕ, zero, suc, ◌+◌, ◌-◌, ◌*◌, ◌<◌, ◌≤◌, ◌≡◌, inl, inr, true, ◌&&◌, List, [], ◌∷◌, length, ltb, leb,
  ◌==◌, if◌then◌else◌, Bool-cases, arith, length-append, ltb→lt,
}
use dduo_solo_founder.Prelude.{Option, none, some}
use dduo_solo_founder.Context.Text.{Text, utf8_char, encode_utf8}

-- What the decoder waits for: a first byte, or a further byte between `low` and `high` with `left`
-- more after it, where `value` is what the bytes before give.
pub data Expects : Type 0 where
  lead : Expects
  further : (left value low high : ℕ) → Expects

-- the table of well-formed first bytes; others are skipped
unfoldable pub start_byte : ℕ → Option ℕ × Expects
start_byte b =
    if ltb b 0x80
    then (some b, lead)
    else if ltb b 0xc2
    then (none, lead)
    else if ltb b 0xe0
    then (none, further 0 (b - 0xc0) 0x80 0xbf)
    else if b == 0xe0
    then (none, further 1 0 0xa0 0xbf)
    else if b == 0xed
    then (none, further 1 13 0x80 0x9f)
    else if ltb b 0xf0
    then (none, further 1 (b - 0xe0) 0x80 0xbf)
    else if b == 0xf0
    then (none, further 2 0 0x90 0xbf)
    else if ltb b 0xf4
    then (none, further 2 (b - 0xf0) 0x80 0xbf)
    else if b == 0xf4
    then (none, further 2 4 0x80 0x8f)
    else (none, lead)

abbrev pub shifted : ℕ → ℕ → ℕ
shifted value b = value * 0x40 + (b - 0x80)

abbrev pub take_further : ℕ → ℕ → Option ℕ × Expects
take_further zero value = (some value, lead)
take_further (suc left) value = (none, further left value 0x80 0xbf)

-- A byte that does not fit drops the bytes before it and is read as a first byte.
unfoldable pub take_byte : Expects → ℕ → Option ℕ × Expects
unfolding start_byte
take_byte lead b = start_byte b
take_byte (further left value low high) b =
    if leb low b && leb b high then take_further left (shifted value b) else start_byte b

abbrev pub put_character : Option ℕ → Text → Text
put_character none cs = cs
put_character (some c) cs = c ∷ cs

unfoldable pub decode_from : Expects → List ℕ → Text
unfolding take_byte
decode_from e [] = []
decode_from e (b ∷ bs) = put_character (take_byte e b).0 (decode_from (take_byte e b).1 bs)

unfoldable pub decode_ignore : List ℕ → Text
unfolding decode_from
decode_ignore = decode_from lead

-- The states that the decoder reaches, after how many bytes of a character.
pub data Waits : Expects → ℕ → Type 0 where
  waits_none : Waits lead 0
  waits_last2 : {v l h : ℕ} → v < 32 → h ≤ 0xbf → Waits (further 0 v l h) 1
  waits_first3 : {v l h : ℕ} → v < 16 → h ≤ 0xbf → Waits (further 1 v l h) 1
  waits_last3 : {v l h : ℕ} → v < 1024 → h ≤ 0xbf → Waits (further 0 v l h) 2
  waits_first4 : {v l h : ℕ} → h ≤ 0xbf → Waits (further 2 v l h) 1
  waits_next4 : {v l h : ℕ} → h ≤ 0xbf → Waits (further 1 v l h) 2
  waits_last4 : {v l h : ℕ} → h ≤ 0xbf → Waits (further 0 v l h) 3

abbrev size : Option ℕ → ℕ
size none = 0
size (some c) = length (utf8_char c)

-- After a byte, the bytes of the character that was put and those that wait.
record Spends (stepped : Option ℕ × Expects) (bound : ℕ) : Type 0 where
  held : ℕ
  waits : Waits stepped.1 held
  within : size stepped.0 + held ≤ bound

width2 : (c : ℕ) → c < 0x800 → length (utf8_char c) ≤ 2
unfolding utf8_char
width2 c h = ground arith

width3 : (c : ℕ) → c < 0x10000 → length (utf8_char c) ≤ 3
unfolding utf8_char
width3 c h = ground arith

width1 : (c : ℕ) → c < 0x80 → length (utf8_char c) ≤ 1
unfolding utf8_char
width1 c h = ground arith

width4 : (c : ℕ) → length (utf8_char c) ≤ 4
unfolding utf8_char
width4 c = ground arith

waiting :
    {o : Option ℕ} {e : Expects} {bound : ℕ} (n : ℕ)
    → Waits e n
    → size o + n ≤ bound
    → Spends (o, e) bound
waiting n w f = record { held = n; waits = w; within = f }

skips : (held : ℕ) → Spends (none, lead) (held + 1)
skips held = waiting 0 waits_none (omega arith)

holds_first : {e : Expects} (held : ℕ) → Waits e 1 → Spends (none, e) (held + 1)
holds_first held w = waiting 1 w (omega arith)

puts_first : (b held : ℕ) → ltb b 0x80 ≡ true → Spends (some b, lead) (held + 1)
puts_first b held t = waiting {o = some b} 0 waits_none (omega (arith, width1 b (ltb→lt b 0x80 t)))

start_byte-Spends : (b held : ℕ) → Spends (start_byte b) (held + 1)
unfolding start_byte
start_byte-Spends b held = elim (Bool-cases (ltb b 0x80)) [
  | inl t ↦ rw t (puts_first b held t)
  | inr t ↦ rw t (elim (Bool-cases (ltb b 0xc2)) [
    | inl t ↦ rw t (skips held)
    | inr t ↦ rw t (elim (Bool-cases (ltb b 0xe0)) [
      | inl t ↦ rw t (holds_first held (waits_last2 (ground arith) (omega arith)))
      | inr t ↦ rw t (elim (Bool-cases (b == 0xe0)) [
        | inl t ↦ rw t (holds_first held (waits_first3 (omega arith) (omega arith)))
        | inr t ↦ rw t (elim (Bool-cases (b == 0xed)) [
          | inl t ↦ rw t (holds_first held (waits_first3 (omega arith) (omega arith)))
          | inr t ↦ rw t (elim (Bool-cases (ltb b 0xf0)) [
            | inl t ↦ rw t (holds_first held (waits_first3 (ground arith) (omega arith)))
            | inr t ↦ rw t (elim (Bool-cases (b == 0xf0)) [
              | inl t ↦ rw t (holds_first held (waits_first4 (omega arith)))
              | inr t ↦ rw t (elim (Bool-cases (ltb b 0xf4)) [
                | inl t ↦ rw t (holds_first held (waits_first4 (omega arith)))
                | inr t ↦ rw t (elim (Bool-cases (b == 0xf4)) [
                  | inl t ↦ rw t (holds_first held (waits_first4 (omega arith)))
                  | inr t ↦ rw t (skips held)
                ])
              ])
            ])
          ])
        ])
      ])
    ])
  ])
]

further-Spends :
    {left v l h : ℕ} (b held : ℕ)
    → Waits (further left v l h) held
    → leb b h ≡ true
    → Spends (take_further left (shifted v b)) (held + 1)
further-Spends {v} b held (waits_last2 p q) t =
    waiting 0 waits_none (omega (arith, width2 (shifted v b) (ground arith)))
further-Spends b held (waits_first3 p q) t =
    waiting 2 (waits_last3 (ground arith) (omega arith)) (omega arith)
further-Spends {v} b held (waits_last3 p q) t =
    waiting 0 waits_none (omega (arith, width3 (shifted v b) (ground arith)))
further-Spends b held (waits_first4 q) t = waiting 2 (waits_next4 (omega arith)) (omega arith)
further-Spends b held (waits_next4 q) t = waiting 3 (waits_last4 (omega arith)) (omega arith)
further-Spends {v} b held (waits_last4 q) t =
    waiting 0 waits_none (omega (arith, width4 (shifted v b)))

take_byte-Spends : (e : Expects) (b held : ℕ) → Waits e held → Spends (take_byte e b) (held + 1)
unfolding take_byte
take_byte-Spends lead b held w = start_byte-Spends b held
take_byte-Spends (further left v l h) b held w = elim (Bool-cases (leb l b && leb b h)) [
  | inl t ↦ rw t (further-Spends b held w (ground arith))
  | inr t ↦ rw t (start_byte-Spends b held)
]

encode-put_character :
    (o : Option ℕ) (cs : Text)
    → length (encode_utf8 (put_character o cs)) ≡ size o + length (encode_utf8 cs)
unfolding encode_utf8
encode-put_character none cs = omega arith
encode-put_character (some c) cs = length-append (utf8_char c) (encode_utf8 cs)

decode_from-bytes :
    (e : Expects) (held : ℕ) (bs : List ℕ)
    → Waits e held
    → length (encode_utf8 (decode_from e bs)) ≤ held + length bs
unfolding decode_from encode_utf8
decode_from-bytes e held [] w = omega arith
decode_from-bytes e held (b ∷ bs) w =
    let s = take_byte-Spends e b held w in
    let ih = decode_from-bytes (take_byte e b).1 s.held bs s.waits in
    let f = s.within in
    rw (encode-put_character (take_byte e b).0 (decode_from (take_byte e b).1 bs)) (omega arith)

-- Decoding drops bytes and adds none.
pub decode_ignore-bytes : (bs : List ℕ) → length (encode_utf8 (decode_ignore bs)) ≤ length bs
unfolding decode_ignore
decode_ignore-bytes bs = omega (arith, decode_from-bytes lead 0 bs waits_none)
