-- ===== src/Context/Streaming.antt =====
-- `_measure_lines` of context_budget.py never builds the joined text, and measures it all the same.
use dduo_solo_founder.Prelude.{
  ℕ, ◌+◌, false, List, [], ◌∷◌, ◌++◌, length, ◌≡◌, refl, ap, sym, subst, ◌∙◌, arith, length-append,
}
use dduo_solo_founder.Context.Text.{Text, utf16_length, encode_utf8, utf8_char}
use dduo_solo_founder.Context.Measure.{
  Running, separator, add_line, run_lines, started, join_lines, measure, measure_lines,
}

append_assoc : (xs ys zs : List ℕ) → (xs ++ ys) ++ zs ≡ xs ++ (ys ++ zs)
append_assoc [] ys zs = refl
append_assoc (x ∷ xs) ys zs = ap (λ l. x ∷ l) (append_assoc xs ys zs)

append_nil : (xs : List ℕ) → xs ++ [] ≡ xs
append_nil [] = refl
append_nil (x ∷ xs) = ap (λ l. x ∷ l) (append_nil xs)

utf16_length-append : (s t : Text) → utf16_length (s ++ t) ≡ utf16_length s + utf16_length t
unfolding utf16_length
utf16_length-append [] t = omega arith
utf16_length-append (c ∷ cs) t = omega (arith, utf16_length-append cs t)

pub encode_utf8-append : (s t : Text) → encode_utf8 (s ++ t) ≡ encode_utf8 s ++ encode_utf8 t
unfolding encode_utf8
encode_utf8-append [] t = refl
encode_utf8-append (c ∷ cs) t =
    ap (λ l. utf8_char c ++ l) (encode_utf8-append cs t)
    ∙ sym (append_assoc (utf8_char c) (encode_utf8 cs) (encode_utf8 t))

-- The loop has read the text so far.
abbrev Reads : Running → Text → Type 0
Reads r value =
    (r.characters ≡ length value)
    × (r.utf16 ≡ utf16_length value)
    × (r.utf8_bytes ≡ length (encode_utf8 value))
    × (r.fed ≡ encode_utf8 value)

add_line-Reads :
    (r : Running) (value line : Text) → Reads r value → Reads (add_line line r) (value ++ line)
unfolding add_line
add_line-Reads r value line (c, u, b, f) =
    let bytes = encode_utf8-append value line in
    (
      omega (arith, c, length-append value line),
      omega (arith, u, utf16_length-append value line),
      omega (arith, b, length-append (encode_utf8 value) (encode_utf8 line), ap length bytes),
      ap (λ l. l ++ encode_utf8 line) f ∙ sym bytes,
    )

separator-Reads :
    (r : Running) (value : Text)
    → r.first ≡ false
    → Reads r value
    → Reads (separator r) (value ++ 10 ∷ [])
unfolding utf16_length encode_utf8 utf8_char
separator-Reads r value more (c, u, b, f) =
    let bytes = encode_utf8-append value (10 ∷ []) in
    rw more (
      omega (arith, c, length-append value (10 ∷ [])),
      omega (arith, u, utf16_length-append value (10 ∷ [])),
      omega (arith, b, length-append (encode_utf8 value) (10 ∷ []), ap length bytes),
      ap (λ l. l ++ 10 ∷ []) f ∙ sym bytes,
    )

abbrev followed_by : List Text → Text
followed_by [] = []
followed_by (line ∷ lines) = 10 ∷ (line ++ followed_by lines)

join_lines-cons :
    (line : Text) (lines : List Text) → join_lines (line ∷ lines) ≡ line ++ followed_by lines
unfolding join_lines
join_lines-cons line [] = sym (append_nil line)
join_lines-cons line (next ∷ lines) = ap (λ l. line ++ (10 ∷ l)) (join_lines-cons next lines)

run_lines-Reads :
    (lines : List Text) (r : Running) (value : Text)
    → r.first ≡ false
    → Reads r value
    → Reads (run_lines lines r) (value ++ followed_by lines)
unfolding run_lines add_line
run_lines-Reads [] r value more reads = subst (Reads r) (sym (append_nil value)) reads
run_lines-Reads (line ∷ lines) r value more reads =
    let separated = separator-Reads r value more reads in
    let added = add_line-Reads (separator r) (value ++ 10 ∷ []) line separated in
    let rest =
      run_lines-Reads lines (add_line line (separator r)) ((value ++ 10 ∷ []) ++ line) refl added in
    subst (Reads (run_lines lines (add_line line (separator r))))
      (append_assoc (value ++ 10 ∷ []) line (followed_by lines)
        ∙ append_assoc value (10 ∷ []) (line ++ followed_by lines))
      rest

all_lines-Reads : (lines : List Text) → Reads (run_lines lines started) (join_lines lines)
unfolding run_lines add_line join_lines utf16_length encode_utf8
all_lines-Reads [] = (refl, refl, refl, refl)
all_lines-Reads (line ∷ lines) =
    subst (Reads (run_lines lines (add_line line started))) (sym (join_lines-cons line lines)) (
      run_lines-Reads lines (add_line line started) line refl
        (add_line-Reads started [] line (refl, refl, refl, refl)))

-- `_measure_lines` gives exactly the measurement that `_measure` gives of the joined text, with the
-- same digest, for every digest function and every list of lines.
pub measure_lines-join_lines :
    (sha256 : List ℕ → Text) (lines : List Text)
    → measure_lines sha256 lines ≡ measure sha256 (join_lines lines)
unfolding measure_lines measure
measure_lines-join_lines sha256 lines = let (c, u, b, f) = all_lines-Reads lines in cc
