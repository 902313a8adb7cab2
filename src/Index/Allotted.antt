-- ===== src/Index/Allotted.antt =====
-- The budgets of `render_task_document` of task_index.py.
use dduo_solo_founder.Prelude.{
  ℕ, zero, suc, ◌+◌, ◌-◌, ◌*◌, ◌/◌, min, ◌≤◌, ◌≡◌, refl, inl, inr, false, ◌||◌, List, [], ◌∷◌, ◌++◌,
  map, length, Bool-cases, arith, length-append, none, some, ltb, ◌==◌, any_row, subst,
}
use dduo_solo_founder.Prelude.Options.{if-eq-some, some-eq-some}
use dduo_solo_founder.Context.Text.{Text, utf8_char, encode_utf8, has_surrogate}
use dduo_solo_founder.Context.Streaming.{encode_utf8-append}
use dduo_solo_founder.Work.Store.{Task}
use dduo_solo_founder.Index.Document.{
  TaskDocument, sum, nth, add_at, weights, shares, spend, allocate, zip_with, label_values,
  field_names, bound_characters, bound_bytes, byte_length, byte_overhead, character_overhead,
  document_of, render_task_document, field_values, min_characters, truncate_middle,
  truncate_utf8_middle,
}
use dduo_solo_founder.Index.Labels.{join}
use dduo_solo_founder.Index.Cuts.{
  truncate_middle-length, truncate_utf8_middle-bytes, truncate_utf8_middle-characters,
}

sum-add_at : (i extra : ℕ) (ns : List ℕ) → sum (add_at i extra ns) ≤ sum ns + extra
unfolding add_at
sum-add_at i extra [] = omega arith
sum-add_at zero extra (n ∷ ns) = omega arith
sum-add_at (suc i) extra (n ∷ ns) = omega (arith, sum-add_at i extra ns)

sum-shares :
    (available : ℕ) (ns ws : List ℕ) → sum (shares available ns ws) * 100 ≤ available * sum ws
unfolding shares
sum-shares available [] ws = grind arith
sum-shares available (n ∷ ns) [] = grind arith
sum-shares available (n ∷ ns) (w ∷ ws) =
    let ih = sum-shares available ns ws in
    let share : available * w / 100 * 100 ≤ available * w = omega arith in grind arith

sum-spend :
    (order : List ℕ) (remaining bound : ℕ) (lengths allocations : List ℕ)
    → sum allocations + remaining ≤ bound
    → sum (spend order remaining lengths allocations) ≤ bound
unfolding spend
sum-spend [] remaining bound lengths allocations h = omega arith
sum-spend (i ∷ order) remaining bound lengths allocations h =
    let extra = min remaining (nth lengths i - nth allocations i) in
    let added = sum-add_at i extra allocations in
    elim (Bool-cases (remaining - extra == 0)) [
      | inl t ↦ rw (t, sum) (omega arith)
      | inr t ↦
          rw (t, sum)
            (sum-spend order (remaining - extra) bound lengths (add_at i extra allocations)
              (omega arith))
    ]

-- The allocations keep within what is available.
sum-allocate : (available : ℕ) (lengths : List ℕ) → sum (allocate available lengths) ≤ available
unfolding allocate
sum-allocate available lengths =
    let first = sum-shares available lengths weights in
    sum-spend (0 ∷ 1 ∷ 2 ∷ 4 ∷ 3 ∷ []) (available - sum (shares available lengths weights))
      available lengths (shares available lengths weights) (omega arith)

byte_length-append : (s t : Text) → byte_length (s ++ t) ≡ byte_length s + byte_length t
byte_length-append s t = rw (encode_utf8-append s t) (length-append (encode_utf8 s) (encode_utf8 t))

-- a way to measure texts: characters, or bytes
module _ (measure : Text → ℕ)
    (measure-append : (s t : Text) → measure (s ++ t) ≡ measure s + measure t) where
  sum-zip_with :
      (cut : Text → ℕ → Text) (ts : List Text) (ns : List ℕ)
      → ((t : Text) (n : ℕ) → measure (cut t n) ≤ n)
      → sum (map measure (zip_with cut ts ns)) ≤ sum ns
  unfolding zip_with
  sum-zip_with cut [] ns h = omega arith
  sum-zip_with cut (t ∷ ts) [] h = omega arith
  sum-zip_with cut (t ∷ ts) (n ∷ ns) h = omega (arith, h t n, sum-zip_with cut ts ns h)

  shorter-zip_with :
      (cut : Text → ℕ → Text) (ts : List Text) (ns : List ℕ)
      → ((t : Text) (n : ℕ) → measure (cut t n) ≤ measure t)
      → sum (map measure (zip_with cut ts ns)) ≤ sum (map measure ts)
  unfolding zip_with
  shorter-zip_with cut [] ns h = omega arith
  shorter-zip_with cut (t ∷ ts) [] h = omega arith
  shorter-zip_with cut (t ∷ ts) (n ∷ ns) h = omega (arith, h t n, shorter-zip_with cut ts ns h)

  joined :
      (empty : measure [] ≡ 0) (break : measure (10 ∷ []) ≡ 1) (ts : List Text)
      → measure (join (10 ∷ []) ts) ≤ sum (map (λ t. measure t + 1) ts) - 1
  unfolding join
  joined empty break [] = omega arith
  joined empty break (t ∷ []) = omega arith
  joined empty break (t ∷ u ∷ us) =
      let ih = joined empty break (u ∷ us) in
      let rest = join (10 ∷ []) (u ∷ us) in
      omega (arith, measure-append (t ++ 10 ∷ []) rest, measure-append t (10 ∷ []))

  labelled :
      (colon : measure (b':' ∷ b' ' ∷ []) ≡ 2) (names values : List Text)
      → sum (map (λ t. measure t + 1) (label_values names values))
        ≤ sum (map (λ t. measure t + 3) names) + sum (map measure values)
  unfolding label_values
  labelled colon [] values = omega arith
  labelled colon (n ∷ ns) [] = omega arith
  labelled colon (n ∷ ns) (v ∷ vs) = omega (
    arith,
    labelled colon ns vs,
    measure-append (n ++ b':' ∷ b' ' ∷ []) v,
    measure-append n (b':' ∷ b' ' ∷ []),
  )

module _ (values : List Text) (max_characters max_utf8_bytes : ℕ) where
  abbrev bounded : List Text
  bounded = bound_characters max_characters values

  abbrev rendered : List Text
  rendered = bound_bytes max_utf8_bytes bounded

  rendered-characters : sum (map length rendered) ≤ max_characters - character_overhead
  unfolding bound_characters bound_bytes
  rendered-characters =
      let lengths = map length values in
      let available = max_characters - character_overhead in
      let h1 =
        sum-zip_with length length-append truncate_middle values (allocate available lengths)
          truncate_middle-length in
      let h2 =
        shorter-zip_with length length-append truncate_utf8_middle bounded
          (allocate (max_utf8_bytes - byte_overhead) (map byte_length bounded))
          truncate_utf8_middle-characters in
      omega (arith, sum-allocate available lengths)

  rendered-bytes : sum (map byte_length rendered) ≤ max_utf8_bytes - byte_overhead
  unfolding bound_bytes
  rendered-bytes =
      let available = max_utf8_bytes - byte_overhead in
      let allocations = allocate available (map byte_length bounded) in
      let h =
        sum-zip_with byte_length byte_length-append truncate_utf8_middle bounded allocations
          truncate_utf8_middle-bytes in
      omega (arith, sum-allocate available (map byte_length bounded))

byte_sizes :
    (byte_overhead ≡ 56)
    × (byte_length [] ≡ 0)
    × (byte_length (10 ∷ []) ≡ 1)
    × (byte_length (b':' ∷ b' ' ∷ []) ≡ 2)
    × (sum (map (λ t. byte_length t + 3) field_names) ≡ 57)
unfolding byte_overhead encode_utf8 utf8_char join
byte_sizes = (refl, refl, refl, refl, refl)

module _ (values : List Text) (max_characters max_utf8_bytes : ℕ) (h : 512 ≤ max_characters)
    (k : 512 ≤ max_utf8_bytes) where
  abbrev text : Text
  text = join (10 ∷ []) (label_values field_names (rendered values max_characters max_utf8_bytes))

  text-characters : length text ≤ max_characters
  text-characters =
      let vs = rendered values max_characters max_utf8_bytes in
      let h1 = joined length length-append refl refl (label_values field_names vs) in
      let h2 = labelled length length-append refl field_names vs in
      omega (arith, rendered-characters values max_characters max_utf8_bytes)

  text-bytes : byte_length text ≤ max_utf8_bytes
  text-bytes =
      let vs = rendered values max_characters max_utf8_bytes in
      let (total, empty, break, colon, names) = byte_sizes in
      let h1 = joined byte_length byte_length-append empty break (label_values field_names vs) in
      let h2 = labelled byte_length byte_length-append colon field_names vs in
      omega (arith, rendered-bytes values max_characters max_utf8_bytes)

wide_enough :
    (max_characters max_utf8_bytes : ℕ)
    → (ltb max_characters min_characters || ltb max_utf8_bytes min_characters) ≡ false
    → (512 ≤ max_characters) × (512 ≤ max_utf8_bytes)
wide_enough max_characters max_utf8_bytes h = ground arith

module _ (casefold : Text → Text) (hashed : List ℕ → ℕ) (t : Task)
    (max_characters max_utf8_bytes : ℕ) where
  -- Whatever the task holds, a document that is rendered keeps within both budgets: its text has at
  -- most `max_characters` characters and `max_utf8_bytes` bytes.
  pub render_task_document-bounds :
      {d : TaskDocument}
      → render_task_document casefold hashed t max_characters max_utf8_bytes ≡ some d
      → (length d.text ≤ max_characters) × (byte_length d.text ≤ max_utf8_bytes)
  unfolding render_task_document document_of
  render_task_document-bounds {d} h =
      let values = field_values casefold hashed t in
      let narrow = ltb max_characters min_characters || ltb max_utf8_bytes min_characters in
      elim (if-eq-some narrow none _ h) [
        | inl (wide, e) ↦ cc
        | inr (wide, e) ↦ elim (if-eq-some (any_row has_surrogate values) none _ e) [
          | inl (bad, f) ↦ cc
          | inr (good, f) ↦
              let (hc, hb) = wide_enough max_characters max_utf8_bytes wide in
              subst (λ u. (length u.text ≤ max_characters) × (byte_length u.text ≤ max_utf8_bytes))
                (some-eq-some f)
                (
                  text-characters values max_characters max_utf8_bytes hc hb,
                  text-bytes values max_characters max_utf8_bytes hc hb,
                )
        ]
      ]
