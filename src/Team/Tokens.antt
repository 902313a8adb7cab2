-- ===== src/Team/Tokens.antt =====
-- How authority_receipts.py signs a token and checks its signature.
use dduo_solo_founder.Prelude.{
  ℕ, ◌≤◌, ◌≡◌, refl, sym, ◌∙◌, ap, Bool, true, false, ◌||◌, Option, none, some, List, [], ◌∷◌, ◌++◌,
  All, length, ltb, ◌==◌, if◌then◌else◌, arith, subst,
}
use mathlib.Core.List.{append-nil, append_assoc}
use dduo_solo_founder.Prelude.Options.{◌>>=◌, guard, ◌>>◌}
use dduo_solo_founder.Prelude.Equality.{same, same_self, list_eq, nat_eq}
use dduo_solo_founder.Context.Text.{Text, codes}
use dduo_solo_founder.Team.Encoding.{
  encoded, decoded, decoded-encoded, encoded_fits, is_alphabet, IsByte,
}

abbrev pub prefix : Text
prefix = codes "dduo_authority_v1"

abbrev pub dot : ℕ
dot = b'.'

-- `value.split(".")`, where `part` is what was read of the part at hand
unfoldable pub split_dots : Text → Text → List Text
split_dots part [] = part ∷ []
split_dots part (c ∷ cs) = elim (c == dot) [
  | true ↦ part ∷ split_dots [] cs
  | false ↦ split_dots (part ++ c ∷ []) cs
]

-- `hmac_sha256` is the standard library's digest of a message under a secret; the texts of a token
-- are ASCII, so they are their own bytes.
module _ (hmac_sha256 : List ℕ → List ℕ → List ℕ) where
  -- the end of `issue_authority_receipt`, for the bytes of the payload
  unfoldable pub sign_token : List ℕ → List ℕ → Text
  unfolding encoded
  sign_token secret payload =
      let signing_input = prefix ++ dot ∷ encoded payload in
      signing_input ++ dot ∷ encoded (hmac_sha256 secret signing_input)

  -- the check of the parts of a token
  unfoldable pub check_parts : List ℕ → List Text → Option (List ℕ)
  unfolding decoded
  check_parts secret (first ∷ payload ∷ signature ∷ []) =
      guard (same first prefix) >> decoded signature >>= λ supplied.
      guard (same supplied (hmac_sha256 secret (first ++ dot ∷ payload))) >> decoded payload
  check_parts secret parts = none

  -- The start of `verify_authority_receipt`, up to the bytes of an authentic payload; none stands for
  -- the `AuthorityReceiptError`.
  unfoldable pub check_token : List ℕ → Text → Option (List ℕ)
  unfolding split_dots check_parts
  check_token secret token =
      if same secret [] || ltb 2048 (length token)
      then none
      else check_parts secret (split_dots [] token)

neither : (a b : Bool) → (a || b) ≡ false → (a ≡ false) × (b ≡ false)
neither true b h = cc
neither false b h = (refl, h)

no_dot : (c : ℕ) → is_alphabet c ≡ true → (c == dot) ≡ false
no_dot c h = ground arith

split_dots_at :
    (part text rest : Text)
    → All (λ c. is_alphabet c ≡ true) text
    → split_dots part (text ++ dot ∷ rest) ≡ (part ++ text) ∷ split_dots [] rest
unfolding split_dots
split_dots_at part [] rest h = ap (λ p. p ∷ split_dots [] rest) (sym (append-nil part))
split_dots_at part (c ∷ cs) rest (hc, h) =
    rw (no_dot c hc, split_dots)
      (split_dots_at (part ++ c ∷ []) cs rest h
        ∙ ap (λ p. p ∷ split_dots [] rest) (append_assoc part (c ∷ []) cs))

split_dots_end :
    (part text : Text)
    → All (λ c. is_alphabet c ≡ true) text
    → split_dots part text ≡ (part ++ text) ∷ []
unfolding split_dots
split_dots_end part [] h = ap (λ p. p ∷ []) (sym (append-nil part))
split_dots_end part (c ∷ cs) (hc, h) =
    rw (no_dot c hc, split_dots)
      (split_dots_end (part ++ c ∷ []) cs h ∙ ap (λ p. p ∷ []) (append_assoc part (c ∷ []) cs))

module _ (hmac_sha256 : List ℕ → List ℕ → List ℕ) where
  abbrev signing_input : List ℕ → Text
  signing_input payload = prefix ++ dot ∷ encoded payload

  split-sign :
      (secret payload : List ℕ)
      → All IsByte payload
      → All IsByte (hmac_sha256 secret (signing_input payload))
      → split_dots [] (sign_token hmac_sha256 secret payload)
        ≡ prefix ∷ encoded payload ∷ encoded (hmac_sha256 secret (signing_input payload)) ∷ []
  unfolding split_dots sign_token
  split-sign secret payload hp hm =
      let signature = encoded (hmac_sha256 secret (signing_input payload)) in
      ap (λ parts. prefix ∷ parts)
        (split_dots_at [] (encoded payload) signature (encoded_fits payload hp)
          ∙ ap (λ parts. encoded payload ∷ parts) (split_dots_end [] signature (encoded_fits _ hm)))

  signature_of :
      (p : ℕ) (ps : List ℕ) (mac : List ℕ)
      → mac ≡ p ∷ ps
      → All IsByte mac
      → decoded (encoded mac) ≡ some mac
  signature_of p ps mac e h =
      ap (λ m. decoded (encoded m)) e
      ∙ decoded-encoded p ps (subst (All IsByte) e h)
      ∙ ap some (sym e)

  -- The token that is signed for some bytes is accepted under the same secret and gives the bytes
  -- back, if the secret is not empty, the digest gives bytes, at least one, and the token has at most
  -- 2048 characters.
  pub check_token-sign_token :
      (secret : List ℕ) (b : ℕ) (payload : List ℕ) (m : ℕ) (mac : List ℕ)
      → same secret [] ≡ false
      → All IsByte (b ∷ payload)
      → All IsByte (m ∷ mac)
      → hmac_sha256 secret (signing_input (b ∷ payload)) ≡ m ∷ mac
      → length (sign_token hmac_sha256 secret (b ∷ payload)) ≤ 2048
      → check_token hmac_sha256 secret (sign_token hmac_sha256 secret (b ∷ payload))
        ≡ some (b ∷ payload)
  unfolding check_token check_parts
  check_token-sign_token secret b payload m mac set hp hm digest short =
      let whole = b ∷ payload in
      let token = sign_token hmac_sha256 secret whole in
      let t : ltb 2048 (length token) ≡ false = ground arith in
      let bytes = subst (All IsByte) (sym digest) hm in
      rw
        (
          set,
          t,
          split-sign secret whole hp bytes,
          signature_of m mac (hmac_sha256 secret (signing_input whole)) digest bytes,
          same_self (hmac_sha256 secret (signing_input whole)),
          decoded-encoded b payload hp,
        )
        refl
