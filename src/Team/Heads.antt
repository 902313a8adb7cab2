-- ===== src/Team/Heads.antt =====
-- Which nodes own a project, and how the changes of the authority routes of main.py keep track of
-- the one in charge.
use dduo_solo_founder.Prelude.{
  ◌≡◌, refl, sym, ◌∙◌, ap, subst, ◌⊎◌, inl, inr, true, false, Option, none, some, List, ◌==◌, In,
  here, there, Bool-cases, arith,
}
use dduo_solo_founder.Work.Store.{RowId, truthy}
use dduo_solo_founder.Team.Authority.{is_transferred, AuthorityRow}
use dduo_solo_founder.Team.Requests.{
  answered, destination_ready, source_finalized, AuthorityReceipt,
}
use dduo_solo_founder.Team.Nodes.{System, put_database, add_receipt, IsOwn}
use dduo_solo_founder.Team.Effects.{final_receipt, IsNotFinal}

-- a node that owns its database and was not retired
pub record IsHead (s : System) (i : RowId) : Type 0 where
  pub row : AuthorityRow
  pub stored : s.databases i ≡ some row
  pub own : IsOwn i row
  pub live : is_transferred row.authority_state ≡ false

pub record OwnsAt (s : System) (i : RowId) : Type 0 where
  pub row : AuthorityRow
  pub stored : s.databases i ≡ some row
  pub own : IsOwn i row

abbrev pub NoHead : System → Type 0
NoHead s = (i : RowId) → IsHead s i → ⊥

abbrev pub IsFinal : System → AuthorityReceipt → Type 0
IsFinal s r = In r s.receipts × (r.kind ≡ source_finalized)

pub record HasOneHead (s : System) : Type 0 where
  -- every database has an owner
  pub owners :
      (i : RowId) (row : AuthorityRow)
      → s.databases i ≡ some row
      → truthy row.authority_node_id ≡ true
  pub one : (i j : RowId) → IsHead s i → IsHead s j → i ≡ j
  -- a transfer that was finalized has its target in charge, or nobody
  pub ended : (r : AuthorityReceipt) → IsFinal s r → OwnsAt s r.target_node_id ⊎ NoHead s
  -- at most one finalized transfer waits for its target
  pub same_target :
      (a b : AuthorityReceipt)
      → IsFinal s a
      → IsFinal s b
      → OwnsAt s a.target_node_id
        ⊎ OwnsAt s b.target_node_id
        ⊎ (a.target_node_id ≡ b.target_node_id)
  -- a retired node has answered the receipt of its transfer
  pub retired :
      (i : RowId) (row : AuthorityRow)
      → s.databases i ≡ some row
      → IsOwn i row
      → is_transferred row.authority_state ≡ true
      → (r : AuthorityReceipt) × (final_receipt row ≡ answered r) × In r s.receipts

pub some-eq : {A : Type 0} {x y : A} → some x ≡ some y → x ≡ y
some-eq h = cc

pub put_cases :
    (i : RowId) (row : AuthorityRow) (db : RowId → Option AuthorityRow) (j : RowId)
    {x : AuthorityRow}
    → put_database i row db j ≡ some x
    → ((j ≡ i) × (row ≡ x)) ⊎ (((j == i) ≡ false) × (db j ≡ some x))
put_cases i row db j h = elim (Bool-cases (j == i)) [
  | inl t ↦ let e : j ≡ i = ground arith in inl (e, some-eq (rw t at h))
  | inr t ↦ inr (t, rw t at h)
]

pub put_here :
    (i : RowId) (row : AuthorityRow) (db : RowId → Option AuthorityRow)
    → put_database i row db i ≡ some row
put_here i row db = let t : (i == i) ≡ true = ground arith in rw t refl

pub put_there :
    (i : RowId) (row : AuthorityRow) (db : RowId → Option AuthorityRow) (j : RowId)
    → (j == i) ≡ false
    → put_database i row db j ≡ db j
put_there i row db j t = rw t refl

-- a step that keeps the owners and makes no head
pub record Grows (s t : System) : Type 0 where
  pub owned : (k : RowId) → OwnsAt s k → OwnsAt t k
  pub heads : (j : RowId) → IsHead t j → IsHead s j

pub ended_on :
    {s t : System} → Grows s t → (k : RowId) → OwnsAt s k ⊎ NoHead s → OwnsAt t k ⊎ NoHead t
ended_on g k (inl o) = inl (g.owned k o)
ended_on g k (inr n) = inr (λ j h. n j (g.heads j h))

pub same_on :
    {s t : System} {A : Type 0}
    → ((k : RowId) → OwnsAt s k → OwnsAt t k)
    → (j k : RowId) → OwnsAt s j ⊎ OwnsAt s k ⊎ A
    → OwnsAt t j ⊎ OwnsAt t k ⊎ A
same_on g j k (inl o) = inl (g j o)
same_on g j k (inr (inl o)) = inr (inl (g k o))
same_on g j k (inr (inr e)) = inr (inr e)

kinds_differ : destination_ready ≡ source_finalized → ⊥
kinds_differ h = cc

pub old_receipt :
    (issued : Option AuthorityReceipt) (receipts : List AuthorityReceipt) {r : AuthorityReceipt}
    → IsNotFinal issued
    → In r (add_receipt issued receipts)
    → r.kind ≡ source_finalized
    → In r receipts
old_receipt none receipts n i k = i
old_receipt (some x) receipts n (here e) k =
    absurd (kinds_differ (sym n ∙ ap (λ z. z.kind) (sym e) ∙ k))
old_receipt (some x) receipts n (there i) k = i

pub more_receipts :
    (issued : Option AuthorityReceipt) {receipts : List AuthorityReceipt} {r : AuthorityReceipt}
    → In r receipts
    → In r (add_receipt issued receipts)
more_receipts none i = i
more_receipts (some x) i = there i

module _ (s : System) (c : HasOneHead s) (i : RowId) where
  -- the system after a change at node `i`
  abbrev pub after : AuthorityRow → List AuthorityReceipt → System
  after next receipts = record { databases = put_database i next s.databases; receipts = receipts }

  pub owners_after :
      (next : AuthorityRow)
      → truthy next.authority_node_id ≡ true
      → (j : RowId) (x : AuthorityRow) → put_database i next s.databases j ≡ some x
      → truthy x.authority_node_id ≡ true
  owners_after next t j x h = elim (put_cases i next s.databases j h) [
    | inl (e, q) ↦ subst (λ z. truthy z.authority_node_id ≡ true) q t
    | inr (n, q) ↦ c.owners j x q
  ]

  -- what is kept where the database of the node keeps its owner
  module _ (row next : AuthorityRow) (receipts : List AuthorityReceipt)
      (at : s.databases i ≡ some row) (same : next.authority_node_id ≡ row.authority_node_id)
      (alive : is_transferred next.authority_state ≡ false
        → is_transferred row.authority_state ≡ false) where
    pub owned_after : (k : RowId) → OwnsAt s k → OwnsAt (after next receipts) k
    owned_after k o = elim (Bool-cases (k == i)) [
      | inl t ↦
          let e : k ≡ i = ground arith in
          let q : o.row ≡ row = some-eq (sym o.stored ∙ ap s.databases e ∙ at) in
          record {
            row = next;
            stored = ap (put_database i next s.databases) e ∙ put_here i next s.databases;
            own = same ∙ ap (λ z. z.authority_node_id) (sym q) ∙ o.own;
          }
      | inr t ↦ record {
        row = o.row;
        stored = put_there i next s.databases k t ∙ o.stored;
        own = o.own;
      }
    ]

    pub IsHead-before : (j : RowId) → IsHead (after next receipts) j → IsHead s j
    IsHead-before j h = elim (put_cases i next s.databases j h.stored) [
      | inl (e, q) ↦ record {
        row = row;
        stored = ap s.databases e ∙ at;
        own = sym same ∙ ap (λ z. z.authority_node_id) q ∙ h.own;
        live = alive (ap (λ z. is_transferred z.authority_state) q ∙ h.live);
      }
      | inr (n, q) ↦ record { row = h.row; stored = q; own = h.own; live = h.live }
    ]

    pub grows : Grows s (after next receipts)
    grows = record { owned = owned_after; heads = IsHead-before }
