-- ===== src/Memory/Chain.antt =====
-- The revision chains of the memories: what every operation of memory_engine.py keeps.
use dduo_solo_founder.Prelude.{
  ◌+◌, ◌≤◌, ◌<◌, true, false, List, [], ◌∷◌, ◌++◌, some, map, ◌≡◌, ◌≢◌, sym, ap, ◌∙◌, arith, In,
  In-map, map-In, In-last, In-append_left, inl, inr,
}
use dduo_solo_founder.Context.Text.{Text}
use dduo_solo_founder.Memory.Store.{is_active, Memory}

pub record IsChain (ms : List Memory) : Type 0 where
  -- an id names one row
  pub unique : (a b : Memory) → In a ms → In b ms → a.id ≡ b.id → a ≡ b
  -- a project has at most one active memory of a type and key
  pub one_current :
      (a b : Memory)
      → In a ms
      → In b ms
      → is_active a.status ≡ true
      → is_active b.status ≡ true
      → a.project_id ≡ b.project_id
      → a.node_type ≡ b.node_type
      → a.node_key ≡ b.node_key
      → a.id ≡ b.id
  -- the revisions of a group are of one project, type and key
  pub grouped :
      (a b : Memory)
      → In a ms
      → In b ms
      → a.memory_group_id ≡ b.memory_group_id
      → (a.project_id ≡ b.project_id) × (a.node_type ≡ b.node_type) × (a.node_key ≡ b.node_key)
  -- the constraint `uq_memory_group_revision`
  pub numbered :
      (a b : Memory)
      → In a ms
      → In b ms
      → a.memory_group_id ≡ b.memory_group_id
      → a.revision ≡ b.revision
      → a.id ≡ b.id
  -- an active memory is the last revision of its group
  pub newest :
      (a b : Memory)
      → In a ms
      → In b ms
      → is_active a.status ≡ true
      → a.memory_group_id ≡ b.memory_group_id
      → b.revision ≤ a.revision
  -- a memory that supersedes one is the next revision of that one's group
  pub linked :
      (a : Memory) (i : Text)
      → In a ms
      → a.supersedes_id ≡ some i
      → (b : Memory) × In b ms
        × (b.id ≡ i)
        × (b.memory_group_id ≡ a.memory_group_id)
        × (a.revision ≡ b.revision + 1)

-- what a change in place leaves alone
pub record IsFrame (a b : Memory) : Type 0 where
  pub same_id : b.id ≡ a.id
  pub same_project : b.project_id ≡ a.project_id
  pub same_node_type : b.node_type ≡ a.node_type
  pub same_key : b.node_key ≡ a.node_key
  pub same_group : b.memory_group_id ≡ a.memory_group_id
  pub same_revision : b.revision ≡ a.revision
  pub same_supersedes : b.supersedes_id ≡ a.supersedes_id
  pub not_revived : is_active b.status ≡ true → is_active a.status ≡ true

pub true≢false : true ≢ false
true≢false e = cc

pub map-IsChain :
    {ms : List Memory} (g : Memory → Memory)
    → ((a : Memory) → In a ms → IsFrame a (g a))
    → IsChain ms
    → IsChain (map g ms)
map-IsChain {ms} g frame c = record {
  unique = λ x y hx hy e.
      let (a, ia, ea) = In-map g ms hx in
      let (b, ib, eb) = In-map g ms hy in
      let f = frame a ia in
      let k = frame b ib in
      let ids : a.id ≡ b.id = cc (ea, eb, e, f.same_id, k.same_id) in
      ea ∙ ap g (c.unique a b ia ib ids) ∙ sym eb;
  one_current = λ x y hx hy ax ay p t n.
      let (a, ia, ea) = In-map g ms hx in
      let (b, ib, eb) = In-map g ms hy in
      let f = frame a ia in
      let k = frame b ib in
      let fa = f.not_revived (cc (ea, ax)) in
      let fb = k.not_revived (cc (eb, ay)) in
      let ids =
        c.one_current a b ia ib fa fb (cc (ea, eb, p, f.same_project, k.same_project))
          (cc (ea, eb, t, f.same_node_type, k.same_node_type))
          (cc (ea, eb, n, f.same_key, k.same_key)) in
      cc (ids, ea, eb, f.same_id, k.same_id);
  grouped = λ x y hx hy e.
      let (a, ia, ea) = In-map g ms hx in
      let (b, ib, eb) = In-map g ms hy in
      let f = frame a ia in
      let k = frame b ib in
      let (p, t, n) = c.grouped a b ia ib (cc (ea, eb, e, f.same_group, k.same_group)) in
      (
        cc (p, ea, eb, f.same_project, k.same_project),
        cc (t, ea, eb, f.same_node_type, k.same_node_type),
        cc (n, ea, eb, f.same_key, k.same_key),
      );
  numbered = λ x y hx hy e r.
      let (a, ia, ea) = In-map g ms hx in
      let (b, ib, eb) = In-map g ms hy in
      let f = frame a ia in
      let k = frame b ib in
      let ids =
        c.numbered a b ia ib (cc (ea, eb, e, f.same_group, k.same_group))
          (cc (ea, eb, r, f.same_revision, k.same_revision)) in
      cc (ids, ea, eb, f.same_id, k.same_id);
  newest = λ x y hx hy ax e.
      let (a, ia, ea) = In-map g ms hx in
      let (b, ib, eb) = In-map g ms hy in
      let f = frame a ia in
      let k = frame b ib in
      let le =
        c.newest a b ia ib (f.not_revived (cc (ea, ax)))
          (cc (ea, eb, e, f.same_group, k.same_group)) in
      let ra : x.revision ≡ a.revision = cc (ea, f.same_revision) in
      let rb : y.revision ≡ b.revision = cc (eb, k.same_revision) in omega (arith, le, ra, rb);
  linked = λ x i hx e.
      let (a, ia, ea) = In-map g ms hx in
      let f = frame a ia in
      let (b, ib, ei, eg, er) = c.linked a i ia (cc (ea, e, f.same_supersedes)) in
      let k = frame b ib in
      let ra : x.revision ≡ a.revision = cc (ea, f.same_revision) in
      (
        g b,
        map-In g ms ib,
        cc (ei, k.same_id),
        cc (eg, ea, f.same_group, k.same_group),
        omega (arith, ra, er, k.same_revision),
      );
}

-- a new row that continues a group, or begins one
pub record IsNext (ms : List Memory) (m : Memory) : Type 0 where
  pub fresh : (a : Memory) → In a ms → a.id ≢ m.id
  pub current :
      (a : Memory)
      → In a ms
      → is_active a.status ≡ true
      → a.project_id ≡ m.project_id
      → a.node_type ≡ m.node_type
      → a.node_key ≢ m.node_key
  pub extends :
      (a : Memory)
      → In a ms
      → a.memory_group_id ≡ m.memory_group_id
      → (a.project_id ≡ m.project_id)
        × (a.node_type ≡ m.node_type)
        × (a.node_key ≡ m.node_key)
        × (a.revision < m.revision)
        × (is_active a.status ≡ false)
  pub supersedes :
      (i : Text)
      → m.supersedes_id ≡ some i
      → (b : Memory) × In b ms
        × (b.id ≡ i)
        × (b.memory_group_id ≡ m.memory_group_id)
        × (m.revision ≡ b.revision + 1)

pub append-IsChain :
    {ms : List Memory} {m : Memory} → IsChain ms → IsNext ms m → IsChain (ms ++ m ∷ [])
append-IsChain {ms} {m} c n = record {
  unique = λ a b ha hb e. elim (In-last ms ha) [
    | inl ia ↦ elim (In-last ms hb) [
      | inl ib ↦ c.unique a b ia ib e
      | inr eb ↦ absurd (n.fresh a ia (cc (e, eb)))
    ]
    | inr ea ↦ elim (In-last ms hb) [
      | inl ib ↦ absurd (n.fresh b ib (cc (e, ea)))
      | inr eb ↦ ea ∙ sym eb
    ]
  ];
  one_current = λ a b ha hb sa sb p t k. elim (In-last ms ha) [
    | inl ia ↦ elim (In-last ms hb) [
      | inl ib ↦ c.one_current a b ia ib sa sb p t k
      | inr eb ↦ absurd (n.current a ia sa (cc (p, eb)) (cc (t, eb)) (cc (k, eb)))
    ]
    | inr ea ↦ elim (In-last ms hb) [
      | inl ib ↦ absurd (n.current b ib sb (cc (p, ea)) (cc (t, ea)) (cc (k, ea)))
      | inr eb ↦ cc (ea, eb)
    ]
  ];
  grouped = λ a b ha hb e. elim (In-last ms ha) [
    | inl ia ↦ elim (In-last ms hb) [
      | inl ib ↦ c.grouped a b ia ib e
      | inr eb ↦
          let (p, t, k, r, s) = n.extends a ia (cc (e, eb)) in (cc (p, eb), cc (t, eb), cc (k, eb))
    ]
    | inr ea ↦ elim (In-last ms hb) [
      | inl ib ↦
          let (p, t, k, r, s) = n.extends b ib (cc (e, ea)) in (cc (p, ea), cc (t, ea), cc (k, ea))
      | inr eb ↦ (cc (ea, eb), cc (ea, eb), cc (ea, eb))
    ]
  ];
  numbered = λ a b ha hb e q. elim (In-last ms ha) [
    | inl ia ↦ elim (In-last ms hb) [
      | inl ib ↦ c.numbered a b ia ib e q
      | inr eb ↦
          let (p, t, k, r, s) = n.extends a ia (cc (e, eb)) in
          absurd (omega (arith, r, q, ap (λ z. z.revision) eb))
    ]
    | inr ea ↦ elim (In-last ms hb) [
      | inl ib ↦
          let (p, t, k, r, s) = n.extends b ib (cc (e, ea)) in
          absurd (omega (arith, r, q, ap (λ z. z.revision) ea))
      | inr eb ↦ cc (ea, eb)
    ]
  ];
  newest = λ a b ha hb s e. elim (In-last ms ha) [
    | inl ia ↦ elim (In-last ms hb) [
      | inl ib ↦ c.newest a b ia ib s e
      | inr eb ↦
          let (p, t, k, r, off) = n.extends a ia (cc (e, eb)) in absurd (true≢false (sym s ∙ off))
    ]
    | inr ea ↦ elim (In-last ms hb) [
      | inl ib ↦
          let (p, t, k, r, off) = n.extends b ib (cc (e, ea)) in
          omega (arith, r, ap (λ z. z.revision) ea)
      | inr eb ↦ omega (arith, ap (λ z. z.revision) ea, ap (λ z. z.revision) eb)
    ]
  ];
  linked = λ a i ha e. elim (In-last ms ha) [
    | inl ia ↦
        let (b, ib, ei, eg, er) = c.linked a i ia e in (b, In-append_left ms _ ib, ei, eg, er)
    | inr ea ↦
        let (b, ib, ei, eg, er) = n.supersedes i (cc (e, ea)) in
        (b, In-append_left ms _ ib, ei, cc (eg, ea), omega (arith, er, ap (λ z. z.revision) ea))
  ];
}
