-- ===== src/Memory/Found.antt =====
-- What the queries of memory_engine.py find: an active memory of the project, or no memory with the
-- key.
use dduo_solo_founder.Prelude.{
  Bool, true, ◌&&◌, List, [], ◌∷◌, Option, none, some, ◌≡◌, ◌≢◌, refl, sym, subst, ◌∙◌, arith,
  if◌then◌else◌, In, here, there, inl, inr, ltb, find_row, select-In, find_row-In, In-select,
  Bool-cases, Option-cases, ◌⊎◌,
}
use dduo_solo_founder.Prelude.Options.{>>=-eq-some, some-eq-some, if-eq-some}
use dduo_solo_founder.Prelude.Equality.{same, same→eq, same_self, list_eq, nat_eq}
use dduo_solo_founder.Context.Text.{Text}
use dduo_solo_founder.Memory.Keys.{normalize_node_key}
use dduo_solo_founder.Memory.Store.{
  NodeType, episode, reusable_fact, heuristic, is_active, Memory, MemoryActionPayload,
}
use dduo_solo_founder.Memory.Targets.{
  same_type, latest, has_key, current_by_key, has_id, current_in_group, current_of_source,
  first_source, reads_sources, target_for_action,
}

pub and-eq-true : (a b : Bool) → (a && b) ≡ true → (a ≡ true) × (b ≡ true)
and-eq-true a b h = (ground arith, ground arith)

all_three : (a b c : Bool) → (a && b && c) ≡ true → (a ≡ true) × (b ≡ true) × (c ≡ true)
all_three a b c h = (ground arith, ground arith, ground arith)

all_four :
    (a b c d : Bool) → (a && b && c && d) ≡ true → (a ≡ true) × (b ≡ true) × (c ≡ true) × (d ≡ true)
all_four a b c d h = (ground arith, ground arith, ground arith, ground arith)

same_type→eq : (a b : NodeType) → same_type a b ≡ true → a ≡ b
same_type→eq episode episode h = refl
same_type→eq reusable_fact reusable_fact h = refl
same_type→eq heuristic heuristic h = refl
same_type→eq episode reusable_fact h = cc
same_type→eq episode heuristic h = cc
same_type→eq reusable_fact episode h = cc
same_type→eq reusable_fact heuristic h = cc
same_type→eq heuristic episode h = cc
same_type→eq heuristic reusable_fact h = cc

same_type_self : (a : NodeType) → same_type a a ≡ true
same_type_self episode = refl
same_type_self reusable_fact = refl
same_type_self heuristic = refl

-- the later of a row and the latest of the others
newer :
    (n : Memory) (other : Option Memory) {m : Memory}
    → (elim other [ none ↦ some n | some k ↦ if ltb n.revision k.revision then some k else some n ])
      ≡ some m
    → (n ≡ m) ⊎ (other ≡ some m)
newer n none h = inl (some-eq-some h)
newer n (some k) h = elim (if-eq-some (ltb n.revision k.revision) (some k) (some n) h) [
  | inl (t, e) ↦ inr e
  | inr (t, e) ↦ inl (some-eq-some e)
]

never_none :
    (n : Memory) (other : Option Memory)
    → (elim other [ none ↦ some n | some k ↦ if ltb n.revision k.revision then some k else some n ])
      ≢ none
never_none n none h = cc
never_none n (some k) h = elim (Bool-cases (ltb n.revision k.revision)) [
  | inl t ↦ some_not_none (subst (λ b. (if b then some k else some n) ≡ none) t h)
  | inr t ↦ some_not_none (subst (λ b. (if b then some k else some n) ≡ none) t h)
]
  where
    some_not_none : {x : Memory} → some x ≢ none
    some_not_none e = cc

latest-In : (ms : List Memory) {m : Memory} → latest ms ≡ some m → In m ms
unfolding latest
latest-In [] h = cc
latest-In (n ∷ ms) {m} h = elim (newer n (latest ms) h) [
  | inl e ↦ here (sym e)
  | inr e ↦ there (latest-In ms e)
]

latest-none : (ms : List Memory) → latest ms ≡ none → ms ≡ []
unfolding latest
latest-none [] h = refl
latest-none (n ∷ ms) h = absurd (never_none n (latest ms) h)

-- an active memory of the project
pub record IsTarget (project : Text) (ms : List Memory) (m : Memory) : Type 0 where
  pub stored : In m ms
  pub current : is_active m.status ≡ true
  pub owned : m.project_id ≡ project

current_by_key-IsTarget :
    (project : Text) (t : NodeType) (key : Text) (ms : List Memory) {m : Memory}
    → current_by_key project t key ms ≡ some m
    → IsTarget project ms m
unfolding current_by_key
current_by_key-IsTarget project t key ms {m} h =
    let (i, q) = select-In (has_key project t key) ms (latest-In _ h) in
    let (p, _, _, a) =
      all_four (same m.project_id project) (same_type m.node_type t) (same m.node_key key)
        (is_active m.status) q in
    record { stored = i; current = a; owned = same→eq m.project_id project p }

-- No active memory has a key that the query does not find.
pub current_by_key-none :
    (project : Text) (t : NodeType) (key : Text) (ms : List Memory)
    → current_by_key project t key ms ≡ none
    → (m : Memory) → In m ms
    → is_active m.status ≡ true
    → m.project_id ≡ project
    → m.node_type ≡ t
    → m.node_key ≢ key
unfolding current_by_key
current_by_key-none project t key ms h m i a p q k =
    let test : has_key project t key m ≡ true =
      conjunction (subst (λ z. same m.project_id z ≡ true) p (same_self m.project_id))
        (subst (λ z. same_type m.node_type z ≡ true) q (same_type_self m.node_type))
        (subst (λ z. same m.node_key z ≡ true) k (same_self m.node_key)) a in
    elim (subst (In m) (latest-none _ h) (In-select (has_key project t key) ms i test)) [ ]
  where
    conjunction :
        {a b c d : Bool} → a ≡ true → b ≡ true → c ≡ true → d ≡ true → (a && b && c && d) ≡ true
    conjunction ha hb hc hd = ground arith

current_of_source-IsTarget :
    (project : Text) (ms : List Memory) (i : Text) {m : Memory}
    → current_of_source project ms i ≡ some m
    → IsTarget project ms m
unfolding current_of_source
current_of_source-IsTarget project ms i {m} h =
    let (source, found, h1) = >>=-eq-some (find_row (has_id project i) ms) _ h in
    let (stored, q) = find_row-In (has_id project i) ms found in
    elim (if-eq-some (is_active source.status) _ _ h1) [
      | inl (a, e) ↦
          let (_, p) = and-eq-true (same source.id i) (same source.project_id project) q in
          subst (IsTarget project ms) (some-eq-some e)
            (record { stored = stored; current = a; owned = same→eq source.project_id project p })
      | inr (a, e) ↦
          let (j, r) =
            select-In (current_in_group project source.memory_group_id) ms (latest-In _ e) in
          let (p, _, current) =
            all_three (same m.project_id project) (same m.memory_group_id source.memory_group_id)
              (is_active m.status) r in
          record { stored = j; current = current; owned = same→eq m.project_id project p }
    ]

first_source-IsTarget :
    (project : Text) (ms : List Memory) (is : List Text) {m : Memory}
    → first_source project ms is ≡ some m
    → IsTarget project ms m
unfolding first_source
first_source-IsTarget project ms [] h = cc
first_source-IsTarget project ms (i ∷ is) {m} h =
    elim (Option-cases (current_of_source project ms i)) [
      | inl e ↦ first_source-IsTarget project ms is (
          subst (λ o. (elim o [ some k ↦ some k | none ↦ first_source project ms is ]) ≡ some m) e
            h)
      | inr (k, e) ↦
          let same_memory : some k ≡ some m =
            subst (λ o. (elim o [ some k ↦ some k | none ↦ first_source project ms is ]) ≡ some m) e
              h in
          current_of_source-IsTarget project ms i (e ∙ same_memory)
    ]

-- the target that the sources name, or the one that the key finds
named_or_current :
    (named : Option Memory) (rest : Option (Option Memory)) {o : Option Memory}
    → (elim named [ some m ↦ some (some m) | none ↦ rest ]) ≡ some o
    → ((m : Memory) × (named ≡ some m) × (some m ≡ o)) ⊎ (rest ≡ some o)
named_or_current none rest h = inr h
named_or_current (some m) rest h = inl (m, refl, some-eq-some h)

IsTarget-cases :
    (project : Text) (a : MemoryActionPayload) (ms : List Memory) {o : Option Memory}
    → target_for_action project a ms ≡ some o
    → ((m : Memory) × IsTarget project ms m × (some m ≡ o))
      ⊎ ((key : Text) × (normalize_node_key a.target_node_key ≡ some key)
          × (current_by_key project a.target_node_type key ms ≡ o))
unfolding target_for_action
IsTarget-cases project a ms {o} h =
    elim (named_or_current
      (if reads_sources a.action then first_source project ms a.source_node_ids else none) _ h) [
        | inl (m, named, e) ↦
            elim (if-eq-some (reads_sources a.action) (first_source project ms a.source_node_ids)
              none named) [
                | inl (t, f) ↦ inl (m, first_source-IsTarget project ms a.source_node_ids f, e)
                | inr (t, f) ↦ cc
              ]
        | inr g ↦
            let (key, k, g1) = >>=-eq-some (normalize_node_key a.target_node_key) _ g in
            inr (key, k, some-eq-some g1)
      ]

pub target_for_action-IsTarget :
    (project : Text) (a : MemoryActionPayload) (ms : List Memory) {m : Memory}
    → target_for_action project a ms ≡ some (some m)
    → IsTarget project ms m
target_for_action-IsTarget project a ms h = elim (IsTarget-cases project a ms h) [
  | inl (k, t, e) ↦ subst (IsTarget project ms) (some-eq-some e) t
  | inr (key, n, e) ↦ current_by_key-IsTarget project a.target_node_type key ms e
]

pub target_for_action-none :
    (project : Text) (a : MemoryActionPayload) (ms : List Memory)
    → target_for_action project a ms ≡ some none
    → (key : Text) × (normalize_node_key a.target_node_key ≡ some key)
      × (current_by_key project a.target_node_type key ms ≡ none)
target_for_action-none project a ms h = elim (IsTarget-cases project a ms h) [
  | inl (k, t, e) ↦ cc
  | inr found ↦ found
]
