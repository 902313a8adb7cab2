-- ===== src/Index/Attempts.antt =====
-- What one call of `process_one` of outbox.py does to the events.
use dduo_solo_founder.Prelude.{
  ℕ, ◌≡◌, refl, sym, subst, ◌⊎◌, inl, inr, Bool, true, false, ◌&&◌, Option, none, some, List, [],
  ◌∷◌, leb, select, find_row, In, here, there, select-In, In-select, Bool-cases, arith,
}
use dduo_solo_founder.Context.Text.{Text}
use dduo_solo_founder.Work.Store.{RowId}
use dduo_solo_founder.Team.Authority.{
  AuthorityRow, project_authority_predicate, project_authority_writable, predicate_writable,
}
use dduo_solo_founder.Index.Events.{
  OutboxEvent, OutboxDb, is_open, is_project_row, test_row, is_ready, first_event, comes_first,
  earlier,
}
use dduo_solo_founder.Index.Projection.{CallOutcome, VectorStore}
use dduo_solo_founder.Index.Outbox.{
  deliver_event, settle, process_claimed, process_found, process_one,
}

comes_first_self : (e : OutboxEvent) → comes_first e e ≡ true
comes_first_self e = ground arith

comes_first_total : (a b : OutboxEvent) → comes_first a b ≡ false → comes_first b a ≡ true
comes_first_total a b h = ground arith

comes_first_trans :
    (a b c : OutboxEvent) → comes_first a b ≡ true → comes_first b c ≡ true → comes_first a c ≡ true
comes_first_trans a b c h k = ground arith

-- the event is one of the list and none comes before it
abbrev pub IsFirst : List OutboxEvent → OutboxEvent → Type 0
IsFirst events e = In e events × ((x : OutboxEvent) → In x events → comes_first e x ≡ true)

earlier-IsFirst :
    (x : OutboxEvent) (xs : List OutboxEvent) (rest : Option OutboxEvent)
    → ((b : OutboxEvent) → rest ≡ some b → IsFirst xs b)
    → (rest ≡ none → xs ≡ [])
    → IsFirst (x ∷ xs) (earlier x rest)
earlier-IsFirst x xs none first empty = (
  here refl,
  λ y i. elim i [
    | here e ↦ subst (λ z. comes_first x z ≡ true) (sym e) (comes_first_self x)
    | there j ↦ elim (subst (In y) (empty refl) j) [ ]
  ],
)
earlier-IsFirst x xs (some b) first empty =
    let (at, least) = first b refl in
    elim (Bool-cases (comes_first x b)) [
      | inl t ↦ rw t (
        here refl,
        λ y i. elim i [
          | here e ↦ subst (λ z. comes_first x z ≡ true) (sym e) (comes_first_self x)
          | there j ↦ comes_first_trans x b y t (least y j)
        ],
      )
      | inr t ↦ rw t (
        there at,
        λ y i. elim i [
          | here e ↦ subst (λ z. comes_first b z ≡ true) (sym e) (comes_first_total x b t)
          | there j ↦ least y j
        ],
      )
    ]

some-eq : {x y : OutboxEvent} → some x ≡ some y → x ≡ y
some-eq h = cc

first_event-none : (events : List OutboxEvent) → first_event events ≡ none → events ≡ []
unfolding first_event
first_event-none [] h = refl
first_event-none (x ∷ xs) h = cc

first_event-IsFirst :
    (events : List OutboxEvent) (e : OutboxEvent) → first_event events ≡ some e → IsFirst events e
unfolding first_event
first_event-IsFirst [] e h = cc
first_event-IsFirst (x ∷ xs) e h =
    subst (IsFirst (x ∷ xs)) (some-eq h)
      (earlier-IsFirst x xs (first_event xs) (first_event-IsFirst xs) (first_event-none xs))

may_write_ready :
    (found : Option AuthorityRow) (node : RowId)
    → test_row (project_authority_predicate node) found ≡ true
    → test_row (project_authority_writable node) found ≡ true
may_write_ready none node h = cc
may_write_ready (some row) node h = predicate_writable node row h

third_true : (a b c : Bool) → (a && b && c) ≡ true → c ≡ true
third_true a b c h = ground arith

module _ {World Vector : Type 0} (store : VectorStore World Vector)
    (write_memory : World → RowId → RowId → Vector → World × Bool) (casefold : Text → Text)
    (hashed : List ℕ → ℕ) (max_characters max_utf8_bytes : ℕ) (now later : ℕ) (node : RowId)
    (db : OutboxDb) (w : World) where
  abbrev ready : OutboxEvent → Bool
  ready e = is_ready now node db.projects e

  abbrev delivered : OutboxEvent → World × CallOutcome ℕ
  delivered e =
      deliver_event store write_memory casefold hashed max_characters max_utf8_bytes db.tasks w e

  abbrev settled : OutboxEvent → OutboxDb
  settled e =
      settle store write_memory casefold hashed max_characters max_utf8_bytes later db e
        (delivered e).1

  -- one attempt, on the first of the ready events
  pub record IsAttempt (after : Bool × OutboxDb × World) : Type 0 where
    pub event : OutboxEvent
    pub stored : In event db.events
    pub was_ready : ready event ≡ true
    pub least : (x : OutboxEvent) → In x db.events → ready x ≡ true → comes_first event x ≡ true
    pub result : after ≡ (true, settled event, (delivered event).0)

  abbrev run : Bool × OutboxDb × World
  run =
      process_one store write_memory casefold hashed max_characters max_utf8_bytes now later node
        db.projects db w

  abbrev process : Option OutboxEvent → Bool × OutboxDb × World
  process found =
      process_found store write_memory casefold hashed max_characters max_utf8_bytes later node
        db.projects db w found

  claimed_result :
      (e : OutboxEvent) → ready e ≡ true → process (some e) ≡ (true, settled e, (delivered e).0)
  unfolding process_claimed is_ready
  claimed_result e h =
      let t =
        may_write_ready (find_row (is_project_row e.project_id) db.projects) node
          (third_true (is_open e.status) (leb e.next_attempt_at now) _ h) in
      rw t refl

  by_first :
      (found : Option OutboxEvent)
      → first_event (select ready db.events) ≡ found
      → ((process found ≡ (false, db, w)) × ((x : OutboxEvent) → In x db.events → ready x ≡ false))
        ⊎ IsAttempt (process found)
  by_first none h =
      let empty = first_event-none (select ready db.events) h in
      inl (
        refl,
        λ x i. elim (Bool-cases (ready x)) [
          | inl t ↦ elim (subst (In x) empty (In-select ready db.events i t)) [ ]
          | inr t ↦ t
        ],
      )
  by_first (some e) h =
      let (at, least) = first_event-IsFirst (select ready db.events) e h in
      let (stored, t) = select-In ready db.events at in
      inr (record {
        event = e;
        stored = stored;
        was_ready = t;
        least = λ x i tx. least x (In-select ready db.events i tx);
        result = claimed_result e t;
      })

  pub process_one-IsAttempt :
      ((run ≡ (false, db, w)) × ((x : OutboxEvent) → In x db.events → ready x ≡ false))
      ⊎ IsAttempt run
  unfolding process_one
  process_one-IsAttempt = by_first (first_event (select ready db.events)) refl
