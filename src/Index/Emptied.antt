-- ===== src/Index/Emptied.antt =====
-- A worker that calls `process_one` of outbox.py until it finds nothing empties a queue whose
-- deliveries succeed.
use dduo_solo_founder.Prelude.{
  ℕ, zero, suc, ◌+◌, ◌≤◌, ◌<◌, ◌≡◌, refl, sym, ◌∙◌, ap, subst, inl, inr, Bool, true, false, List,
  [], ◌∷◌, map, map-In, if◌then◌else◌, update_rows, In, here, there, Bool-cases, arith,
}
use dduo_solo_founder.Context.Text.{Text}
use dduo_solo_founder.Work.Store.{RowId, Task}
use dduo_solo_founder.Index.Events.{OutboxEvent, OutboxDb, is_open, is_event, is_ready}
use dduo_solo_founder.Index.Projection.{VectorStore}
use dduo_solo_founder.Index.Outbox.{
  claimed_attempt, finish, succeeded, deliver_event, settle, process_one,
}
use dduo_solo_founder.Index.Attempts.{IsAttempt, process_one-IsAttempt}
use dduo_solo_founder.Index.Drained.{content, process_one_keeps}

-- the events that wait for an attempt
abbrev pub open_count : List OutboxEvent → ℕ
open_count [] = 0
open_count (e ∷ es) = (if is_open e.status then 1 else 0) + open_count es

abbrev attempted_row : ℕ → RowId → Bool → OutboxEvent → OutboxEvent
attempted_row later i s e = if is_event i e then finish later s (claimed_attempt e) else e

open_not_more :
    (later : ℕ) (i : RowId) (events : List OutboxEvent)
    → open_count (map (attempted_row later i true) events) ≤ open_count events
open_not_more later i [] = omega arith
open_not_more later i (e ∷ es) = elim (Bool-cases (is_event i e)) [
  | inl t ↦ rw t (ground (arith, open_not_more later i es))
  | inr t ↦ rw t (omega (arith, open_not_more later i es))
]

open_fewer :
    (later : ℕ) (i : RowId) (events : List OutboxEvent) {e : OutboxEvent}
    → In e events
    → is_open e.status ≡ true
    → is_event i e ≡ true
    → open_count (map (attempted_row later i true) events) < open_count events
open_fewer later i [] h o t = elim h [ ]
open_fewer later i (x ∷ xs) (here q) o t =
    let t1 : is_event i x ≡ true = subst (λ z. is_event i z ≡ true) q t in
    let o1 : is_open x.status ≡ true = subst (λ z. is_open z.status ≡ true) q o in
    rw (t1, o1) (omega (arith, open_not_more later i xs))
open_fewer later i (x ∷ xs) (there h) o t = elim (Bool-cases (is_event i x)) [
  | inl u ↦ rw u (ground (arith, open_fewer later i xs h o t))
  | inr u ↦ rw u (omega (arith, open_fewer later i xs h o t))
]

module _ {World Vector : Type 0} (store : VectorStore World Vector)
    (write_memory : World → RowId → RowId → Vector → World × Bool) (casefold : Text → Text)
    (hashed : List ℕ → ℕ) (max_characters max_utf8_bytes : ℕ) (now later : ℕ) (node : RowId) where
  abbrev call : OutboxDb → World → Bool × OutboxDb × World
  call db w =
      process_one store write_memory casefold hashed max_characters max_utf8_bytes now later node
        db.projects db w

  abbrev succeeds : List Task → World → OutboxEvent → Bool
  succeeds tasks w e =
      succeeded
        (deliver_event store write_memory casefold hashed max_characters max_utf8_bytes tasks w e).1

  -- The calls that the worker's loop makes, until one finds no work, and at most `fuel` of them. The
  -- loop itself never ends, and runs sleep jobs between the calls.
  unfoldable pub drain : ℕ → OutboxDb → World → OutboxDb × World
  unfolding process_one
  drain zero db w = (db, w)
  drain (suc fuel) db w =
      let (found, next, v) = call db w in
      elim found [ true ↦ drain fuel next v | false ↦ (next, v) ]

  -- every delivery of the queue's events returns, whatever the world
  abbrev pub Delivers : OutboxDb → Type 0
  Delivers db =
      (v : World) (e : OutboxEvent)
      → In (content e) (map content db.events)
      → succeeds db.tasks v e ≡ true

  abbrev AttemptOf : (db : OutboxDb) (w : World) → Type 0
  AttemptOf db w =
      IsAttempt store write_memory casefold hashed max_characters max_utf8_bytes now later node db w
        (call db w)

  fewer_left :
      (db : OutboxDb) (w : World)
      → Delivers db
      → (a : AttemptOf db w) → open_count (call db w).1.events < open_count db.events
  unfolding settle is_ready update_rows
  fewer_left db w d a =
      let e = a.event in
      let done = d w e (map-In content db.events a.stored) in
      let ready_open : is_open e.status ≡ true = ground arith in
      let self : is_event e.id e ≡ true = ground arith in
      let fewer = open_fewer later e.id db.events a.stored ready_open self in
      subst (λ r. open_count r.1.events < open_count db.events) (sym a.result)
        (subst (λ s. open_count (map (attempted_row later e.id s) db.events) < open_count db.events)
          (sym done) fewer)

  pub same_tables :
      (db : OutboxDb) (w : World) (a : AttemptOf db w)
      → ((call db w).1.projects ≡ db.projects) × ((call db w).1.tasks ≡ db.tasks)
  unfolding settle
  same_tables db w a = (ap (λ r. r.1.projects) a.result, ap (λ r. r.1.tasks) a.result)

  found_work : (db : OutboxDb) (w : World) (a : AttemptOf db w) → (call db w).0 ≡ true
  found_work db w a = ap (λ r. r.0) a.result

  call-Delivers :
      (db : OutboxDb) (w : World) → Delivers db → AttemptOf db w → Delivers (call db w).1
  call-Delivers db w d a v e i =
      let (p, t) = same_tables db w a in
      let kept =
        process_one_keeps store write_memory casefold hashed max_characters max_utf8_bytes now later
          node db w in
      subst (λ tasks. succeeds tasks v e ≡ true) (sym t) (d v e (subst (In (content e)) kept i))

  abbrev pub NothingReady : OutboxDb → Type 0
  NothingReady db = (x : OutboxEvent) → In x db.events → is_ready now node db.projects x ≡ false

  -- what every attempt keeps holds at the end, where no event is ready
  pub drain_invariant :
      (P : OutboxDb → World → Type 0)
      → ((db : OutboxDb) (w : World)
          → Delivers db
          → P db w
          → AttemptOf db w
          → P (call db w).1 (call db w).2)
      → (fuel : ℕ) (db : OutboxDb) (w : World) → Delivers db
      → P db w
      → open_count db.events < fuel
      → P (drain fuel db w).0 (drain fuel db w).1 × NothingReady (drain fuel db w).0
  unfolding drain
  drain_invariant P step zero db w d p le = absurd (omega arith)
  drain_invariant P step (suc fuel) db w d p le =
      elim (process_one-IsAttempt store write_memory casefold hashed max_characters max_utf8_bytes
        now later node db w) [
          | inl (q, idle) ↦
              let found : (call db w).0 ≡ false = ap (λ r. r.0) q in
              rw (found, drain) (subst (λ r. P r.1 r.2 × NothingReady r.1) (sym q) (p, idle))
          | inr a ↦
              let fewer = fewer_left db w d a in
              rw (found_work db w a, drain)
                (drain_invariant P step fuel (call db w).1 (call db w).2 (call-Delivers db w d a)
                  (step db w d p a) (omega arith))
        ]

  -- If every delivery succeeds, one call more than there are open events is enough: afterwards no event
  -- is ready, and none was lost.
  pub drain_empties :
      (fuel : ℕ) (db : OutboxDb) (w : World)
      → Delivers db
      → open_count db.events < fuel
      → NothingReady (drain fuel db w).0
        × (map content (drain fuel db w).0.events ≡ map content db.events)
  drain_empties fuel db w d le =
      let (kept, idle) =
        drain_invariant (λ x v. map content x.events ≡ map content db.events)
          (λ x v dx k a.
            process_one_keeps store write_memory casefold hashed max_characters max_utf8_bytes now
              later node x v
            ∙ k)
          fuel db w d refl le in
      (idle, kept)
