-- ===== src/Memory/Change.antt =====
-- What `apply_sleep_action` of memory_engine.py does to the table, and that it keeps the chains.
use dduo_solo_founder.Prelude.{
  true, List, Option, none, some, ◌≡◌, refl, sym, ap, subst, inl, inr, update_rows,
}
use dduo_solo_founder.Prelude.Options.{>>=-eq-some, some-eq-some, if-eq-some}
use dduo_solo_founder.Prelude.Equality.{same→eq, list_eq, nat_eq}
use dduo_solo_founder.Context.Text.{Text}
use dduo_solo_founder.Memory.Store.{is_active, Memory, MemoryDb}
use dduo_solo_founder.Memory.Targets.{target_for_action}
use dduo_solo_founder.Memory.Sleep.{
  SleepCall, Outcome, is_row, change_status, apply_status, new_memory, write_revision,
  apply_revision, is_status_action, node_key_of, apply_sleep_action, skipped, status_updated,
}
use dduo_solo_founder.Memory.Chain.{IsChain, IsFrame}
use dduo_solo_founder.Memory.Found.{IsTarget, target_for_action-IsTarget}
use dduo_solo_founder.Memory.Kept.{IsNew, update_rows-IsChain, write_revision-IsChain}

abbrev Answer : Type 0
Answer = Option Memory × Outcome × MemoryDb

-- What one action did to the table.
pub data Change (c : SleepCall) (ms : List Memory) : List Memory → Type 0 where
  no_change : {after : List Memory} → after ≡ ms → Change c ms after
  status_change :
      {after : List Memory} (t : Memory)
      → IsTarget c.job.project_id ms t
      → after ≡ update_rows (is_row t.id) (change_status c) ms
      → Change c ms after
  revision_change :
      {after : List Memory} (target : Option Memory) (key : Text)
      → target_for_action c.job.project_id c.action ms ≡ some target
      → node_key_of c target ≡ some key
      → after ≡ write_revision c target (new_memory c target key) ms
      → Change c ms after

abbrev pub memories_of : Answer → List Memory
memories_of answer = answer.2.memories

status_case :
    (c : SleepCall) (db : MemoryDb) (target : Option Memory) {answer : Answer}
    → target_for_action c.job.project_id c.action db.memories ≡ some target
    → (elim target [
      | none ↦ some (none, skipped, db)
      | some t ↦ some (some (change_status c t), status_updated, apply_status c t db)
    ])
      ≡ some answer
    → Change c db.memories (memories_of answer)
unfolding apply_status
status_case c db none found h = no_change (sym (ap memories_of (some-eq-some h)))
status_case c db (some t) found h =
    status_change t (target_for_action-IsTarget c.job.project_id c.action db.memories found)
      (sym (ap memories_of (some-eq-some h)))

pub apply_sleep_action-Change :
    (c : SleepCall) (db : MemoryDb) {answer : Answer}
    → apply_sleep_action c db ≡ some answer
    → Change c db.memories (memories_of answer)
unfolding apply_sleep_action apply_revision
apply_sleep_action-Change c db h =
    let (target, found, h1) =
      >>=-eq-some (target_for_action c.job.project_id c.action db.memories) _ h in
    let (key, named, h2) = >>=-eq-some (node_key_of c target) _ h1 in
    elim (if-eq-some (is_status_action c.action.action) _ _ h2) [
      | inl (s, e) ↦ status_case c db target found e
      | inr (s, e) ↦ revision_change target key found named (sym (ap memories_of (some-eq-some e)))
    ]

change_status-IsFrame :
    (c : SleepCall) (a : Memory) → is_active a.status ≡ true → IsFrame a (change_status c a)
unfolding change_status
change_status-IsFrame c a current = record {
  same_id = refl;
  same_project = refl;
  same_node_type = refl;
  same_key = refl;
  same_group = refl;
  same_revision = refl;
  same_supersedes = refl;
  not_revived = λ h. current;
}

Change-IsChain :
    (c : SleepCall) {ms after : List Memory}
    → Change c ms after
    → IsChain ms
    → IsNew c ms
    → IsChain after
Change-IsChain c (no_change e) chain new = subst IsChain (sym e) chain
Change-IsChain c {ms} (status_change t target e) chain new = subst IsChain (sym e) (
    update_rows-IsChain (is_row t.id) (change_status c)
      (λ a i q.
        let row : a ≡ t = chain.unique a t i target.stored (same→eq a.id t.id q) in
        change_status-IsFrame c a (subst (λ z. is_active z.status ≡ true) (sym row) target.current))
      chain)
Change-IsChain c (revision_change target key found named e) chain new =
    subst IsChain (sym e) (write_revision-IsChain c chain new target key found named)

-- Every action of the sleep job that `apply_sleep_action` applies keeps the revision chains: one
-- active memory at most for a project, type and key, revisions of a group numbered without
-- repetition and of one key, the active one the last, and every superseding memory the next
-- revision of an existing one. The identifiers that it takes for the new row must be unused.
pub apply_sleep_action-IsChain :
    (c : SleepCall) (db : MemoryDb) (answer : Option Memory × Outcome × MemoryDb)
    → apply_sleep_action c db ≡ some answer
    → IsChain db.memories
    → IsNew c db.memories
    → IsChain answer.2.memories
apply_sleep_action-IsChain c db answer h chain new =
    Change-IsChain c (apply_sleep_action-Change c db h) chain new
