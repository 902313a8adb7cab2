-- ===== src/Memory/History.antt =====
-- What `apply_sleep_action` of memory_engine.py leaves of the memories that were stored before.
use dduo_solo_founder.Prelude.{
  Bool, List, [], ◌∷◌, Option, none, some, ◌≡◌, refl, sym, subst, ◌∙◌, In, map-In, In-append_left,
  inl, inr, update_rows, update_row, Bool-cases,
}
use dduo_solo_founder.Prelude.Equality.{list_eq, nat_eq}
use dduo_solo_founder.Memory.Store.{Memory, MemoryDb}
use dduo_solo_founder.Memory.Sleep.{
  SleepCall, Outcome, is_row, change_status, new_memory, supersede, link, write_revision,
  apply_sleep_action,
}
use dduo_solo_founder.Memory.Change.{
  Change, no_change, status_change, revision_change, apply_sleep_action-Change,
}

-- what stays of a memory whatever is written later
pub record IsPreserved (a b : Memory) : Type 0 where
  pub same_id : b.id ≡ a.id
  pub same_text : b.text ≡ a.text
  pub same_key : b.node_key ≡ a.node_key
  pub same_group : b.memory_group_id ≡ a.memory_group_id
  pub same_revision : b.revision ≡ a.revision
  pub same_sources : b.source_turn_ids ≡ a.source_turn_ids

update_rows-IsPreserved :
    (test : Memory → Bool) (f : Memory → Memory) {ms : List Memory} {a : Memory}
    → IsPreserved a (f a)
    → In a ms
    → In (update_row test f a) (update_rows test f ms) × IsPreserved a (update_row test f a)
unfolding update_rows
update_rows-IsPreserved test f {ms} {a} kept i = (
  map-In (update_row test f) ms i,
  elim (Bool-cases (test a)) [
    | inl t ↦ rw t kept
    | inr t ↦ rw t (record {
      same_id = refl;
      same_text = refl;
      same_key = refl;
      same_group = refl;
      same_revision = refl;
      same_sources = refl;
    })
  ],
)

abbrev Survives : Memory → List Memory → Type 0
Survives a after = (b : Memory) × In b after × IsPreserved a b

Change-Survives :
    (c : SleepCall) {ms after : List Memory} {a : Memory}
    → Change c ms after
    → In a ms
    → Survives a after
unfolding write_revision change_status
Change-Survives c {ms} {after} {a} (no_change e) i = (
  a,
  subst (In a) (sym e) i,
  record {
    same_id = refl;
    same_text = refl;
    same_key = refl;
    same_group = refl;
    same_revision = refl;
    same_sources = refl;
  },
)
Change-Survives c {ms} {after} {a} (status_change t target e) i =
    let (j, kept) =
      update_rows-IsPreserved (is_row t.id) (change_status c) {ms = ms} {a = a}
        (record {
          same_id = refl;
          same_text = refl;
          same_key = refl;
          same_group = refl;
          same_revision = refl;
          same_sources = refl;
        })
        i in
    (update_row (is_row t.id) (change_status c) a, subst (In _) (sym e) j, kept)
Change-Survives c {ms} {after} {a} (revision_change none key found named e) i = (
  a,
  subst (In a) (sym e) (In-append_left ms _ i),
  record {
    same_id = refl;
    same_text = refl;
    same_key = refl;
    same_group = refl;
    same_revision = refl;
    same_sources = refl;
  },
)
Change-Survives c {ms} {after} {a} (revision_change (some t) key found named e) i =
    let (j, kept) =
      update_rows-IsPreserved (is_row t.id) (supersede c) {ms = ms} {a = a}
        (record {
          same_id = refl;
          same_text = refl;
          same_key = refl;
          same_group = refl;
          same_revision = refl;
          same_sources = refl;
        })
        i in
    let mid = update_row (is_row t.id) (supersede c) a in
    let (k, linked) =
      update_rows-IsPreserved (is_row t.id) (link c) {a = mid}
        (record {
          same_id = refl;
          same_text = refl;
          same_key = refl;
          same_group = refl;
          same_revision = refl;
          same_sources = refl;
        })
        (In-append_left (update_rows (is_row t.id) (supersede c) ms)
          (new_memory c (some t) key ∷ []) j) in
    (
      update_row (is_row t.id) (link c) mid,
      subst (In _) (sym e) k,
      record {
        same_id = linked.same_id ∙ kept.same_id;
        same_text = linked.same_text ∙ kept.same_text;
        same_key = linked.same_key ∙ kept.same_key;
        same_group = linked.same_group ∙ kept.same_group;
        same_revision = linked.same_revision ∙ kept.same_revision;
        same_sources = linked.same_sources ∙ kept.same_sources;
      },
    )

-- No action loses or rewrites a memory: each one that was stored is still there afterwards, with its
-- text, key, group, revision and source turns.
pub apply_sleep_action-IsPreserved :
    (c : SleepCall) (db : MemoryDb) (answer : Option Memory × Outcome × MemoryDb) (a : Memory)
    → apply_sleep_action c db ≡ some answer
    → In a db.memories
    → (b : Memory) × In b answer.2.memories × IsPreserved a b
apply_sleep_action-IsPreserved c db answer a h i =
    Change-Survives c (apply_sleep_action-Change c db h) i
