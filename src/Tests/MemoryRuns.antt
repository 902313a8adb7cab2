-- ===== src/Tests/MemoryRuns.antt =====
-- memory_engine.py at one stored memory, which an action revises and a call forgets.
use dduo_solo_founder.Prelude.{
  ℕ, ◌≤◌, Bool, true, false, List, [], ◌∷◌, Option, none, some, ◌≡◌, ◌≢◌, refl, sym, ◌∙◌, ap, In,
  here, there, zero, suc, length, arith, map,
}
use dduo_solo_founder.Context.Text.{Text, codes}
use dduo_solo_founder.Context.Json.{end}
use dduo_solo_founder.Memory.Keys.{normalize_node_key, strip_right, is_edge}
use dduo_solo_founder.Memory.Store.{
  reusable_fact, active, superseded, is_active, Memory, MemoryDb, replace_current, Surroundings,
  MemoryStatus,
}
use dduo_solo_founder.Memory.Sleep.{SleepCall, Outcome, skipped, apply_sleep_action, forget_memory}
use dduo_solo_founder.Memory.Chain.{IsChain}
use dduo_solo_founder.Memory.Kept.{IsNew}
use dduo_solo_founder.Memory.Change.{apply_sleep_action-IsChain}
use dduo_solo_founder.Memory.History.{IsPreserved, apply_sleep_action-IsPreserved}
use dduo_solo_founder.Memory.Forgetting.{forget_memory-inactive}
use dduo_solo_founder.Memory.StableKeys.{
  IsKey, StartsKept, normalize_node_key-IsKey, normalize_node_key-normalize_node_key,
}

abbrev stored : Memory
stored = record {
  id = codes "m1";
  project_id = codes "p";
  node_type = reusable_fact;
  node_key = codes "deploy-target";
  text = codes "We deploy to one host.";
  status = active;
  memory_group_id = codes "g1";
  revision = 1;
  supersedes_id = none;
  superseded_by_id = none;
  source_turn_ids = codes "t1" ∷ [];
  source_message_ids = [];
  source_node_ids = [];
  source_artifact_ids = [];
  sleep_job_id = none;
  valid_from = 1;
  valid_to = none;
  metadata_json = end;
  created_at = 1;
  updated_at = 1;
}

abbrev store : MemoryDb
store = record { memories = stored ∷ []; outbox = []; activities = [] }

abbrev around : Surroundings
around = record {
  now = 9;
  request_member = none;
  new_memory_id = codes "m2";
  new_group_id = codes "g2";
}

abbrev revision_call : SleepCall
revision_call = record {
  job = record {
    id = codes "j";
    project_id = codes "p";
    provider = codes "codex";
    trigger = codes "nightly";
    actor_member_id = none;
  };
  action = record {
    action = replace_current;
    target_node_type = reusable_fact;
    target_node_key = codes " Deploy Target ";
    text = codes "We deploy to two hosts. ";
    status = superseded;
    source_message_ids = [];
    source_node_ids = codes "gone" ∷ [];
    artifact_ids = [];
    metadata = end;
  };
  source_turn_ids = codes "t2" ∷ codes "t2" ∷ [];
  source_artifact_ids = [];
  memory_language = codes "en";
  around = around;
}

abbrev value_of {ℓ} : {A : Type ℓ} → A → Option A → A
value_of other none = other
value_of other (some x) = x

revised : Option Memory × Outcome × MemoryDb
unfolding apply_sleep_action
revised = value_of (none, skipped, store) (apply_sleep_action revision_call store)

revised_returned : apply_sleep_action revision_call store ≡ some revised
unfolding apply_sleep_action revised
revised_returned = refl

-- The key finds the stored memory, and the new revision is active although the model said otherwise.
two_revisions :
    map {B = Text × ℕ × MemoryStatus × Option Text}
      (λ m. (m.id, m.revision, m.status, m.supersedes_id))
      revised.2.memories
    ≡ (codes "m1", 1, superseded, none) ∷ (codes "m2", 2, active, some (codes "m1")) ∷ []
unfolding revised
two_revisions = refl

only : {x m : Memory} → In x (m ∷ []) → x ≡ m
only (here e) = e
only (there i) = elim i [ ]

one_row : IsChain (stored ∷ [])
one_row = record {
  unique = λ a b ha hb e. only ha ∙ sym (only hb);
  one_current = λ a b ha hb sa sb p t k. cc (only ha, only hb);
  grouped = λ a b ha hb e.
      let q = only ha ∙ sym (only hb) in
      (ap (λ z. z.project_id) q, ap (λ z. z.node_type) q, ap (λ z. z.node_key) q);
  numbered = λ a b ha hb e r. cc (only ha, only hb);
  newest = λ a b ha hb s e.
      let q : a.revision ≡ b.revision = ap (λ z. z.revision) (only ha ∙ sym (only hb)) in
      omega (arith, q);
  linked = λ a i ha e. absurd (none_not_some (sym (ap (λ z. z.supersedes_id) (only ha)) ∙ e));
}
  where
    none_not_some : {i : Text} → none ≢ some i
    none_not_some e = cc

revision_call-IsNew : IsNew revision_call (stored ∷ [])
revision_call-IsNew = record {
  new_id = λ a i e. absurd (ones_differ (sym (ap (λ z. z.id) (only i)) ∙ e));
  new_group = λ a i e. absurd (groups_differ (sym (ap (λ z. z.memory_group_id) (only i)) ∙ e));
}
  where
    ones_differ : codes "m1" ≢ codes "m2"
    ones_differ e = ground (arith, e)

    groups_differ : codes "g1" ≢ codes "g2"
    groups_differ e = ground (arith, e)

apply_sleep_action-IsChain_example : IsChain revised.2.memories
apply_sleep_action-IsChain_example =
    apply_sleep_action-IsChain revision_call store revised revised_returned one_row
      revision_call-IsNew

apply_sleep_action-IsPreserved_example :
    (b : Memory) × In b revised.2.memories × IsPreserved stored b
apply_sleep_action-IsPreserved_example =
    apply_sleep_action-IsPreserved revision_call store revised stored revised_returned (here refl)

forgotten : List Memory × MemoryDb
unfolding forget_memory
forgotten =
    value_of ([], store) (forget_memory around (codes "p") (codes "m1") (codes "asked") store)

forgotten_returned :
    forget_memory around (codes "p") (codes "m1") (codes "asked") store ≡ some forgotten
unfolding forget_memory forgotten
forgotten_returned = refl

gone : Memory
unfolding forgotten
gone = head forgotten.1.memories
  where
    head : List Memory → Memory
    head [] = stored
    head (m ∷ ms) = m

gone_stored : In gone forgotten.1.memories
unfolding gone forgotten forget_memory
gone_stored = here refl

gone_group : gone.memory_group_id ≡ stored.memory_group_id
unfolding gone forgotten forget_memory
gone_group = refl

forget_memory-inactive_example : (is_active gone.status ≡ false) × IsChain forgotten.1.memories
forget_memory-inactive_example =
    forget_memory-inactive around (codes "p") (codes "m1") (codes "asked") store forgotten stored
      gone forgotten_returned one_row (here refl) refl gone_stored gone_group

normalized_key : normalize_node_key (codes " Deploy Target ") ≡ some (codes "deploy-target")
unfolding normalize_node_key
normalized_key = refl

normalize_node_key-IsKey_example :
    (codes "deploy-target" ≢ [])
    × (length (codes "deploy-target") ≤ 200)
    × IsKey (codes "deploy-target")
    × StartsKept is_edge (codes "deploy-target")
normalize_node_key-IsKey_example =
    normalize_node_key-IsKey (codes " Deploy Target ") (codes "deploy-target") normalized_key

ends_kept : strip_right is_edge (codes "deploy-target") ≡ codes "deploy-target"
unfolding strip_right
ends_kept = refl

normalize_node_key-normalize_node_key_example :
    normalize_node_key (codes "deploy-target") ≡ some (codes "deploy-target")
normalize_node_key-normalize_node_key_example =
    normalize_node_key-normalize_node_key (codes " Deploy Target ") (codes "deploy-target")
      normalized_key ends_kept

abbrev long_value : ℕ → Text
long_value zero = codes "-tail"
long_value (suc n) = b'a' ∷ long_value n

abbrev cut_key : ℕ → Bool → Text
cut_key zero true = b'-' ∷ []
cut_key zero false = []
cut_key (suc n) dash = b'a' ∷ cut_key n dash

-- The cut may end at a dash, and then the key does not name itself any more.
cut_key_changes :
    (normalize_node_key (long_value 199) ≡ some (cut_key 199 true))
    × (normalize_node_key (cut_key 199 true) ≡ some (cut_key 199 false))
unfolding normalize_node_key
cut_key_changes = (refl, refl)
