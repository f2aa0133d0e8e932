-- ===== src/Tests/OfProgress.antt =====
-- The theorems on whole reconciles that succeed, at concrete inputs.
use paperless_ngx_operator.Prelude.{
  All, eq_iff, ℕ, ◌≤◌, ltb, length, plain, [], ◌∷◌, Result, ok, err, ◌≡◌, refl, inl, inr,
  Option-cases, arith, if◌then◌else◌,
}
use paperless_ngx_operator.Api.Types.{PaperlessInstance}
use paperless_ngx_operator.Kube.Objects.{ObjectKey}
use paperless_ngx_operator.Resources.Names.{derived_name}
use paperless_ngx_operator.Resources.Names.Distinct.{Distinct}
use paperless_ngx_operator.Resources.Database.Cluster.{SetsNested}
use paperless_ngx_operator.Controller.Client.{Server, History, get_instance}
use paperless_ngx_operator.Controller.Runs.{SameButStatus-refl, same, Grows}
use paperless_ngx_operator.Controller.Reconcile.{zero_result, reconcile}
use paperless_ngx_operator.Controller.Progress.{Works, Serves, IsReconcilable}
use paperless_ngx_operator.Controller.Progress.Whole.{reconcile_converges}
use paperless_ngx_operator.Controller.Progress.Retries.{
  Recovers, Retries, begun, again, Retries-bound,
}
use paperless_ngx_operator.Controller.Cost.Whole.{reconcile-length_bound}
use paperless_ngx_operator.Controller.Desired.{Slot, want_slots, cluster_of, desired}
use paperless_ngx_operator.Controller.Desired.Whole.{Achieved, reconcile-Achieved}
use paperless_ngx_operator.Controller.Desired.Again.{IgnoresStatus, reconcile_idempotent}
use paperless_ngx_operator.Controller.Desired.Apart.{Apart}
use paperless_ngx_operator.Controller.Desired.Isolated.{NoSecretOf, reconcile_isolated}
use paperless_ngx_operator.Controller.Desired.Secrets.{AnswersKey, WritesIn}
use paperless_ngx_operator.Controller.Secrets.{key_of}
use paperless_ngx_operator.Tests.Store.{ok-injective, store_server, replay, replay-keyed}
use paperless_ngx_operator.Tests.Fixtures.{
  instance_named, managed_database, key, foreign, deleted, machinery, not_found,
}

nested : SetsNested foreign
nested m v k = refl

works : Works machinery
works = record {
  references_set = λ i meta ownable. (_, refl);
  kind_known = λ obj. (_, refl);
  encodes = λ gvk obj. (_, _, refl, refl);
  encodes_reference = λ r. (_, _, refl, refl);
  encodes_map = λ m. (_, refl);
}

-- The server that stores the Secrets, with any answer to the Get of the instance.
abbrev answering :
    (History foreign → ObjectKey → Result (PaperlessInstance foreign)) → Server foreign
answering answer = record (store_server deleted) { instance_answer = answer }

abbrev storing : Server foreign
storing = answering λ h name. ok deleted

serves :
    (answer : History foreign → ObjectKey → Result (PaperlessInstance foreign)) (n : ℕ)
    → Serves (answering answer) n
serves answer n = record {
  secret_read = λ h name late. elim (Option-cases (replay h name)) [
    | inl lacks ↦ inr (not_found, rw (lacks, answering, store_server) refl, refl)
    | inr (s, at) ↦ inl (s, rw (at, answering, store_server) refl, replay-keyed h name s at)
  ];
  installed = λ h name late. refl;
  created = λ h s e late answered missing. elim (Option-cases (replay h (key_of s.metadata))) [
    | inl lacks ↦ rw (lacks, answering, store_server) refl
    | inr (t, at) ↦ absurd (cc (rw (at, answering, store_server) at answered))
  ];
  applied = λ h obj body late. (_, refl);
  merged = λ h name s body late found. refl;
  patched = λ h sent base late. refl;
  random = λ h k late. (_, refl);
}

deleted-IsReconcilable :
    (answer : History foreign → ObjectKey → Result (PaperlessInstance foreign)) (n : ℕ)
    → IsReconcilable (answering answer) n deleted
unfolding derived_name
deleted-IsReconcilable answer n = record {
  secret_key_valid = refl;
  admin_valid = refl;
  db_valid = refl;
  credentials = λ ext h set late. absurd (cc);
}

reconcile_converges_example :
    ((reconcile storing machinery key []).0 ≡ ok zero_result)
    × Achieved storing machinery deleted [] (reconcile storing machinery key []).1
reconcile_converges_example =
    reconcile_converges storing machinery works nested 0 deleted key [] (serves _ 0)
      (deleted-IsReconcilable _ 0) (omega arith) refl

-- The first reconcile, and then a second one.
abbrev after_first : History foreign
after_first = (reconcile storing machinery key []).1

succeeds : (h : History foreign) → (reconcile storing machinery key h).0 ≡ ok zero_result
succeeds h =
    (reconcile_converges storing machinery works nested 0 deleted key h (serves _ 0)
      (deleted-IsReconcilable _ 0) (omega arith) refl).0

reconcile-Achieved_example :
    Achieved storing machinery deleted [] (reconcile storing machinery key []).1
reconcile-Achieved_example = reconcile-Achieved storing machinery deleted key [] refl (succeeds [])

ignores : IgnoresStatus machinery
ignores i j meta same_ = rw same_.uid refl

abbrev claim_slot : Slot
claim_slot = record { kind = "PersistentVolumeClaim"; name = "p-data"; namespace = "docs" }

reconcile_idempotent_example :
    cluster_of storing (reconcile storing machinery key after_first).1 claim_slot
    ≡ cluster_of storing after_first claim_slot
reconcile_idempotent_example =
    reconcile_idempotent storing machinery ignores deleted deleted key [] after_first
      (SameButStatus-refl deleted) refl (succeeds []) same refl (succeeds after_first) claim_slot

-- A server that refuses its first request.
abbrev recovering : Server foreign
recovering = answering λ h name. if ltb (length h) 1 then err (plain "refused") else ok deleted

recovering_answer :
    (h : History foreign) → 1 ≤ length h → recovering.instance_answer h key ≡ ok deleted
recovering_answer h late = ground arith

recovering-Recovers : Recovers recovering 1 key
recovering-Recovers = record {
  served = serves _ 1;
  instance = λ h late. inl (deleted, recovering_answer h late, deleted-IsReconcilable _ 1);
}

refused : Retries recovering machinery key [] 1 (get_instance key ∷ [])
unfolding reconcile
refused = again [] begun same (λ e. absurd (cc))

Retries-bound_example : 1 ≤ 1
Retries-bound_example =
    Retries-bound recovering machinery works nested 1 key [] 1 (get_instance key ∷ [])
      recovering-Recovers refused

reconcile-length_bound_example :
    (1 ≤ length (reconcile storing machinery key []).1)
    × (length (reconcile storing machinery key []).1 ≤ 17)
reconcile-length_bound_example = reconcile-length_bound storing machinery key []

-- Another instance beside that one.
abbrev neighbour : PaperlessInstance foreign
neighbour = instance_named "q" "Retain" managed_database

neighbours-Apart : Apart deleted neighbour
unfolding derived_name
neighbours-Apart = inr (
  (λ e. ground (arith, e, eq_iff "p" "q")),
  (λ e. ground (arith, e, eq_iff "p" "q-valkey")),
  (λ e. ground (arith, e, eq_iff "q" "p-valkey")),
)

storing-AnswersKey : AnswersKey storing
storing-AnswersKey h name s answered = elim (Option-cases (replay h name)) [
  | inl lacks ↦ absurd (cc (rw (lacks, answering, store_server) at answered))
  | inr (t, at) ↦
      let is : t ≡ s = ok-injective (rw (at, answering, store_server) at answered) in
      rw (← is) (replay-keyed h name t at)
]

reconcile_isolated_example :
    All
      (λ slot.
        cluster_of storing (reconcile storing machinery key []).1 slot ≡ cluster_of storing [] slot)
      (want_slots (desired neighbour))
    × Grows (WritesIn (NoSecretOf storing neighbour)) [] (reconcile storing machinery key []).1
reconcile_isolated_example =
    reconcile_isolated storing machinery deleted neighbour key [] storing-AnswersKey refl
      neighbours-Apart
