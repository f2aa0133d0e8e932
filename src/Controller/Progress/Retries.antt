-- ===== src/Controller/Progress/Retries.antt =====
-- Reconciles of one instance that are repeated until one of them succeeds
-- (internal/controller/paperlessinstance_controller.go).
use native.Mathlib.Decide.{dec_le}
use paperless_ngx_operator.Prelude.{
  ℕ, zero, suc, ◌≤◌, true, Error, ok, err, ◌≡◌, ◌≢◌, refl, ◌⊎◌, inl, inr, arith, length,
}
use paperless_ngx_operator.Kube.{Foreign}
use paperless_ngx_operator.Kube.Objects.{ObjectKey}
use paperless_ngx_operator.Api.Types.{PaperlessInstance}
use paperless_ngx_operator.Resources.Database.Cluster.{SetsNested}
use paperless_ngx_operator.Controller.Client.{Server, Machinery, History, is_not_found}
use paperless_ngx_operator.Controller.Runs.{Grows, Grows-length}
use paperless_ngx_operator.Controller.Cost.Whole.{reconcile-length_bound}
use paperless_ngx_operator.Controller.Reconcile.{zero_result, reconcile}
use paperless_ngx_operator.Controller.Progress.{Works, Serves, IsReconcilable}
use paperless_ngx_operator.Controller.Progress.Whole.{reconcile-eq-ok}

-- From the n-th request on the API server serves every request, and under `key` there is an
-- instance that can be reconciled, not always the same, or none.
pub record Recovers {F : Foreign} (S : Server F) (n : ℕ) (key : ObjectKey) : Type 0 where
  pub served : Serves S n
  pub instance :
      (h : History F)
      → n ≤ length h
      → ((i : PaperlessInstance F) × (S.instance_answer h key ≡ ok i) × IsReconcilable S n i)
        ⊎ ((e : Error) × (S.instance_answer h key ≡ err e) × (is_not_found e ≡ true))

module _ {F : Foreign} (S : Server F) (K : Machinery F) where
  -- `k` reconciles of `key`, with any requests between them, none of which succeeded: each ended
  -- with an error or asked for another reconcile.
  pub data Retries (key : ObjectKey) (h : History F) : ℕ → History F → Type 0 where
    begun : Retries key h 0 h
    again :
        {k : ℕ} {t : History F}
        → (u : History F) → Retries key h k t
        → Grows (λ q l. Unit {0}) t u
        → (reconcile S K key u).0 ≢ ok zero_result
        → Retries key h (suc k) (reconcile S K key u).1

  Retries-length :
      (key : ObjectKey) (h : History F) (k : ℕ) (t : History F) → Retries key h k t → k ≤ length t
  Retries-length key h zero t begun = omega arith
  Retries-length key h (suc k) t (again u before between failed) = omega (
    arith,
    Retries-length key h _ _ before,
    Grows-length between,
    (reconcile-length_bound S K key u).0,
  )

  module _ (works : Works K) (sets : SetsNested F) where
    reconcile-Recovers :
        (n : ℕ) (key : ObjectKey) (h : History F)
        → Recovers S n key
        → n ≤ length h
        → (reconcile S K key h).0 ≡ ok zero_result
    unfolding reconcile
    reconcile-Recovers n key h recovers late = elim (recovers.instance h late) [
      | inl (i, found, fit) ↦
          reconcile-eq-ok S K works sets n i key h recovers.served fit (omega (arith, late)) found
      | inr (e, gone, missing) ↦ rw (gone, missing) refl
    ]

    -- Where the functions of the controller's libraries do not fail and `SetNestedMap` stores a
    -- map at a single key: if from the n-th request on the API server, with CloudNativePG
    -- installed, and the source of randomness serve every request, where a Secret need only be
    -- created right after a Get that did not find it and patched right after one that did, and the
    -- Get of the instance is answered with one that can be reconciled or with not found, then at most n reconciles in a
    -- row, with any requests between them, end with an error or ask for another one.
    pub Retries-bound :
        (n : ℕ) (key : ObjectKey) (h : History F) (k : ℕ) (t : History F)
        → Recovers S n key
        → Retries key h k t
        → k ≤ n
    Retries-bound n key h zero t recovers begun = omega arith
    Retries-bound n key h (suc k) t recovers (again u before between failed) = elim (dec_le n k) [
      | yes late ↦ absurd (
          failed (
            reconcile-Recovers n key u recovers
              (omega (arith, late, Retries-length key h _ _ before, Grows-length between))))
      | no early ↦ omega (arith, early)
    ]
