-- ===== src/Controller/Reconcile/Trace.antt =====
-- The requests of a whole reconcile: each is permitted where it stands, and the Deployments and
-- Services are left alone until there is a database.
use paperless_ngx_operator.Prelude.{
  ◌<◌, Bool, true, false, String, ◌==◌, ◌||◌, Error, wrap, Result, ok, err, ◌≡◌, refl, arith,
}
use paperless_ngx_operator.Kube.{Foreign}
use paperless_ngx_operator.Kube.Objects.{ObjectKey}
use paperless_ngx_operator.Api.Types.{PaperlessInstance}
use paperless_ngx_operator.Controller.Client.{Request}
use paperless_ngx_operator.Controller.Client.{Server, Machinery, State, History, M, ◌>>=◌, continue}
use paperless_ngx_operator.Controller.Runs.{
  Grows, same, more, Grows-trans, Grows-map, Runs, SameButStatus, Runs-trans, Runs-refl, Keeps,
  Keeps-bind, Keeps-attempt, keeps_rules,
}
use paperless_ngx_operator.Controller.Permitted.{
  Permitted, Permitted-mono, Allows, Permitted-Allows,
}
use paperless_ngx_operator.Controller.Secrets.Trace.{reconcile_secrets-Keeps}
use paperless_ngx_operator.Controller.Steps.{reconcile_cache, reconcile_workload}
use paperless_ngx_operator.Controller.Steps.Trace.{
  mark-Keeps, reconcile_storage-Keeps, reconcile_database-Keeps, reconcile_cache-Keeps,
  reconcile_workload-Keeps,
}
use paperless_ngx_operator.Controller.Reconcile.{
  ReconcileResult, fail_step, settle, step, after_database, reconcile_instance, patch_status_of,
  reconcile_found, reconcile, seeded, after_instance,
}

-- A result after which nothing was done for the cache and the workload: a requeue, or an error of
-- the steps before them.
abbrev pub Blocked : Result ReconcileResult → Type 0
Blocked (ok r) = 0 < r.requeue_after
Blocked (err (wrap prefix e)) =
    (prefix == "reconciling secrets"
      || prefix == "reconciling storage"
      || prefix == "reconciling database")
    ≡ true
Blocked (err e) = ⊥

module _ {F : Foreign} (S : Server F) (K : Machinery F) where
  fail_step-Keeps :
      {P : Request F → History F → Type 0} {A : Type 0} (reason prefix : String) (e : Error)
      → Keeps P (fail_step S K {A = A} reason prefix e)
  unfolding fail_step
  fail_step-Keeps reason prefix e = search (keeps_rules, mark-Keeps S K)

  settle-Keeps :
      {P : Request F → History F → Type 0} {A : Type 0} (reason prefix : String) (r : Result A)
      → Keeps P (settle S K reason prefix r)
  settle-Keeps reason prefix (ok a) = search keeps_rules
  settle-Keeps reason prefix (err e) = fail_step-Keeps reason prefix e

  pub step-Keeps :
      {P : Request F → History F → Type 0} {A : Type 0} (reason prefix : String) (m : M F A)
      → Keeps P m
      → Keeps P (step S K reason prefix m)
  step-Keeps reason prefix m k =
      Keeps-bind _ _ (Keeps-attempt m k) λ r. settle-Keeps reason prefix r

  -- What a state becomes, and with which result.
  record Reaches (s : State F) (r : Result ReconcileResult) (t : State F) : Type 0 where
    whole : Runs (Permitted S K true) s t
    blocked : Blocked r → Runs (Permitted S K false) s t

  Runs-mono : {s t : State F} → Runs (Permitted S K false) s t → Runs (Permitted S K true) s t
  Runs-mono r = record { static = r.static; grows = Grows-map (Permitted-mono S K) r.grows }

  Reaches-false :
      {s t : State F} (r : Result ReconcileResult) → Runs (Permitted S K false) s t → Reaches s r t
  Reaches-false r quiet = record { whole = Runs-mono quiet; blocked = λ _. quiet }

  Reaches-trans :
      {s t u : State F} (r : Result ReconcileResult)
      → Runs (Permitted S K false) s t
      → Reaches t r u
      → Reaches s r u
  Reaches-trans r quiet rest = record {
    whole = Runs-trans (Runs-mono quiet) rest.whole;
    blocked = λ b. Runs-trans quiet (rest.blocked b);
  }

  Reaches-continue :
      {A : Type 0} (r : Result A) (f : A → M F ReconcileResult) (t : State F)
      → ((a : A) → Reaches t (f a t).0 (f a t).1)
      → Reaches t (continue r f t).0 (continue r f t).1
  Reaches-continue (ok a) f t rest = rest a
  Reaches-continue (err e) f t rest = Reaches-false (err e) (Runs-refl t)

  -- A step that leaves the workload alone, and then the rest.
  Reaches-bind :
      {A : Type 0} (m : M F A) (f : A → M F ReconcileResult) (s : State F)
      → Keeps (Permitted S K false) m
      → ((a : A) (t : State F) → Reaches t (f a t).0 (f a t).1)
      → Reaches s ((m >>= f) s).0 ((m >>= f) s).1
  unfolding ◌>>=◌
  Reaches-bind m f s quiet rest =
      let (r, t) = m s in Reaches-trans _ (quiet.at s) (Reaches-continue r f t (λ a. rest a t))

  -- An error of a later step blocks nothing.
  step-not_Blocked :
      {A : Type 0} (reason prefix : String) (r : Result A) (f : A → M F ReconcileResult)
      (t : State F)
      → (prefix == "reconciling secrets"
          || prefix == "reconciling storage"
          || prefix == "reconciling database")
        ≡ false
      → ((a : A) (u : State F) → ¬ Blocked (f a u).0)
      → ¬ Blocked ((settle S K reason prefix r >>= f) t).0
  unfolding ◌>>=◌ fail_step
  step-not_Blocked reason prefix (ok a) f t late rest = rest a t
  step-not_Blocked reason prefix (err e) f t late rest = λ b. cc

  pub after_database-Keeps :
      {P : Request F → History F → Type 0} (allows : Allows S K P true) (ready : Bool)
      → Keeps P (after_database S K ready)
  unfolding after_database
  after_database-Keeps allows true =
      Keeps-bind _ _ (step-Keeps _ _ _ (reconcile_cache-Keeps S K allows)) λ _.
        Keeps-bind _ _ (step-Keeps _ _ _ (reconcile_workload-Keeps S K allows))
          λ _. search keeps_rules
  after_database-Keeps allows false =
      Keeps-bind _ _ (mark-Keeps S K _ _ _ _) λ _. search keeps_rules

  after_database-not_Blocked : (s : State F) → ¬ Blocked (after_database S K true s).0
  unfolding after_database ◌>>=◌
  after_database-not_Blocked s =
      let (cache, t) = reconcile_cache S K s in
      step-not_Blocked "CacheNotReady" "reconciling cache" cache _ t refl λ _ u.
        let (workload, v) = reconcile_workload S K u in
        step-not_Blocked "WorkloadApplyFailed" "reconciling workload" workload _ v refl
          λ _ w b. omega arith

  after_database-Reaches :
      (ready : Bool) (s : State F)
      → Reaches s (after_database S K ready s).0 (after_database S K ready s).1
  unfolding after_database
  after_database-Reaches false s =
      Reaches-false _ ((Keeps-bind _ _ (mark-Keeps S K _ _ _ _) λ _. search keeps_rules).at s)
  after_database-Reaches true s = record {
    whole = (after_database-Keeps (Permitted-Allows S K true) true).at s;
    blocked = λ b. absurd (after_database-not_Blocked s b);
  }

  reconcile_instance-Reaches :
      (s : State F) → Reaches s (reconcile_instance S K s).0 (reconcile_instance S K s).1
  unfolding reconcile_instance
  reconcile_instance-Reaches s =
      Reaches-bind _ _ s (step-Keeps _ _ _ (reconcile_secrets-Keeps S K)) λ _ t.
        Reaches-bind _ _ t
          (step-Keeps _ _ _ (reconcile_storage-Keeps S K (Permitted-Allows S K false)))
          λ _ u.
            Reaches-bind _ _ u
              (step-Keeps _ _ _ (reconcile_database-Keeps S K (Permitted-Allows S K false)))
              after_database-Reaches

  -- Where the steps end with the error of one before the cache, or ask for another reconcile
  -- since the database is not ready, no Deployment and no Service has been applied, and every
  -- request is permitted where it stands.
  pub reconcile_instance-Blocked :
      (s : State F)
      → Blocked (reconcile_instance S K s).0
      → Grows (Permitted S K false) s.history (reconcile_instance S K s).1.history
  reconcile_instance-Blocked s b = ((reconcile_instance-Reaches s).blocked b).grows

  -- The steps change the instance in its status only.
  pub reconcile_instance-SameButStatus :
      (s : State F) → SameButStatus s.inst (reconcile_instance S K s).1.inst
  reconcile_instance-SameButStatus s = (reconcile_instance-Reaches s).whole.static

  patch_status_of-Keeps :
      (base : PaperlessInstance F) → Keeps (Permitted S K true) (patch_status_of S K base)
  unfolding patch_status_of ◌>>=◌
  patch_status_of-Keeps base = record {
    at = λ s. record {
      static = record { name = refl; namespace = refl; uid = refl; generation = refl; spec = refl };
      grows = more _ same refl;
    };
  }

  reconcile_found-Grows :
      (base : PaperlessInstance F) (h : History F)
      → Grows (Permitted S K true) h (reconcile_found S K base h).1
  unfolding reconcile_found
  reconcile_found-Grows base h =
      let begun : State F = record { inst = seeded S K base; history = h } in
      Grows-trans (reconcile_instance-Reaches begun).whole.grows
        ((patch_status_of-Keeps base).at (reconcile_instance S K begun).1).grows

  pub after_instance-Grows :
      (r : Result (PaperlessInstance F)) (h : History F)
      → Grows (Permitted S K true) h (after_instance S K r h).1
  after_instance-Grows (ok inst) h = reconcile_found-Grows inst h
  after_instance-Grows (err e) h = same

  -- Whatever the API server answers, each request of a reconcile is permitted where it stands: a
  -- Secret is created only right after a Get of the same key that found nothing, no merge patch
  -- of a Secret sets anything but owner references, an unstructured object that is applied is a
  -- CloudNativePG Cluster, every applied text is the object's own with explicit owner references,
  -- and the status that is sent observes the generation.
  pub reconcile-Grows :
      (key : ObjectKey) (h : History F) → Grows (Permitted S K true) h (reconcile S K key h).1
  unfolding reconcile
  reconcile-Grows key h = Grows-trans (more _ same tt) (after_instance-Grows _ _)
