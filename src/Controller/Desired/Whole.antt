-- ===== src/Controller/Desired/Whole.antt =====
-- A reconcile that succeeds achieves what the instance asks for
-- (internal/controller/paperlessinstance_controller.go).
use paperless_ngx_operator.Prelude.{
  Bool, true, false, String, All, some, List, ◌∷◌, ◌++◌, map, Result, ok, err, ◌≡◌, ◌≢◌, refl, sym,
  arith,
}
use paperless_ngx_operator.Kube.{Foreign}
use paperless_ngx_operator.Kube.Objects.{Object, ObjectKey}
use paperless_ngx_operator.Api.Types.{PaperlessInstance}
use paperless_ngx_operator.Controller.Client.{
  Server, Machinery, State, History, M, get_instance, ◌>>=◌, pure,
}
use paperless_ngx_operator.Controller.Runs.{SameButStatus, SameButStatus-trans, Grows, same, more}
use paperless_ngx_operator.Controller.Permitted.{Permitted-Allows}
use paperless_ngx_operator.Controller.Secrets.{reconcile_secrets}
use paperless_ngx_operator.Controller.Steps.{reconcile_storage, reconcile_cache, reconcile_workload}
use paperless_ngx_operator.Controller.Steps.Trace.{
  set_condition-SameButStatus, reconcile_storage-Keeps, reconcile_database-Keeps,
  reconcile_cache-Keeps,
}
use paperless_ngx_operator.Controller.Database.{reconcile_database}
use paperless_ngx_operator.Controller.Reconcile.{
  ReconcileResult, zero_result, fail_step, settle, step, after_database, reconcile_instance,
  patch_status_of, reconcile_found, reconcile, seeded, final_result,
}
use paperless_ngx_operator.Controller.Desired.{
  Want, Slot, slot_of, slot_of-with_metadata, want_slots, cluster_of, AllOwned, nothing, also,
  desired, cache_wants, workload_wants,
}
use paperless_ngx_operator.Controller.Desired.Ensure.{ensure-other, ensure-held}
use paperless_ngx_operator.Controller.Desired.Places.{
  NoApply, Places-AllOwned, cluster_of-Grows, cluster_of-Places,
}
use paperless_ngx_operator.Controller.Desired.Quiet.{reconcile_secrets-NoApply}
use paperless_ngx_operator.Controller.Desired.Slots.{wants-Distinct}
use paperless_ngx_operator.Controller.Desired.Status.{
  storage_wants-status, database_wants-status, cache_wants-status, workload_wants-status,
}
use paperless_ngx_operator.Controller.Desired.Puts.{Puts, Puts-after, Puts-append}
use paperless_ngx_operator.Controller.Desired.Steps.{
  reconcile_storage-Puts, reconcile_database-Puts, reconcile_cache-Puts, reconcile_workload-Puts,
}

-- From one history to another, the objects that the instance asks for have come to stand in the
-- cluster as they were built, with the right owner references, and no other place has changed.
pub record Achieved {F : Foreign} (S : Server F) (K : Machinery F) (i : PaperlessInstance F)
    (h k : History F) : Type 0 where
  pub objs : List (Object F)
  pub owned : AllOwned K i (desired i) objs
  pub held : All (λ obj. cluster_of S k (slot_of obj) ≡ some obj) objs
  pub untouched :
      (slot : Slot)
      → All (λ obj. slot_of obj ≢ slot) objs
      → cluster_of S k slot ≡ cluster_of S h slot

module _ {F : Foreign} (S : Server F) (K : Machinery F) where
  AllOwned-slots :
      {i : PaperlessInstance F} {ws : List (Want F)} {objs : List (Object F)}
      → AllOwned K i ws objs
      → map slot_of objs ≡ want_slots ws
  AllOwned-slots nothing = refl
  AllOwned-slots (also {w = w} owned rest) =
      rw (owned.is, slot_of-with_metadata w.object owned.refs, AllOwned-slots rest) refl

  Puts-Achieved :
      {i : PaperlessInstance F} {s t : State F}
      → Puts S K i (desired i) s t
      → Achieved S K i s.history t.history
  Puts-Achieved {i} {s} puts =
      let owned = Places-AllOwned S K i puts.places in
      let is = cluster_of-Places S puts.places in
      record {
        objs = puts.objs;
        owned = owned;
        held = rw is (
            ensure-held puts.objs (cluster_of S s.history)
              (rw (AllOwned-slots owned) (wants-Distinct i)));
        untouched =
            λ slot others. rw is (ensure-other puts.objs (cluster_of S s.history) slot others);
      }

  settle-eq-ok :
      {A B : Type 0} (reason prefix : String) (r : Result A) (f : A → M F B) (t : State F) (b : B)
      → ((settle S K reason prefix r >>= f) t).0 ≡ ok b
      → (a : A) × (r ≡ ok a)
        × ((f a t).0 ≡ ok b)
        × (((settle S K reason prefix r >>= f) t).1 ≡ (f a t).1)
  unfolding ◌>>=◌ fail_step
  settle-eq-ok reason prefix (ok a) f t b h = (a, refl, h, refl)
  settle-eq-ok reason prefix (err e) f t b h = absurd (cc)

  step-eq-ok :
      {A B : Type 0} (reason prefix : String) (m : M F A) (f : A → M F B) (s : State F) (b : B)
      → ((step S K reason prefix m >>= f) s).0 ≡ ok b
      → (a : A) × ((m s).0 ≡ ok a)
        × ((f a (m s).1).0 ≡ ok b)
        × (((step S K reason prefix m >>= f) s).1 ≡ (f a (m s).1).1)
  unfolding ◌>>=◌
  step-eq-ok reason prefix m f s b h = settle-eq-ok reason prefix (m s).0 f (m s).1 b h

  after_database-eq-zero :
      (db_ready : Bool) (s : State F)
      → (after_database S K db_ready s).0 ≡ ok zero_result
      → db_ready ≡ true
  unfolding after_database ◌>>=◌
  after_database-eq-zero true s h = refl
  after_database-eq-zero false s h = absurd (ground arith)

  pure-state : (r : ReconcileResult) (s : State F) → (pure r s).1 ≡ s
  unfolding ◌>>=◌
  pure-state r s = refl

  after_database-Puts :
      (i : PaperlessInstance F) (s : State F)
      → SameButStatus i s.inst
      → (after_database S K true s).0 ≡ ok zero_result
      → Puts S K i (cache_wants i ++ workload_wants i) s (after_database S K true s).1
  unfolding after_database
  after_database-Puts i s same_ h =
      let (x, e1, h1, t1) = step-eq-ok _ _ (reconcile_cache S K) _ s zero_result h in
      let t : State F = (reconcile_cache S K s).1 in
      let later =
        SameButStatus-trans same_
          ((reconcile_cache-Keeps S K (Permitted-Allows S K true)).at s).static in
      let (y, e2, h2, t2) = step-eq-ok _ _ (reconcile_workload S K) _ t zero_result h1 in
      rw (t1, t2, pure-state zero_result (reconcile_workload S K t).1)
        (Puts-append S K i
          (rw (cache_wants-status same_) at (reconcile_cache-Puts S K i s same_ e1))
          (rw (workload_wants-status later) at (reconcile_workload-Puts S K i t later e2)))

  reconcile_instance-Puts :
      (i : PaperlessInstance F) (s : State F)
      → SameButStatus i s.inst
      → (reconcile_instance S K s).0 ≡ ok zero_result
      → Puts S K i (desired i) s (reconcile_instance S K s).1
  unfolding reconcile_instance desired
  reconcile_instance-Puts i s same_ h =
      let (x, e1, h1, t1) = step-eq-ok _ _ (reconcile_secrets S K) _ s zero_result h in
      let t : State F = (reconcile_secrets S K s).1 in
      let quiet = (reconcile_secrets-NoApply S K).at s in
      let same_t = SameButStatus-trans same_ quiet.static in
      let (y, e2, h2, t2) = step-eq-ok _ _ (reconcile_storage S K) _ t zero_result h1 in
      let u : State F = (reconcile_storage S K t).1 in
      let same_u =
        SameButStatus-trans same_t
          ((reconcile_storage-Keeps S K (Permitted-Allows S K false)).at t).static in
      let (db_ready, e3, h3, t3) = step-eq-ok _ _ (reconcile_database S K) _ u zero_result h2 in
      let v : State F = (reconcile_database S K u).1 in
      let same_v =
        SameButStatus-trans same_u
          ((reconcile_database-Keeps S K (Permitted-Allows S K false)).at u).static in
      let ready = after_database-eq-zero db_ready v h3 in
      rw (t1, t2, t3, ready)
        (Puts-after S K i quiet.grows (
          Puts-append S K i
            (rw (storage_wants-status same_t) at (reconcile_storage-Puts S K i t same_t e2))
            (Puts-append S K i
              (rw (database_wants-status same_u) at
                (reconcile_database-Puts S K i u same_u (rw ready at e3)))
              (after_database-Puts i v same_v (rw ready at h3)))))

  Achieved-around :
      {i : PaperlessInstance F} {h k l m : History F}
      → Grows NoApply h k
      → Achieved S K i k l
      → Grows NoApply l m
      → Achieved S K i h m
  Achieved-around before done after = record {
    objs = done.objs;
    owned = done.owned;
    held = rw (cluster_of-Grows S after) done.held;
    untouched = λ slot others.
        rw (cluster_of-Grows S after, sym (cluster_of-Grows S before)) (done.untouched slot others);
  }

  final_result-eq-ok :
      (r : Result ReconcileResult) (patched : Result (Unit {0})) (a : ReconcileResult)
      → final_result S K r patched ≡ ok a
      → r ≡ ok a
  final_result-eq-ok r (ok x) a h = h
  final_result-eq-ok r (err e) a h = absurd (cc)

  reconcile_found-Achieved :
      (base : PaperlessInstance F) (h : History F)
      → (reconcile_found S K base h).0 ≡ ok zero_result
      → Achieved S K base h (reconcile_found S K base h).1
  unfolding reconcile_found patch_status_of ◌>>=◌
  reconcile_found-Achieved base h done =
      let begun : State F = record { inst = seeded S K base; history = h } in
      Achieved-around same
        (Puts-Achieved (
          reconcile_instance-Puts base begun (set_condition-SameButStatus S K _ _ _ _ base)
            (final_result-eq-ok _ _ zero_result done)))
        (more _ same tt)

  -- Whatever the API server answers, after a reconcile of an instance that exists which succeeds
  -- and asks for no other one, what was applied last is as follows. In the place of each claim of
  -- the storage, of the Cluster where there is no external database and it can be built, of each
  -- object of a managed cache, of the Service and of the Deployment it is that object as it was
  -- built, with the owner references that the instance gives it or, where the deletion policy is
  -- not Delete and it is a claim of the storage or the Cluster, with its own. In every other place
  -- it is what was applied last before. The Secrets are created and patched, not applied, and
  -- this does not speak of them.
  pub reconcile-Achieved :
      (base : PaperlessInstance F) (key : ObjectKey) (h : History F)
      → S.instance_answer h key ≡ ok base
      → (reconcile S K key h).0 ≡ ok zero_result
      → Achieved S K base h (reconcile S K key h).1
  unfolding reconcile
  reconcile-Achieved base key h found done = rw found (
      Achieved-around (more _ same tt)
        (reconcile_found-Achieved base (get_instance key ∷ h) (rw found at done)) same)
