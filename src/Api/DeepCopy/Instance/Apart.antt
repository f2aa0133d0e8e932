-- ===== src/Api/DeepCopy/Instance/Apart.antt =====
-- A deep copy has the value of its original and shares no cell with it
-- (api/v1alpha1/zz_generated.deepcopy.go).
use paperless_ngx_operator.Prelude.{
  ℕ, suc, ◌≤◌, ◌<◌, some, List, [], ◌∷◌, ◌⊎◌, inl, inr, ◌≡◌, ap, arith,
}
use paperless_ngx_operator.Kube.{Foreign}
use paperless_ngx_operator.Api.DeepCopy.Copier.{
  Ref, Copier, Copies, Between, both-Copies, slice-Copies, pointer-Copies, pointer,
}
use paperless_ngx_operator.Api.DeepCopy.Memory.{Memory, CopiesDeeply}
use paperless_ngx_operator.Api.DeepCopy.Fresh.{spec-Copies, status-Copies}
use paperless_ngx_operator.Api.DeepCopy.Instance.{
  InstanceCells, InstanceListCells, instance_of, copy_instance, read_instance, instance_addresses,
  paperless_instance, copy_instance_list, read_instance_list, instance_list_addresses,
  paperless_instance_list, RuntimeObject, nil_object, instance_object, list_object,
  deep_copy_object,
}

abbrev pub Contains : List ℕ → ℕ → Type 0
Contains [] a = ⊥
Contains (b ∷ bs) a = (b ≡ a) ⊎ Contains bs a

Between-Contains : (n m a : ℕ) (bs : List ℕ) → Between n m bs → Contains bs a → (n ≤ a) × (a < m)
Between-Contains n m a [] all has = absurd has
Between-Contains n m a (b ∷ bs) (from, below, rest) (inl is) = (omega arith, omega arith)
Between-Contains n m a (b ∷ bs) (from, below, rest) (inr later) =
    Between-Contains n m a bs rest later

-- Cells below a counter are apart from those that a copy takes from it on.
copied_apart :
    {V : Type 0} (c : Copier V) (copies : Copies c) (x : c.Cells) (n : ℕ)
    → Between 0 n (c.addresses x)
    → (a : ℕ) → Contains (c.addresses (c.deep_copy_into x n).0) a
    → ¬ Contains (c.addresses x) a
copied_apart c copies x n below a has had =
    let (from, under) = Between-Contains n _ a _ (copies x n).fresh has in
    let (zero_from, less) = Between-Contains 0 n a (c.addresses x) below had in omega arith

module _ {F : Foreign} (M : Memory F) (laws : CopiesDeeply M) where
  paperless_instance-Copies : Copies (paperless_instance M)
  unfolding copy_instance read_instance instance_addresses
  paperless_instance-Copies x n =
      let copied =
        both-Copies _ _ laws.object_meta
          (both-Copies _ _ (spec-Copies M laws) (status-Copies M laws))
          (x.object_meta, (x.spec, x.status)) n in
      record {
        same = ap (λ v. (x.type_meta, instance_of M v.0 v.1.0 v.1.1)) copied.same;
        grows = copied.grows;
        fresh = copied.fresh;
      }

  paperless_instance_list-Copies : Copies (paperless_instance_list M)
  unfolding copy_instance_list read_instance_list instance_list_addresses
  paperless_instance_list-Copies x n =
      let copied =
        both-Copies _ _ laws.list_meta (slice-Copies _ paperless_instance-Copies)
          (x.list_meta, x.items) n in
      record {
        same = ap (λ v. (x.type_meta, v)) copied.same;
        grows = copied.grows;
        fresh = copied.fresh;
      }

  abbrev pub object_addresses : RuntimeObject M → List ℕ
  object_addresses nil_object = []
  object_addresses (instance_object r) = r.address ∷ instance_addresses M r.target
  object_addresses (list_object r) = r.address ∷ instance_list_addresses M r.target

  -- Two objects of one type with the same value, or both nil.
  pub data SameValue : RuntimeObject M → RuntimeObject M → Type 0 where
    both_nil : SameValue nil_object nil_object
    same_instance :
        {q r : Ref (InstanceCells M)}
        → read_instance M q.target ≡ read_instance M r.target
        → SameValue (instance_object q) (instance_object r)
    same_list :
        {q r : Ref (InstanceListCells M)}
        → read_instance_list M q.target ≡ read_instance_list M r.target
        → SameValue (list_object q) (list_object r)

  pub record IsDeepCopy (x y : RuntimeObject M) (n m : ℕ) : Type 0 where
    pub same : SameValue y x
    pub grows : n ≤ m
    pub fresh : Between n m (object_addresses y)
    pub apart : (a : ℕ) → Contains (object_addresses y) a → ¬ Contains (object_addresses x) a

  -- Where the copies of the types of other packages are deep and the next free address is above every cell of
  -- the object, the copy of an instance, of a list of instances or of nil has the same
  -- value, its cells are new, and it shares none with the object.
  pub deep_copy_object-IsDeepCopy :
      (x : RuntimeObject M) (n : ℕ)
      → Between 0 n (object_addresses x)
      → IsDeepCopy x (deep_copy_object M x n).0 n (deep_copy_object M x n).1
  unfolding deep_copy_object
  deep_copy_object-IsDeepCopy nil_object n below = record {
    same = both_nil;
    grows = omega arith;
    fresh = tt;
    apart = λ a has had. has;
  }
  deep_copy_object-IsDeepCopy (instance_object r) n below =
      let copies = pointer-Copies (paperless_instance M) paperless_instance-Copies in
      let copied = copies (some r) n in
      record {
        same = same_instance (paperless_instance-Copies r.target (suc n)).same;
        grows = copied.grows;
        fresh = copied.fresh;
        apart = copied_apart (pointer (paperless_instance M)) copies (some r) n below;
      }
  deep_copy_object-IsDeepCopy (list_object r) n below =
      let copies = pointer-Copies (paperless_instance_list M) paperless_instance_list-Copies in
      let copied = copies (some r) n in
      record {
        same = same_list (paperless_instance_list-Copies r.target (suc n)).same;
        grows = copied.grows;
        fresh = copied.fresh;
        apart = copied_apart (pointer (paperless_instance_list M)) copies (some r) n below;
      }
