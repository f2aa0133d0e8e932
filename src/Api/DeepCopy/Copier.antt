-- ===== src/Api/DeepCopy/Copier.antt =====
-- Deep copies in general: of a pointer, of a slice and of several fields in turn. A counter is
-- the next free address, and an allocation takes it.
use paperless_ngx_operator.Prelude.{
  ℕ, suc, ◌≤◌, ◌<◌, Option, none, some, List, [], ◌∷◌, ◌++◌, ◌≡◌, refl, ap, arith,
}

-- What a pointer that is not nil points to, or the elements of a slice that is not nil, with the
-- address.
pub record Ref (A : Type 0) : Type 0 where
  pub address : ℕ
  pub target : A

abbrev pub Fresh : Type 0 → Type 0
Fresh A = ℕ → A × ℕ

abbrev pub pure : {A : Type 0} → A → Fresh A
pure a n = (a, n)

infixl 5 ◌>>=◌
abbrev pub ◌>>=◌ : {A B : Type 0} → Fresh A → (A → Fresh B) → Fresh B
◌>>=◌ m f n = f (m n).0 (m n).1

-- A type in memory: the value that its cells hold, their addresses, and its `DeepCopyInto`, which
-- gives what it leaves in `out`.
pub record Copier (V : Type 0) : Type 1 where
  pub Cells : Type 0
  pub read : Cells → V
  pub addresses : Cells → List ℕ
  pub deep_copy_into : Cells → Fresh Cells

-- A type without pointers, which an assignment copies.
abbrev pub plain : (V : Type 0) → Copier V
plain V = record { Cells = V; read = λ v. v; addresses = λ v. []; deep_copy_into = λ v n. (v, n) }

-- Two fields in turn.
abbrev pub both : {V W : Type 0} → Copier V → Copier W → Copier (V × W)
both c d = record {
  Cells = c.Cells × d.Cells;
  read = λ x. (c.read x.0, d.read x.1);
  addresses = λ x. c.addresses x.0 ++ d.addresses x.1;
  deep_copy_into = λ x n.
      let (a, k) = c.deep_copy_into x.0 n in let (b, m) = d.deep_copy_into x.1 k in ((a, b), m);
}

module _ {V : Type 0} (c : Copier V) where
  abbrev pub read_all : List c.Cells → List V
  read_all [] = []
  read_all (x ∷ xs) = c.read x ∷ read_all xs

  abbrev pub all_addresses : List c.Cells → List ℕ
  all_addresses [] = []
  all_addresses (x ∷ xs) = c.addresses x ++ all_addresses xs

  -- `for i := range *in { (*in)[i].DeepCopyInto(&(*out)[i]) }`
  abbrev pub copy_all : List c.Cells → Fresh (List c.Cells)
  copy_all [] n = ([], n)
  copy_all (x ∷ xs) n =
      let (y, k) = c.deep_copy_into x n in let (ys, m) = copy_all xs k in (y ∷ ys, m)

  -- A pointer, whose copy is `new` with the target copied into it, or nil.
  abbrev pub copy_pointer : Option (Ref c.Cells) → Fresh (Option (Ref c.Cells))
  copy_pointer none n = (none, n)
  copy_pointer (some r) n =
      let (x, m) = c.deep_copy_into r.target (suc n) in
      (some (record { address = n; target = x }), m)

  -- A slice, whose copy is `make` with the elements copied into it, or nil.
  abbrev pub copy_slice : Option (Ref (List c.Cells)) → Fresh (Option (Ref (List c.Cells)))
  copy_slice none n = (none, n)
  copy_slice (some r) n =
      let (xs, m) = copy_all r.target (suc n) in (some (record { address = n; target = xs }), m)

  abbrev pub read_pointer : Option (Ref c.Cells) → Option V
  read_pointer none = none
  read_pointer (some r) = some (c.read r.target)

  abbrev pub read_slice : Option (Ref (List c.Cells)) → List V
  read_slice none = []
  read_slice (some r) = read_all r.target

  abbrev pub pointer_addresses : Option (Ref c.Cells) → List ℕ
  pointer_addresses none = []
  pointer_addresses (some r) = r.address ∷ c.addresses r.target

  abbrev pub slice_addresses : Option (Ref (List c.Cells)) → List ℕ
  slice_addresses none = []
  slice_addresses (some r) = r.address ∷ all_addresses r.target

  abbrev pub pointer : Copier (Option V)
  pointer = record {
    Cells = Option (Ref c.Cells);
    read = read_pointer;
    addresses = pointer_addresses;
    deep_copy_into = copy_pointer;
  }

  abbrev pub slice : Copier (List V)
  slice = record {
    Cells = Option (Ref (List c.Cells));
    read = read_slice;
    addresses = slice_addresses;
    deep_copy_into = copy_slice;
  }

-- Each address is from `n` on and below `m`.
abbrev pub Between : ℕ → ℕ → List ℕ → Type 0
Between n m [] = Unit
Between n m (a ∷ rest) = (n ≤ a) × (a < m) × Between n m rest

Between-mono : (n k m : ℕ) (xs : List ℕ) → n ≤ k → Between k m xs → Between n m xs
Between-mono n k m [] low all = tt
Between-mono n k m (a ∷ xs) low (from, below, rest) =
    (omega arith, below, Between-mono n k m xs low rest)

pub Between-++ :
    (n k m : ℕ) (xs bs : List ℕ)
    → n ≤ k
    → k ≤ m
    → Between n k xs
    → Between k m bs
    → Between n m (xs ++ bs)
Between-++ n k m [] bs low high first second = Between-mono n k m bs low second
Between-++ n k m (a ∷ xs) bs low high (from, below, first) second =
    (from, omega arith, Between-++ n k m xs bs low high first second)

-- The copy has the value of the original, and its cells are new.
pub record IsCopied {V : Type 0} (c : Copier V) (x : c.Cells) (n : ℕ) : Type 0 where
  pub same : c.read (c.deep_copy_into x n).0 ≡ c.read x
  pub grows : n ≤ (c.deep_copy_into x n).1
  pub fresh : Between n (c.deep_copy_into x n).1 (c.addresses (c.deep_copy_into x n).0)

abbrev pub Copies : {V : Type 0} → Copier V → Type 0
Copies c = (x : c.Cells) (n : ℕ) → IsCopied c x n

pub plain-Copies : (V : Type 0) → Copies (plain V)
plain-Copies V x n = record { same = refl; grows = omega arith; fresh = tt }

pub both-Copies :
    {V W : Type 0} (c : Copier V) (d : Copier W) → Copies c → Copies d → Copies (both c d)
both-Copies c d copies others x n =
    let first = copies x.0 n in
    let second = others x.1 (c.deep_copy_into x.0 n).1 in
    record {
      same = rw (first.same, second.same) refl;
      grows = omega arith;
      fresh = Between-++ n _ _ _ _ first.grows second.grows first.fresh second.fresh;
    }

module _ {V : Type 0} (c : Copier V) (copies : Copies c) where
  -- The elements of a slice.
  record AllCopied (xs : List c.Cells) (n : ℕ) : Type 0 where
    same : read_all c (copy_all c xs n).0 ≡ read_all c xs
    grows : n ≤ (copy_all c xs n).1
    fresh : Between n (copy_all c xs n).1 (all_addresses c (copy_all c xs n).0)

  copy_all-AllCopied : (xs : List c.Cells) (n : ℕ) → AllCopied xs n
  copy_all-AllCopied [] n = record { same = refl; grows = omega arith; fresh = tt }
  copy_all-AllCopied (x ∷ xs) n =
      let first = copies x n in
      let rest = copy_all-AllCopied xs (c.deep_copy_into x n).1 in
      record {
        same = rw (first.same, rest.same) refl;
        grows = omega arith;
        fresh = Between-++ n _ _ _ _ first.grows rest.grows first.fresh rest.fresh;
      }

  pub pointer-Copies : Copies (pointer c)
  pointer-Copies none n = record { same = refl; grows = omega arith; fresh = tt }
  pointer-Copies (some r) n =
      let target = copies r.target (suc n) in
      record {
        same = ap some target.same;
        grows = omega arith;
        fresh = (omega arith, omega arith, Between-mono n (suc n) _ _ (omega arith) target.fresh);
      }

  pub slice-Copies : Copies (slice c)
  slice-Copies none n = record { same = refl; grows = omega arith; fresh = tt }
  slice-Copies (some r) n =
      let target = copy_all-AllCopied r.target (suc n) in
      record {
        same = target.same;
        grows = omega arith;
        fresh = (omega arith, omega arith, Between-mono n (suc n) _ _ (omega arith) target.fresh);
      }
