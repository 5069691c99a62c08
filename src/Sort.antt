-- ===== src/Sort.antt =====
-- A stable sort, as `list.sort(key=...)` and `ORDER BY` are read, and the front of the sort of a
-- concatenation.
use mathlib.Core.List.{Perm}
use mathlib.Core.List.Perm
use pr_killer.Prelude.{
  ℕ, zero, suc, ◌≤◌, ◌≡◌, refl, ap, Bool, true, false, List, [], ◌∷◌, ◌++◌, arith, take, length,
  if◌then◌else◌, Bool-cases, inl, inr,
}

module _ {ℓ} {A : Type ℓ} (le : A → A → Bool) where
  unfoldable pub insert : A → List A → List A
  insert x [] = x ∷ []
  insert x (y ∷ ys) = if le x y then x ∷ y ∷ ys else y ∷ insert x ys

  unfoldable pub sort : List A → List A
  unfolding insert
  sort [] = []
  sort (x ∷ xs) = insert x (sort xs)

  -- The elements of two sorted lists in order, the first list's before equal ones of the second.
  pub merge : List A → List A → List A
  merge [] ys = ys
  merge (x ∷ xs) [] = x ∷ xs
  merge (x ∷ xs) (y ∷ ys) =
      let left = merge xs (y ∷ ys) in
      let right = merge (x ∷ xs) ys in if le x y then x ∷ left else y ∷ right

  -- Each element is at most every later one.
  abbrev pub IsBelow : A → List A → Type 0
  IsBelow x [] = Unit {0}
  IsBelow x (y ∷ ys) = (le x y ≡ true) × IsBelow x ys

  abbrev pub IsSorted : List A → Type 0
  IsSorted [] = Unit {0}
  IsSorted (x ∷ xs) = IsBelow x xs × IsSorted xs

module _ {ℓ} {A : Type ℓ} where
  take-take : (k m : ℕ) (l : List A) → k ≤ m → take k (take m l) ≡ take k l
  take-take zero m l h = refl
  take-take (suc k) zero l h = absurd (omega arith)
  take-take (suc k) (suc m) [] h = refl
  take-take (suc k) (suc m) (x ∷ l) h = ap (λ (t : List A). x ∷ t) (take-take k m l (omega arith))

module _ {ℓ} {A : Type ℓ} (le : A → A → Bool)
    (trans : (a b c : A) → le a b ≡ true → le b c ≡ true → le a c ≡ true)
    (total : (a b : A) → le a b ≡ false → le b a ≡ true) where
  IsBelow-trans : (x y : A) (l : List A) → le x y ≡ true → IsBelow le y l → IsBelow le x l
  IsBelow-trans x y [] h b = tt
  IsBelow-trans x y (z ∷ l) h b = (trans x y z h b.0, IsBelow-trans x y l h b.1)

  IsBelow-insert :
      (x y : A) (l : List A) → le x y ≡ true → IsBelow le x l → IsBelow le x (insert le y l)
  unfolding insert
  IsBelow-insert x y [] h b = (h, tt)
  IsBelow-insert x y (z ∷ l) h b = elim (Bool-cases (le y z)) [
    | inl e ↦ rw e (h, b)
    | inr e ↦ rw e (b.0, IsBelow-insert x y l h b.1)
  ]

  insert-IsSorted : (x : A) (l : List A) → IsSorted le l → IsSorted le (insert le x l)
  unfolding insert
  insert-IsSorted x [] s = (tt, tt)
  insert-IsSorted x (y ∷ l) s = elim (Bool-cases (le x y)) [
    | inl e ↦ rw e ((e, IsBelow-trans x y l e s.0), s)
    | inr e ↦ rw e (IsBelow-insert y x l (total x y e) s.0, insert-IsSorted x l s.1)
  ]

  pub sort-IsSorted : (l : List A) → IsSorted le (sort le l)
  unfolding sort
  sort-IsSorted [] = tt
  sort-IsSorted (x ∷ l) = insert-IsSorted x (sort le l) (sort-IsSorted l)

  insert_below : (x : A) (l : List A) → IsBelow le x l → insert le x l ≡ x ∷ l
  unfolding insert
  insert_below x [] b = refl
  insert_below x (y ∷ l) b = rw b.0 refl

  pub sort_of_IsSorted : (l : List A) → IsSorted le l → sort le l ≡ l
  unfolding sort
  sort_of_IsSorted [] s = refl
  sort_of_IsSorted (x ∷ l) s = rw (sort_of_IsSorted l s.1) (insert_below x l s.0)

  merge-nil : (xs : List A) → merge le xs [] ≡ xs
  unfolding merge
  merge-nil [] = refl
  merge-nil (x ∷ xs) = refl

  merge-insert :
      (x : A) (xs ys : List A) → insert le x (merge le xs ys) ≡ merge le (insert le x xs) ys
  unfolding insert merge
  merge-insert x [] [] = refl
  merge-insert x [] (y ∷ ys) = ground (arith, merge-insert x [] ys)
  merge-insert x (a ∷ xs) [] =
      ground (arith, merge-insert x xs [], merge-nil xs, merge-nil (insert le x xs))
  merge-insert x (a ∷ xs) (y ∷ ys) = ground (
    arith,
    trans x a y,
    trans x y a,
    total a y,
    merge-insert x xs (y ∷ ys),
    merge-insert x (a ∷ xs) ys,
  )

  sort-append : (xs ys : List A) → sort le (xs ++ ys) ≡ merge le (sort le xs) (sort le ys)
  unfolding sort merge
  sort-append [] ys = refl
  sort-append (x ∷ xs) ys = rw (sort-append xs ys) (merge-insert x (sort le xs) (sort le ys))

  -- The first `k` of a merge need the first `k` of each list only.
  take-merge :
      (k m n : ℕ) (xs ys : List A)
      → k ≤ m
      → k ≤ n
      → take k (merge le (take m xs) (take n ys)) ≡ take k (merge le xs ys)
  unfolding merge
  take-merge zero m n xs ys hm hn = refl
  take-merge (suc k) zero n xs ys hm hn = absurd (omega arith)
  take-merge (suc k) (suc m) zero xs ys hm hn = absurd (omega arith)
  take-merge (suc k) (suc m) (suc n) [] [] hm hn = refl
  take-merge (suc k) (suc m) (suc n) [] (y ∷ ys) hm hn =
      ap (λ (l : List A). y ∷ l) (take-take k n ys (omega arith))
  take-merge (suc k) (suc m) (suc n) (x ∷ xs) [] hm hn =
      ap (λ (l : List A). x ∷ l) (take-take k m xs (omega arith))
  take-merge (suc k) (suc m) (suc n) (x ∷ xs) (y ∷ ys) hm hn = elim (Bool-cases (le x y)) [
    | inl e ↦ rw e (
        ap (λ (l : List A). x ∷ l) (take-merge k m (suc n) xs (y ∷ ys) (omega arith) (omega arith)))
    | inr e ↦ rw e (
        ap (λ (l : List A). y ∷ l) (take-merge k (suc m) n (x ∷ xs) ys (omega arith) (omega arith)))
  ]

  IsBelow-take : (n : ℕ) (x : A) (l : List A) → IsBelow le x l → IsBelow le x (take n l)
  IsBelow-take zero x l b = tt
  IsBelow-take (suc n) x [] b = tt
  IsBelow-take (suc n) x (y ∷ l) b = (b.0, IsBelow-take n x l b.1)

  pub take-IsSorted : (n : ℕ) (l : List A) → IsSorted le l → IsSorted le (take n l)
  take-IsSorted zero l s = tt
  take-IsSorted (suc n) [] s = tt
  take-IsSorted (suc n) (x ∷ l) s = (IsBelow-take n x l s.0, take-IsSorted n l s.1)

  -- Sorting the fronts of two sorts gives the front of the sort of everything.
  pub take-sort-append :
      (k m : ℕ) (xs ys : List A)
      → k ≤ m
      → take k (sort le (take m (sort le xs) ++ take m (sort le ys))) ≡ take k (sort le (xs ++ ys))
  take-sort-append k m xs ys h =
      let sx = take-IsSorted m (sort le xs) (sort-IsSorted xs) in
      let sy = take-IsSorted m (sort le ys) (sort-IsSorted ys) in
      rw
        (
          sort-append (take m (sort le xs)) (take m (sort le ys)),
          sort_of_IsSorted (take m (sort le xs)) sx,
          sort_of_IsSorted (take m (sort le ys)) sy,
          sort-append xs ys,
        )
        (take-merge k m m (sort le xs) (sort le ys) h h)

module _ {ℓ} {A : Type ℓ} (le : A → A → Bool) where
  insert-perm : (x : A) (l : List A) → Perm (insert le x l) (x ∷ l)
  unfolding insert
  insert-perm x [] = Perm.refl (x ∷ [])
  insert-perm x (y ∷ l) = elim (Bool-cases (le x y)) [
    | inl e ↦ rw e (Perm.refl (x ∷ y ∷ l))
    | inr e ↦ rw e (Perm.trans (Perm.cons y (insert-perm x l)) (Perm.swap x y l))
  ]

  pub sort-perm : (l : List A) → Perm (sort le l) l
  unfolding sort
  sort-perm [] = Perm.refl []
  sort-perm (x ∷ l) = Perm.trans (insert-perm x (sort le l)) (Perm.cons x (sort-perm l))

  length-insert : (x : A) (l : List A) → length (insert le x l) ≡ suc (length l)
  unfolding insert
  length-insert x [] = refl
  length-insert x (y ∷ l) = elim (Bool-cases (le x y)) [
    | inl e ↦ rw e refl
    | inr e ↦ rw e (ap suc (length-insert x l))
  ]

  pub length-sort : (l : List A) → length (sort le l) ≡ length l
  unfolding sort
  length-sort [] = refl
  length-sort (x ∷ l) = omega (arith, length-insert x (sort le l), length-sort l)
