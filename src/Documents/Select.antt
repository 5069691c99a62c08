-- ===== src/Documents/Select.antt =====
-- Rows that are selected or deleted by a test.
use pr_killer.Prelude.{◌≡◌, refl, Bool, List, [], ◌∷◌, ◌++◌, Bool-cases, inl, inr}
use pr_killer.Documents.World.{select_where, delete_where}

module _ {ℓ} {A : Type ℓ} (test : A → Bool) where
  pub select-append :
      (xs ys : List A) → select_where test (xs ++ ys) ≡ select_where test xs ++ select_where test ys
  unfolding select_where
  select-append [] ys = refl
  select-append (x ∷ xs) ys = elim (Bool-cases (test x)) [
    | inl e ↦ rw (e, select-append xs ys) refl
    | inr e ↦ rw (e, select-append xs ys) refl
  ]

  pub delete-append :
      (xs ys : List A) → delete_where test (xs ++ ys) ≡ delete_where test xs ++ delete_where test ys
  unfolding delete_where
  delete-append [] ys = refl
  delete-append (x ∷ xs) ys = elim (Bool-cases (test x)) [
    | inl e ↦ rw (e, delete-append xs ys) refl
    | inr e ↦ rw (e, delete-append xs ys) refl
  ]

  pub select-delete : (xs : List A) → select_where test (delete_where test xs) ≡ []
  unfolding select_where delete_where
  select-delete [] = refl
  select-delete (x ∷ xs) = elim (Bool-cases (test x)) [
    | inl e ↦ rw e (select-delete xs)
    | inr e ↦ rw e (rw e (select-delete xs))
  ]

  pub delete-delete :
      (xs : List A) → delete_where test (delete_where test xs) ≡ delete_where test xs
  unfolding delete_where
  delete-delete [] = refl
  delete-delete (x ∷ xs) = elim (Bool-cases (test x)) [
    | inl e ↦ rw e (delete-delete xs)
    | inr e ↦ rw e (rw (e, delete-delete xs) refl)
  ]
