-- ===== src/Text/Slices.antt =====
-- Slices of slices, and what stands at a position of a slice.
use native.Mathlib.Nat.{zero-add, suc-add}
use pr_killer.Prelude.{
  ℕ, zero, suc, ◌+◌, ◌≤◌, ◌<◌, ◌≡◌, refl, ap, some, List, [], ◌∷◌, arith, length, get_elem?, take,
  drop,
}

module _ {ℓ} {A : Type ℓ} where
  pub drop_nil : (k : ℕ) → drop {A = A} k [] ≡ []
  drop_nil zero = refl
  drop_nil (suc k) = refl

  pub take_nil : (k : ℕ) → take {A = A} k [] ≡ []
  take_nil zero = refl
  take_nil (suc k) = refl

module _ {ℓ} {A : Type ℓ} where
  pub drop-drop : (a b : ℕ) (s : List A) → drop a (drop b s) ≡ drop (b + a) s
  drop-drop a zero s = rw zero-add
  drop-drop a (suc b) [] = rw suc-add (drop_nil a)
  drop-drop a (suc b) (c ∷ s) = rw suc-add (drop-drop a b s)

  -- A slice of a slice that stays inside it is a slice of the whole.
  pub take-drop-take :
      (a k m : ℕ) (s : List A) → k + a ≤ m → take a (drop k (take m s)) ≡ take a (drop k s)
  take-drop-take zero k m s h = refl
  take-drop-take (suc a) k zero s h = absurd (omega arith)
  take-drop-take (suc a) k (suc m) [] h = rw (drop_nil k)
  take-drop-take (suc a) zero (suc m) (c ∷ s) h =
      ap (λ (l : List A). c ∷ l) (take-drop-take a zero m s (omega arith))
  take-drop-take (suc a) (suc k) (suc m) (c ∷ s) h = take-drop-take (suc a) k m s (omega arith)

  pub get_elem?-drop : (k i : ℕ) (s : List A) → get_elem? (drop k s) i ≡ get_elem? s (k + i)
  get_elem?-drop zero i s = rw zero-add
  get_elem?-drop (suc k) i [] = refl
  get_elem?-drop (suc k) i (c ∷ s) = rw suc-add (get_elem?-drop k i s)

  pub get_elem?-take : (m i : ℕ) (s : List A) → i < m → get_elem? (take m s) i ≡ get_elem? s i
  get_elem?-take zero i s h = absurd (omega arith)
  get_elem?-take (suc m) i [] h = refl
  get_elem?-take (suc m) zero (c ∷ s) h = refl
  get_elem?-take (suc m) (suc i) (c ∷ s) h = get_elem?-take m i s (omega arith)

  pub get_elem?-lt : (s : List A) (i : ℕ) {c : A} → get_elem? s i ≡ some c → i < length s
  get_elem?-lt [] i h = cc
  get_elem?-lt (c ∷ s) zero h = omega arith
  get_elem?-lt (c ∷ s) (suc i) h = omega (arith, get_elem?-lt s i h)

  pub get_elem?-some : (s : List A) (i : ℕ) → i < length s → (c : A) × (get_elem? s i ≡ some c)
  get_elem?-some [] i h = absurd (omega arith)
  get_elem?-some (c ∷ s) zero h = (c, refl)
  get_elem?-some (c ∷ s) (suc i) h = get_elem?-some s i (omega arith)
