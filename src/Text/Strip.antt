-- ===== src/Text/Strip.antt =====
-- `strip` returns a contiguous part of its text that holds every character which is no space.
use pr_killer.Prelude.{
  ℕ, zero, suc, ◌+◌, ◌-◌, ◌≤◌, ◌<◌, ◌≡◌, refl, ap, false, some, [], ◌∷◌, arith, length, get_elem?,
  take, drop, if◌then◌else◌, Bool-cases, inl, inr,
}
use mathlib.Core.Path.{subst}
use pr_killer.Text.Slices.{get_elem?-drop}
use pr_killer.Text.{Text, is_space, lstrip, rstrip, keep_before, strip}

-- How many characters `lstrip` removes.
pub lead : Text → ℕ
lead [] = 0
lead (c ∷ s) = if is_space c then suc (lead s) else 0

lstrip-eq-drop : (s : Text) → lstrip s ≡ drop (lead s) s
unfolding lstrip lead
lstrip-eq-drop [] = refl
lstrip-eq-drop (c ∷ s) = elim (Bool-cases (is_space c)) [
  | inl e ↦ rw e (lstrip-eq-drop s)
  | inr e ↦ rw e refl
]

-- What `rstrip` leaves of a list is a front part of it.
take-keep_before :
    (c : ℕ) (s r : Text)
    → take (length r) s ≡ r
    → take (length (keep_before c r)) (c ∷ s) ≡ keep_before c r
take-keep_before c s [] h = elim (Bool-cases (is_space c)) [ inl e ↦ rw e refl | inr e ↦ rw e refl ]
take-keep_before c s (d ∷ r) h = ap (λ (l : Text). c ∷ l) h

take-rstrip : (s : Text) → take (length (rstrip s)) s ≡ rstrip s
unfolding rstrip
take-rstrip [] = refl
take-rstrip (c ∷ s) = take-keep_before c s (rstrip s) (take-rstrip s)

keep_before-pos : (c : ℕ) (r : Text) → is_space c ≡ false → 0 < length (keep_before c r)
keep_before-pos c [] h = rw h (omega arith)
keep_before-pos c (d ∷ r) h = omega arith

keep_before-lt : (c : ℕ) (r : Text) (i : ℕ) → i < length r → suc i < length (keep_before c r)
keep_before-lt c [] i h = absurd (omega arith)
keep_before-lt c (d ∷ r) i h = omega arith

length-keep_before : (c : ℕ) (r : Text) → length (keep_before c r) ≤ suc (length r)
length-keep_before c [] = elim (Bool-cases (is_space c)) [
  | inl e ↦ rw e (omega arith)
  | inr e ↦ rw e (omega arith)
]
length-keep_before c (d ∷ r) = omega arith

pub length-rstrip : (s : Text) → length (rstrip s) ≤ length s
unfolding rstrip
length-rstrip [] = omega arith
length-rstrip (c ∷ s) = omega (arith, length-keep_before c (rstrip s), length-rstrip s)

rstrip_keeps :
    (s : Text) (i c : ℕ) → get_elem? s i ≡ some c → is_space c ≡ false → i < length (rstrip s)
unfolding rstrip
rstrip_keeps [] i c g h = cc
rstrip_keeps (d ∷ s) zero c g h = keep_before-pos d (rstrip s) (cc)
rstrip_keeps (d ∷ s) (suc i) c g h = keep_before-lt d (rstrip s) i (rstrip_keeps s i c g h)

lead_le : (s : Text) (i c : ℕ) → get_elem? s i ≡ some c → is_space c ≡ false → lead s ≤ i
unfolding lead
lead_le [] i c g h = cc
lead_le (d ∷ s) zero c g h = let e : is_space d ≡ false = cc in rw e (omega arith)
lead_le (d ∷ s) (suc i) c g h = elim (Bool-cases (is_space d)) [
  | inl e ↦ rw e (omega (arith, lead_le s i c g h))
  | inr e ↦ rw e (omega arith)
]

length-lstrip : (s : Text) → length (lstrip s) ≤ length s
unfolding lstrip
length-lstrip [] = omega arith
length-lstrip (c ∷ s) = elim (Bool-cases (is_space c)) [
  | inl e ↦ rw e (omega (arith, length-lstrip s))
  | inr e ↦ rw e (omega arith)
]

pub length-strip : (s : Text) → length (strip s) ≤ length s
unfolding strip
length-strip s = omega (arith, length-rstrip (lstrip s), length-lstrip s)

-- `strip s` is the part of `s` that begins after the leading spaces.
pub strip-eq-take : (s : Text) → take (length (strip s)) (drop (lead s) s) ≡ strip s
unfolding strip
strip-eq-take s = rw (← lstrip-eq-drop s) (take-rstrip (lstrip s))

-- A character that is no space stands inside the part that `strip` returns.
pub strip_keeps :
    (s : Text) (i c : ℕ)
    → get_elem? s i ≡ some c
    → is_space c ≡ false
    → (lead s ≤ i) × (i < lead s + length (strip s))
unfolding strip
strip_keeps s i c g h =
    let low = lead_le s i c g h in
    let at : get_elem? (lstrip s) (i - lead s) ≡ some c =
      rw (lstrip-eq-drop s, get_elem?-drop (lead s) (i - lead s) s)
        (subst (λ k. get_elem? s k ≡ some c) (omega arith) g) in
    (low, omega (arith, rstrip_keeps (lstrip s) (i - lead s) c at h))

lstrip-head : (s r : Text) (c : ℕ) → lstrip s ≡ c ∷ r → is_space c ≡ false
unfolding lstrip
lstrip-head [] r c h = cc
lstrip-head (d ∷ s) r c h = elim (Bool-cases (is_space d)) [
  | inl e ↦ lstrip-head s r c (rw e at h)
  | inr e ↦ let h' : d ∷ s ≡ c ∷ r = rw e at h in cc
]

keep_before-head : (d : ℕ) (r s : Text) (c : ℕ) → keep_before d r ≡ c ∷ s → d ≡ c
keep_before-head d [] s c h = elim (Bool-cases (is_space d)) [
  | inl e ↦ let h' : [] ≡ c ∷ s = rw e at h in cc
  | inr e ↦ let h' : d ∷ [] ≡ c ∷ s = rw e at h in cc
]
keep_before-head d (x ∷ r) s c h = cc

rstrip-head : (s : Text) (c : ℕ) (r : Text) → rstrip s ≡ c ∷ r → (t : Text) × (s ≡ c ∷ t)
unfolding rstrip
rstrip-head [] c r h = absurd (cc)
rstrip-head (d ∷ s) c r h = (s, ap (λ (x : ℕ). x ∷ s) (keep_before-head d (rstrip s) r c h))

-- A stripped text begins with a character that is no space.
pub strip-head : (s : Text) (c : ℕ) → get_elem? (strip s) 0 ≡ some c → is_space c ≡ false
unfolding strip
strip-head s c h = go (rstrip (lstrip s)) refl h
  where
    go : (t : Text) → rstrip (lstrip s) ≡ t → get_elem? t 0 ≡ some c → is_space c ≡ false
    go [] e g = cc
    go (d ∷ t) e g =
        let (u, eq) = rstrip-head (lstrip s) d t e in
        let same : d ≡ c = cc in rw (← same) (lstrip-head s u d eq)
