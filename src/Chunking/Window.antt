-- ===== src/Chunking/Window.antt =====
-- Where a window ends and where the next one begins.
use pr_killer.Prelude.{
  ℕ, zero, suc, ◌+◌, ◌-◌, ◌≤◌, ◌<◌, ◌≡◌, refl, Bool, true, false, Option, none, some, [], ◌∷◌,
  arith, length, get_elem?, drop, Bool-cases, inl, inr, length-take, min, ◌==◌, ltb,
}
use pr_killer.Text.{Text, last_of, rfind, slice}
use pr_killer.Text.Slices.{get_elem?-drop}
use pr_killer.Chunking.{
  Chunker, is_blank, shortened, latest, min_break, window_end, skip_blank, resume_at, next_start,
}

last_of_lt :
    (o : Option ℕ) (b : Bool) (n i : ℕ)
    → ((j : ℕ) → o ≡ some j → j < n)
    → last_of o b ≡ some i
    → i < suc n
last_of_lt none true n i h e = ground arith
last_of_lt none false n i h e = cc
last_of_lt (some j) b n i h e = let hj = h j refl in ground arith

rfind_lt : (c : ℕ) (s : Text) (i : ℕ) → rfind c s ≡ some i → i < length s
unfolding rfind
rfind_lt c [] i h = cc
rfind_lt c (x ∷ s) i h = last_of_lt (rfind c s) (x == c) (length s) i (rfind_lt c s) h

shortened_bounds :
    (k : Chunker) (start end : ℕ) (a b : Option ℕ)
    → start < end
    → ((i : ℕ) → a ≡ some i → start + i ≤ end)
    → ((i : ℕ) → b ≡ some i → start + i ≤ end)
    → (start < shortened (min_break k) start end (latest a b))
      × (shortened (min_break k) start end (latest a b) ≤ end)
shortened_bounds k start end none none h p q = (h, omega arith)
shortened_bounds k start end none (some j) h p q = let qj = q j refl in ground arith
shortened_bounds k start end (some i) none h p q = let pi = p i refl in ground arith
shortened_bounds k start end (some i) (some j) h p q =
    let pi = p i refl in let qj = q j refl in ground arith

length-slice : (a b : ℕ) (s : Text) → length (slice a b s) ≤ b - a
length-slice a b s = omega (arith, length-take (b - a) (drop a s))

rfind-slice : (c a b : ℕ) (s : Text) → a ≤ b → (i : ℕ) → rfind c (slice a b s) ≡ some i → a + i ≤ b
rfind-slice c a b s h i e = omega (arith, rfind_lt c (slice a b s) i e, length-slice a b s)

-- A window is not empty, and stays in the text and below the limit.
pub window_end_bounds :
    (k : Chunker) (text : Text) (start : ℕ)
    → 0 < k.max_chars
    → start < length text
    → (start < window_end k text start)
      × (window_end k text start ≤ length text)
      × (window_end k text start ≤ start + k.max_chars)
unfolding window_end
window_end_bounds k text start m h =
    let n = length text in
    let end : ℕ = min n (start + k.max_chars) in
    let b : start < end = omega arith in
    let le : start ≤ end = omega arith in
    let cut =
      shortened_bounds k start end (rfind 32 (slice start end text))
        (rfind 10 (slice start end text)) b (rfind-slice 32 start end text le)
        (rfind-slice 10 start end text le) in
    elim (Bool-cases (ltb end n)) [ inl e ↦ rw e (omega (arith, cut)) | inr e ↦ rw e (omega arith) ]

-- The skip passes blanks only, and stops at the end or at a character that is not blank.
pub skip_blank_le : (s : Text) (i : ℕ) → i ≤ skip_blank s i
unfolding skip_blank
skip_blank_le [] i = omega arith
skip_blank_le (c ∷ s) i = elim (Bool-cases (is_blank c)) [
  | inl e ↦ rw e (omega (arith, skip_blank_le s (i + 1)))
  | inr e ↦ rw e (omega arith)
]

pub skip_blank_stops :
    (s : Text) (i c : ℕ) → get_elem? s (skip_blank s i - i) ≡ some c → is_blank c ≡ false
unfolding skip_blank
skip_blank_stops [] i c h = cc
skip_blank_stops (d ∷ s) i c h = elim (Bool-cases (is_blank d)) [
  | inl e ↦
      let h' : get_elem? (d ∷ s) (skip_blank s (i + 1) - i) ≡ some c = rw e at h in
      let t : skip_blank s (i + 1) - i ≡ suc (skip_blank s (i + 1) - (i + 1)) =
        omega (arith, skip_blank_le s (i + 1)) in
      skip_blank_stops s (i + 1) c (rw t at h')
  | inr e ↦
      let h' : get_elem? (d ∷ s) (i - i) ≡ some c = rw e at h in
      let z : i - i ≡ 0 = omega arith in let h'' : get_elem? (d ∷ s) 0 ≡ some c = rw z at h' in cc
]

pub skip_blank_passes :
    (s : Text) (i j c : ℕ) → i + j < skip_blank s i → get_elem? s j ≡ some c → is_blank c ≡ true
unfolding skip_blank
skip_blank_passes [] i j c h g = cc
skip_blank_passes (d ∷ s) i zero c h g = elim (Bool-cases (is_blank d)) [
  | inl e ↦ let same : d ≡ c = cc in rw same at e
  | inr e ↦ let h' : i + 0 < i = rw e at h in absurd (omega arith)
]
skip_blank_passes (d ∷ s) i (suc j) c h g = elim (Bool-cases (is_blank d)) [
  | inl e ↦
      let h' : i + suc j < skip_blank s (i + 1) = rw e at h in
      skip_blank_passes s (i + 1) j c (omega arith) g
  | inr e ↦ let h' : i + suc j < i = rw e at h in absurd (omega arith)
]

resume_at_bounds :
    (k : Chunker) (start end : ℕ)
    → start < end
    → (start < resume_at k start end) × (resume_at k start end ≤ end)
unfolding resume_at
resume_at_bounds k start end h = ground arith

-- The next window begins after this one, at a character that is not blank, and only blanks stand
-- between the end of this one and it.
module _ (k : Chunker) (text : Text) (start end : ℕ) (h : start < end) where
  pub next_start_gt : start < next_start k text start end
  unfolding next_start
  next_start_gt = omega (
    arith,
    resume_at_bounds k start end h,
    skip_blank_le (drop (resume_at k start end) text) (resume_at k start end),
  )

  pub next_start_stops :
      (c : ℕ) → get_elem? text (next_start k text start end) ≡ some c → is_blank c ≡ false
  unfolding next_start
  next_start_stops c g =
      let from = resume_at k start end in
      let next = skip_blank (drop from text) from in
      let low = skip_blank_le (drop from text) from in
      let at : from + (next - from) ≡ next = omega arith in
      skip_blank_stops (drop from text) from c (rw (get_elem?-drop from (next - from) text, at) g)

  pub next_start_passes :
      (i c : ℕ)
      → end ≤ i
      → i < next_start k text start end
      → get_elem? text i ≡ some c
      → is_blank c ≡ true
  unfolding next_start
  next_start_passes i c low high g =
      let from = resume_at k start end in
      let b = resume_at_bounds k start end h in
      let at : from + (i - from) ≡ i = omega arith in
      skip_blank_passes (drop from text) from (i - from) c (rw at high)
        (rw (get_elem?-drop from (i - from) text, at) g)
