-- ===== src/Text/Ink.antt =====
-- Texts that are not blank: some character is no space.
use pr_killer.Prelude.{
  ℕ, zero, suc, ◌+◌, ◌≤◌, ◌<◌, ◌≡◌, refl, ap, false, some, [], ◌∷◌, ◌++◌, arith, drop, take, length,
  get_elem?,
}
use pr_killer.Text.{Text, strip, is_empty, is_space}
use pr_killer.Text.Slices.{get_elem?-drop, get_elem?-take, get_elem?-lt}
use pr_killer.Text.Strip.{lead, strip-eq-take, strip_keeps, strip-head}

-- A stripped text is the part of the whole that begins after the leading spaces.
pub get_elem?-strip :
    (raw : Text) (i c : ℕ)
    → get_elem? (strip raw) i ≡ some c
    → get_elem? raw (lead raw + i) ≡ some c
get_elem?-strip raw i c g =
    let part : take (length (strip raw)) (drop (lead raw) raw) ≡ strip raw = strip-eq-take raw in
    let lt = get_elem?-lt (strip raw) i g in
    rw (← get_elem?-drop (lead raw) i raw)
      (rw (← get_elem?-take (length (strip raw)) i (drop (lead raw) raw) lt) (rw part g))

-- A text with a character that is no space.
abbrev pub HasInk : Text → Type 0
HasInk t = is_empty (strip t) ≡ false

pub ink_of : (t : Text) (i c : ℕ) → get_elem? t i ≡ some c → is_space c ≡ false → HasInk t
ink_of t i c g n = go (strip t) (strip_keeps t i c g n)
  where
    go : (s : Text) → (lead t ≤ i) × (i < lead t + length s) → is_empty s ≡ false
    go [] h = absurd (omega arith)
    go (d ∷ s) h = refl

pub ink_at :
    (t : Text) → HasInk t → (i : ℕ) × (c : ℕ) × (get_elem? t i ≡ some c) × (is_space c ≡ false)
ink_at t h = go (strip t) refl h
  where
    go :
        (s : Text)
        → strip t ≡ s
        → is_empty s ≡ false
        → (i : ℕ) × (c : ℕ) × (get_elem? t i ≡ some c) × (is_space c ≡ false)
    go [] e n = absurd (cc)
    go (c ∷ s) e n =
        let at : get_elem? (strip t) 0 ≡ some c = ap (λ (u : Text). get_elem? u 0) e in
        (lead t + 0, c, get_elem?-strip t 0 c at, strip-head t c at)

pub get_elem?-left : (s t : Text) (i c : ℕ) → get_elem? s i ≡ some c → get_elem? (s ++ t) i ≡ some c
get_elem?-left [] t i c g = absurd (cc)
get_elem?-left (d ∷ s) t zero c g = g
get_elem?-left (d ∷ s) t (suc i) c g = get_elem?-left s t i c g

pub ink-append : (s t : Text) → HasInk s → HasInk (s ++ t)
ink-append s t h = let (i, c, g, n) = ink_at s h in ink_of (s ++ t) i c (get_elem?-left s t i c g) n

pub strip-HasInk : (t : Text) → HasInk t → HasInk (strip t)
strip-HasInk t h = go (strip t) refl h
  where
    go : (s : Text) → strip t ≡ s → is_empty s ≡ false → HasInk (strip t)
    go [] e n = absurd (cc)
    go (c ∷ s) e n =
        let at : get_elem? (strip t) 0 ≡ some c = ap (λ (u : Text). get_elem? u 0) e in
        ink_of (strip t) 0 c at (strip-head t c at)
