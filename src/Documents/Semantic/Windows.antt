-- ===== src/Documents/Semantic/Windows.antt =====
-- The windows that a text is cut into for the language model, and the parts that come back.
use pr_killer.Prelude.{
  ℕ, zero, suc, ◌+◌, ◌-◌, ◌≤◌, ◌<◌, ◌≡◌, refl, List, [], ◌∷◌, ◌++◌, arith, leb, length, drop,
  Bool-cases, inl, inr, length-take, length-drop, take-append-drop,
}
use mathlib.Core.List.{append-nil}
use pr_killer.Text.{Text}
use pr_killer.Text.Slices.{drop-drop}
use pr_killer.Documents.Semantic.{window_loop, windows}

-- "".join(parts)
abbrev pub concat : List Text → Text
concat [] = []
concat (t ∷ ts) = t ++ concat ts

abbrev pub AllWithin : ℕ → List Text → Type 0
AllWithin n [] = Unit {0}
AllWithin n (t ∷ ts) = ((0 < length t) × (length t ≤ n)) × AllWithin n ts

drop_all : (n : ℕ) (t : Text) → length t ≤ n → drop n t ≡ []
drop_all zero [] h = refl
drop_all zero (c ∷ t) h = absurd (omega arith)
drop_all (suc n) [] h = refl
drop_all (suc n) (c ∷ t) h = drop_all n t (omega arith)

loop_lem :
    (fuel win i : ℕ) (t : Text)
    → 0 < win
    → length t - i ≤ fuel
    → (concat (window_loop fuel win i t) ≡ drop i t) × AllWithin win (window_loop fuel win i t)
unfolding window_loop
loop_lem zero win i t h f = (rw (drop_all i t (omega arith)) refl, tt)
loop_lem (suc fuel) win i t h f = elim (Bool-cases (leb (length t) i)) [
  | inl e ↦ rw e (rw (drop_all i t (ground arith)) refl, tt)
  | inr e ↦
      let more : i < length t = ground arith in
      let (whole, within) = loop_lem fuel win (i + win) t h (omega arith) in
      let width : (i + win) - i ≡ win = omega arith in
      let len = length-take win (drop i t) in
      let len' = length-drop i t in
      rw e (
        rw width (
          rw whole (rw (← drop-drop win i t) (take-append-drop win (drop i t))),
          ((omega arith, omega arith), within),
        ))
]

-- For a window of at least one character, the windows of a text that is not empty, one after the
-- other, are the text, and each has between one and `window` characters.
pub windows_cut :
    (win : ℕ) (t : Text)
    → 0 < win
    → 0 < length t
    → (concat (windows win t) ≡ t) × AllWithin win (windows win t)
unfolding windows
windows_cut win t h pos = elim (Bool-cases (leb (length t) win)) [
  | inl e ↦ rw e (append-nil t, ((pos, ground arith), tt))
  | inr e ↦ rw e (loop_lem (length t) win 0 t h (omega arith))
]
