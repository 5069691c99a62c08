-- ===== src/Text/Equal.antt =====
-- `==` on texts.
use pr_killer.Prelude.{◌≡◌, refl, true, [], ◌∷◌, arith, ==_refl}
use pr_killer.Text.{Text, text_eq}

pub text_eq_sound : (s t : Text) → text_eq s t ≡ true → s ≡ t
unfolding text_eq
text_eq_sound [] [] h = refl
text_eq_sound [] (d ∷ t) h = absurd (cc)
text_eq_sound (c ∷ s) [] h = absurd (cc)
text_eq_sound (c ∷ s) (d ∷ t) h =
    let tail : text_eq s t ≡ true = ground arith in
    let head : c ≡ d = ground arith in let rest = text_eq_sound s t tail in cc

pub text_eq_refl : (s : Text) → text_eq s s ≡ true
unfolding text_eq
text_eq_refl [] = refl
text_eq_refl (c ∷ s) = rw (==_refl c) (text_eq_refl s)
