-- ===== src/Chunking/Tests.antt =====
-- Runs of `chunk_text`.
use pr_killer.Prelude.{
  zero, suc, ◌≡◌, refl, Bool, true, some, List, [], ◌∷◌, ◌++◌, arith, ◌&&◌, ◌||◌, not,
}
use pr_killer.Text.{Text, codes, is_space}
use pr_killer.Chunking.{new_chunker, is_blank, chunk_text}
use pr_killer.Chunking.Loop.{AllPieces, chunk_text_total}
use pr_killer.Chunking.Kept.{Covers, IsPlain}
use pr_killer.Chunking.Covered.{chunk_text-Covers}

abbrev sample : Text
sample = codes " one two three  four "

abbrev sample_chunks : List Text
sample_chunks = codes "one two" ∷ codes "wo three" ∷ codes "e  four" ∷ []

chunk_sample : chunk_text (new_chunker 10 2) sample ≡ some sample_chunks
unfolding chunk_text new_chunker
chunk_sample = refl

chunk_short : chunk_text (new_chunker 100 2) sample ≡ some (codes "one two three  four" ∷ [])
unfolding chunk_text new_chunker
chunk_short = refl

chunk_empty : chunk_text (new_chunker 100 2) (codes "   ") ≡ some []
unfolding chunk_text new_chunker
chunk_empty = refl

-- Nine no-break spaces at the head of a window, then a space and a word: the word is in no chunk.
abbrev nbsp_gap : Text
nbsp_gap = codes "aaaaaaaaaa" ++ 160 ∷ 160 ∷ 160 ∷ 160 ∷ 160 ∷ codes " lostbbbbbb"

chunk_loses_word :
    chunk_text (new_chunker 10 0) nbsp_gap ≡ some (codes "aaaaaaaaaa" ∷ codes "bbbbbb" ∷ [])
unfolding chunk_text new_chunker
chunk_loses_word = refl

-- Every position of a text is checked by evaluation.
plain_codes : Text → Bool
plain_codes [] = true
plain_codes (c ∷ s) = (not (is_space c) || is_blank c) && plain_codes s

plain_codes-IsPlain : (s : Text) → plain_codes s ≡ true → IsPlain s
unfolding plain_codes
plain_codes-IsPlain [] h i c g e = absurd (cc)
plain_codes-IsPlain (d ∷ s) h zero c g e = ground arith
plain_codes-IsPlain (d ∷ s) h (suc i) c g e = plain_codes-IsPlain s (ground arith) i c g e

sample-IsPlain : IsPlain sample
unfolding plain_codes is_space is_blank
sample-IsPlain = plain_codes-IsPlain sample refl

chunk_text_total_example :
    (cs : List Text) × (chunk_text (new_chunker 10 2) sample ≡ some cs)
    × AllPieces (new_chunker 10 2) cs
chunk_text_total_example = chunk_text_total 10 2 sample

chunk_text-Covers_example : Covers sample 10 sample_chunks
unfolding is_space
chunk_text-Covers_example =
    chunk_text-Covers 10 2 sample sample_chunks sample-IsPlain chunk_sample 10 b'h' refl refl
