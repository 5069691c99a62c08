-- ===== src/AudioSplit/Raises.antt =====
-- What the split returns with the settings that there are.
use pr_killer.Prelude.{ℕ, ◌≡◌, refl, Option, none, some}
use pr_killer.AudioSplit.{
  Media, SplitSettings, Attribute, overlap_attribute, chunk_attribute, effective_chunk_attribute,
  attribute_error, error, split_audio_into_segment_files,
}

-- The split always raises: an attribute that it reads is missing.
pub split_raises :
    (m : ℕ → Media) (st : SplitSettings) (chunk overlap : Option ℕ)
    → (name : Attribute) × (split_audio_into_segment_files m st chunk overlap
        ≡ some (error (attribute_error name)))
unfolding split_audio_into_segment_files
split_raises m st chunk none = (overlap_attribute, refl)
split_raises m st none (some n) = (chunk_attribute, refl)
split_raises m st (some k) (some n) = (effective_chunk_attribute, refl)
