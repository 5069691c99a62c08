-- ===== src/AudioSplit/Tests.antt =====
-- A recording of a hundred and fifty seconds.
use pr_killer.Prelude.{◌-◌, ◌*◌, ◌≡◌, refl, none, some, List, [], ◌∷◌, arith}
use pr_killer.Queue.Pick.Sound.{All}
use pr_killer.AudioSplit.{
  Media, Limits, Segment, ok, error, attribute_error, overlap_attribute, build_segment_plan,
  attempts, split_audio_into_segment_files,
}
use pr_killer.AudioSplit.Covered.{IsCovered, build-IsCovered, IsGood, build-IsGood}
use pr_killer.AudioSplit.Ends.{Returns, build-Returns}

-- A file of eight bytes for each millisecond.
abbrev recording : Media
recording = record { duration = some 150000; encode = λ idx start stop. some ((stop - start) * 8) }

abbrev limits : Limits
limits = record { chunk_ms = 60000; overlap_ms = 1000; max_segment_bytes = 500000 }

abbrev plan : List Segment
plan =
    record { segment_index = 0; start_ms = 0; end_ms = 61000 }
    ∷ record { segment_index = 1; start_ms = 59000; end_ms = 121000 }
    ∷ record { segment_index = 2; start_ms = 119000; end_ms = 150000 }
    ∷ []

one_pass : build_segment_plan recording limits ≡ some (ok plan)
unfolding build_segment_plan
one_pass = refl

-- The first attempt writes too large a file, and the second one fits.
halved :
    attempts
      (λ n. recording)
      12
      (record { chunk_ms = 100000; overlap_ms = 1000; max_segment_bytes = 500000 })
    ≡ some (ok plan)
unfolding attempts
halved = refl

attribute_missing :
    split_audio_into_segment_files
      (λ n. recording)
      (record { transcription_max_segment_bytes = 500000 })
      none
      none
    ≡ some (error (attribute_error overlap_attribute))
unfolding split_audio_into_segment_files
attribute_missing = refl

build-IsCovered_example : IsCovered plan 60500
build-IsCovered_example =
    build-IsCovered recording limits 150000 plan refl one_pass 60500 (omega arith)

build-IsGood_example : All (IsGood recording limits 150000) plan
build-IsGood_example = build-IsGood recording limits 150000 plan refl one_pass

build-Returns_example : Returns (build_segment_plan recording limits)
build-Returns_example = build-Returns recording limits
