-- ===== src/Queue/Status.antt =====
-- `SourceProcessingStatus` of app/domain/enums.py, and the column that holds it: a string, which is
-- one of the five values exactly, or any other text.
use pr_killer.Prelude.{Bool, true, false, if◌then◌else◌}
use pr_killer.Text.{Text, codes, strip, lower, text_eq}

pub data Status : Type 0 where
  idle pending processing completed failed : Status
  -- a text that is none of the five values; the empty one also stands for None
  unknown : Text → Status

pub data Kind : Type 0 where
  document audio : Kind

-- The status whose value a text is.
unfoldable pub of_text : Text → Status
unfolding text_eq
of_text t =
    if text_eq t (codes "idle")
    then idle
    else if text_eq t (codes "pending")
    then pending
    else if text_eq t (codes "processing")
    then processing
    else if text_eq t (codes "completed")
    then completed
    else if text_eq t (codes "failed")
    then failed
    else unknown t

-- `str(raw or "").strip().lower()`
unfoldable pub normalised : Status → Status
unfolding of_text strip lower
normalised (unknown t) = of_text (lower (strip t))
normalised s = s

abbrev pub is_pending : Status → Bool
is_pending pending = true
is_pending _ = false

abbrev pub is_processing : Status → Bool
is_processing processing = true
is_processing _ = false

-- `processing_status in {PENDING, PROCESSING}`
abbrev pub is_active : Status → Bool
is_active pending = true
is_active processing = true
is_active _ = false

-- `processing_status IN ('idle', 'failed')`
abbrev pub is_idle_or_failed : Status → Bool
is_idle_or_failed idle = true
is_idle_or_failed failed = true
is_idle_or_failed _ = false
