-- ===== src/Queue/World.antt =====
-- What the queue's code reads and writes: the tables, the Celery messages that it sends, and the
-- environment of one call (settings, the clock, row locks of other transactions, the broker).
use pr_killer.Prelude.{
  ℕ, ◌+◌, Bool, Option, none, some, List, [], ◌∷◌, ◌++◌, ltb, ◌==◌, if◌then◌else◌,
}
use pr_killer.Text.{Text}
use pr_killer.Queue.Status.{Kind, document, audio}
use pr_killer.Queue.Rows.{Source}

-- The columns of app/models/transcript.py that the queue reads.
pub record Transcript : Type 0 where
  pub id : ℕ
  pub source_audio_id : Option ℕ

-- The tasks that are sent by `.delay` and `.apply_async`; the last carries its countdown.
pub data Message : Type 0 where
  analyse_document : ℕ → Message
  transcribe_audio : ℕ → Message
  drain_project : ℕ → ℕ → Message

pub record World : Type 0 where
  pub documents : List Source
  pub audios : List Source
  pub transcripts : List Transcript
  -- the projects of the rows of project_llm_cache
  pub llm_cache : List ℕ
  pub outbox : List Message
  -- how many messages were offered to the broker
  pub sends : ℕ
  -- the calls of the aggregation service, which catches its own errors
  pub aggregated : List ℕ

pub record Env : Type 0 where
  pub project_queue_enabled : Bool
  pub project_queue_concurrency : ℕ
  pub now : ℕ
  -- the rows that no other transaction has locked, for SKIP LOCKED
  pub free : Kind → ℕ → Bool
  -- whether the broker takes the nth message
  pub accepts : ℕ → Bool
  -- `repr(exc)` of a refused message
  pub refusal : Text

pub data Outcome {ℓ} (A : Type ℓ) : Type ℓ where
  ok : A → Outcome A
  raised : Outcome A

-- What is committed before an exception stays.
abbrev pub M : Type 0 → Type 0
M A = World → Outcome A × World

abbrev pub pure : {A : Type 0} → A → M A
pure a w = (ok a, w)

abbrev pub change : (World → World) → M (Unit {0})
change f w = (ok tt, f w)

abbrev pub continue : {A B : Type 0} → Outcome A → (A → M B) → M B
continue (ok a) f w = f a w
continue raised f w = (raised, w)

infixl 5 ◌>>=◌ ◌>>◌
abbrev pub ◌>>=◌ : {A B : Type 0} → M A → (A → M B) → M B
◌>>=◌ m f w = let (r, w') = m w in continue r f w'

abbrev pub ◌>>◌ : {B : Type 0} → M (Unit {0}) → M B → M B
m >> k = m >>= λ _. k

-- The rows of a kind.
abbrev pub rows : Kind → World → List Source
rows document w = w.documents
rows audio w = w.audios

abbrev pub map_rows : Kind → (List Source → List Source) → World → World
map_rows document f w = record w { documents = f w.documents }
map_rows audio f w = record w { audios = f w.audios }

-- `.delay(...)`: it raises if the broker refuses.
unfoldable pub send : Env → Message → M (Unit {0})
send e m w =
    if e.accepts w.sends
    then (ok tt, record w { sends = w.sends + 1; outbox = w.outbox ++ m ∷ [] })
    else (raised, record w { sends = w.sends + 1 })

-- `if countdown and countdown > 0`
abbrev pub delay_of : Option ℕ → ℕ
delay_of none = 0
delay_of (some c) = if ltb 0 c then c else 0

unfoldable pub schedule_project_processing : Env → ℕ → Option ℕ → M (Unit {0})
unfolding send
schedule_project_processing e p countdown = send e (drain_project p (delay_of countdown))

unfoldable pub get_transcript : ℕ → List Transcript → Option Transcript
get_transcript k [] = none
get_transcript k (t ∷ ts) = if t.id == k then some t else get_transcript k ts

-- `delete(ProjectLlmCache).where(project_id == p)`
unfoldable pub without_project : ℕ → List ℕ → List ℕ
without_project p [] = []
without_project p (q ∷ qs) = let rest = without_project p qs in if q == p then rest else q ∷ rest
