-- ===== src/AudioTasks/Committed.antt =====
-- What a session leaves.
use pr_killer.Prelude.{◌≡◌, refl, ◌∙◌, Option, none, some, List, [], ◌∷◌, ◌++◌}
use mathlib.Core.List.{append_assoc, append-nil}
use pr_killer.Text.{Text}
use pr_killer.AudioMerge.{Call, AsrWorld}
use pr_killer.AudioTasks.{AsrConfig, make_calls, commit, session}

-- An exception is that of a call.
abbrev pub Refused : AsrConfig → Text → Type 0
Refused c e = (before : List Call) × (m : Call) × (c.refuses before m ≡ some e)

-- All the calls are made, or one of them raises.
abbrev pub Made : AsrConfig → List Call → List Call → Option Text × List Call → Type 0
Made c before ms (none, calls) = calls ≡ before ++ ms
Made c before ms (some e, calls) = Refused c e

pub make_calls-Made :
    (c : AsrConfig) (before ms : List Call) → Made c before ms (make_calls c before ms)
unfolding make_calls
make_calls-Made c before [] = rw append-nil refl
make_calls-Made c before (m ∷ ms) =
    go (c.refuses before m) (make_calls-Made c (before ++ m ∷ []) ms) refl
  where
    step : (r : Option Text × List Call) → Made c (before ++ m ∷ []) ms r → Made c before (m ∷ ms) r
    step (none, calls) h = h ∙ append_assoc before (m ∷ []) ms
    step (some t, calls) h = h

    go :
        (o : Option Text)
        → Made c (before ++ m ∷ []) ms (make_calls c (before ++ m ∷ []) ms)
        → c.refuses before m ≡ o
        → Made c before
            (m ∷ ms)
            (elim o [ none ↦ make_calls c (before ++ m ∷ []) ms | some e ↦ (some e, before) ])
    go none rest e = step (make_calls c (before ++ m ∷ []) ms) rest
    go (some t) rest e = (before, m, e)

-- A session ends with its changes and all its calls, or with the tables it began with.
abbrev pub Committed : AsrConfig → AsrWorld → AsrWorld → Option Text × AsrWorld → Type 0
Committed c w v (none, x) = x ≡ record v { calls = w.calls ++ v.calls }
Committed c w v (some e, x) = (x ≡ record w { calls = x.calls }) × Refused c e

pub session-Committed : (c : AsrConfig) (w v : AsrWorld) → Committed c w v (session c w v)
unfolding session
session-Committed c w v = go (make_calls c w.calls v.calls) (make_calls-Made c w.calls v.calls)
  where
    go : (r : Option Text × List Call) → Made c w.calls v.calls r → Committed c w v (commit w v r)
    go (none, calls) h = rw h refl
    go (some e, calls) h = (refl, h)
