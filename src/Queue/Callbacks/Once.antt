-- ===== src/Queue/Callbacks/Once.antt =====
-- The second of two reports about a document changes nothing.
use pr_killer.Prelude.{ℕ, ◌≡◌, refl, Bool, true, false, Option, none, some}
use pr_killer.Text.{Text}
use pr_killer.Queue.Status.{is_active}
use pr_killer.Queue.Rows.{Source}
use pr_killer.Queue.World.{World}
use pr_killer.Queue.Finalize.{finish_row}

-- No row of this key is waited for.
abbrev pub IsSettled : Option Source → Type 0
IsSettled none = Unit {0}
IsSettled (some r) = is_active r.processing_status ≡ false

pub finish_row-id :
    (b : Bool) (now : ℕ) (message : Text) (r : Source) → (finish_row b now message r).id ≡ r.id
unfolding finish_row
finish_row-id true now message r = refl
finish_row-id false now message r = refl
