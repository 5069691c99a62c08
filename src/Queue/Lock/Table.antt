-- ===== src/Queue/Lock/Table.antt =====
-- A Redis that is a table of tokens: the interface can be filled, and runs can be evaluated.
use pr_killer.Prelude.{ℕ, refl, Bool, true, false, Option, none, some, ◌==◌, ==_refl, if◌then◌else◌}
use pr_killer.Queue.Lock.{Redis, Reachable}

abbrev pub Table : Type 0
Table = ℕ → Option ℕ

abbrev put : ℕ → Option ℕ → Table → Table
put k v s j = if j == k then v else s j

abbrev set_nx_as : ℕ → ℕ → Option ℕ → Table → Table × Bool
set_nx_as k t none s = (put k (some t) s, true)
set_nx_as k t (some u) s = (s, false)

abbrev pub table_redis : Redis
table_redis = record {
  State = Table;
  get = λ k s. s k;
  set_nx = λ k t s. set_nx_as k t (s k) s;
  del = λ k s. put k none s;
  set_nx_free = λ k t s free. rw free (refl, rw (==_refl k) refl);
  set_nx_taken = λ k t u s taken. rw taken (refl, taken);
  get-del = λ k s. rw (==_refl k) refl;
}

abbrev pub reached : Reachable
reached = record { client = true; command = true }

abbrev pub no_keys : Table
no_keys k = none
