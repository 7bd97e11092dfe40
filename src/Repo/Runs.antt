-- ===== src/Repo/Runs.antt =====
-- agent-os/src/adapters/repo.inMemory.ts: the methods on runs.
use nastroyka_claude.Base.{
  eq_text, if◌then◌else◌, ◌≡◌, refl, Option, none, some, Text, arith, eq_text_iff,
}
use nastroyka_claude.Base.Maps
use nastroyka_claude.Base.Maps.{get-set}
use nastroyka_claude.Domain.Types.{Run}
use nastroyka_claude.Repo
use nastroyka_claude.Repo.{Repo}

abbrev pub or_new : Run → Option Run → Run
or_new x none = x
or_new x (some y) = y

create_run_cases :
    (x : Run) (r : Repo) (found : Option Run)
    → Maps.get x.id r.runs ≡ found
    → (j : Text)
    → let (y, r') = Repo.create_run x r in
      (Repo.get_run j r' ≡ (if eq_text x.id j then some y else Repo.get_run j r))
      × (y ≡ or_new x found)
unfolding Repo.create_run Repo.get_run
create_run_cases x r none e j = rw (e, Repo.create_run) (get-set x.id j x r.runs, refl)
create_run_cases x r (some y) e j =
    rw (e, Repo.create_run) (ground (arith, e, eq_text_iff x.id j), refl)

-- Creating a run gives back the run stored under its id before, or the new one where there was none;
-- that run is the one stored under the id afterwards, and every other id has what it had.
pub create_run_lem :
    (x : Run) (r : Repo) (j : Text)
    → let (y, r') = Repo.create_run x r in
      (Repo.get_run j r' ≡ (if eq_text x.id j then some y else Repo.get_run j r))
      × (y ≡ or_new x (Repo.get_run x.id r))
unfolding Repo.get_run
create_run_lem x r = create_run_cases x r (Maps.get x.id r.runs) refl
