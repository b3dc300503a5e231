-- ===== src/State/Runs.antt =====
-- Runs in src/joplin_md_sync/state.py: which are in progress, and closing one.
use joplin_md_sync.Base.{
  ◌≡◌, refl, ◌∙◌, true, map_some, List, [], ◌∷◌, map, ◌==◌, contains, nat_eq, list_eq, leb, arith,
  if◌then◌else◌,
}
use joplin_md_sync.Base.Text.{Text}
use joplin_md_sync.Base.Dict.{Dict, lookup, values}
use joplin_md_sync.Base.Sort.{sort, contains-map-sort}
use joplin_md_sync.State.{
  Store, RunRow, RunStatus, recovered, update_row, run_is_open, rows_where, incomplete_runs,
}

pub lookup-update_row {ℓ} :
    {V : Type ℓ} (k j : Text) (f : V → V) (d : Dict Text V)
    → lookup j (update_row k f d) ≡ (if j == k then map_some f (lookup j d) else lookup j d)
unfolding lookup update_row
lookup-update_row k j f [] = ground arith
lookup-update_row k j f ((i, v) ∷ d) = ground (arith, lookup-update_row k j f d)

-- The rows stand under their primary keys.
abbrev pub KeysAgree : Dict Text RunRow → Type 0
KeysAgree [] = Unit
KeysAgree ((k, r) ∷ d) = (k ≡ r.run_id) × KeysAgree d

-- Only the runs with these ids are in progress.
abbrev pub OpenOnly : List Text → Dict Text RunRow → Type 0
OpenOnly ids [] = Unit
OpenOnly ids ((k, r) ∷ d) = (run_is_open r ≡ true → contains ids k ≡ true) × OpenOnly ids d

abbrev close : RunRow → RunRow
close r = record r { status = recovered }

pub finish-KeysAgree :
    (id : Text) (s : RunStatus) (d : Dict Text RunRow)
    → KeysAgree d
    → KeysAgree (update_row id (λ (r : RunRow). record r { status = s }) d)
unfolding update_row
finish-KeysAgree id s [] h = tt
finish-KeysAgree id s ((k, r) ∷ d) h = (ground arith, finish-KeysAgree id s d h.1)

pub close-OpenOnly :
    (id : Text) (ids : List Text) (d : Dict Text RunRow)
    → OpenOnly (id ∷ ids) d
    → OpenOnly ids (update_row id close d)
unfolding update_row
close-OpenOnly id ids [] h = tt
close-OpenOnly id ids ((k, r) ∷ d) h = (λ o. ground arith, close-OpenOnly id ids d h.1)

no_rows_open : (d : Dict Text RunRow) → OpenOnly [] d → rows_where run_is_open (values d) ≡ []
unfolding rows_where values
no_rows_open [] h = refl
no_rows_open ((k, r) ∷ d) h = ground (arith, no_rows_open d h.1)

pub incomplete_runs-nil : (s : Store) → OpenOnly [] s.runs → incomplete_runs s ≡ []
unfolding incomplete_runs sort
incomplete_runs-nil s h = rw (no_rows_open s.runs h)

contains-rows_where :
    (r : RunRow) (rs : List RunRow)
    → run_is_open r ≡ true
    → contains (map (λ x. x.run_id) (rows_where run_is_open (r ∷ rs))) r.run_id ≡ true
unfolding rows_where
contains-rows_where r rs h = ground arith

-- The ids under `incomplete_runs` are those of all runs in progress.
OpenOnly-rows_where :
    (ids : List Text) (d : Dict Text RunRow)
    → KeysAgree d
    → ((x : Text)
        → contains (map (λ r. r.run_id) (rows_where run_is_open (values d))) x ≡ true
        → contains ids x ≡ true)
    → OpenOnly ids d
unfolding rows_where values
OpenOnly-rows_where ids [] k h = tt
OpenOnly-rows_where ids ((j, r) ∷ d) k h =
    (λ o. h j (ground arith), OpenOnly-rows_where ids d k.1 (λ x c. h x (ground arith)))

pub OpenOnly-incomplete_runs :
    (s : Store) → KeysAgree s.runs → OpenOnly (map (λ r. r.run_id) (incomplete_runs s)) s.runs
unfolding incomplete_runs
OpenOnly-incomplete_runs s k = OpenOnly-rows_where _ s.runs k (λ x c.
    contains-map-sort (λ (r : RunRow). r.run_id) (λ a b. leb a.started_time b.started_time) x
      (rows_where run_is_open (values s.runs))
    ∙ c)
