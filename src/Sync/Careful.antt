-- ===== src/Sync/Careful.antt =====
-- Steps of the handlers of src/joplin_md_sync/sync.py by what they may change: predicates on a step,
-- and rules for chains of steps.
use joplin_md_sync.Base.{
  ◌≡◌, refl, ◌∙◌, Bool, true, false, Option, none, some, arith, if◌then◌else◌,
}
use joplin_md_sync.Base.Text.{Text}
use joplin_md_sync.Base.Dict.{Dict}
use joplin_md_sync.State.{Store}
use joplin_md_sync.Sync.Run.{was_applied, Outcome, returned, concurrent}
use joplin_md_sync.Sync.Act.{
  created_of, note_rename, note_folder, Reply, value, stop, Files, ExecState, Act, done, give_up,
  of_option, call, stop_if, files_of, store_of, tag_map_of, keep_tag_map, renames_of, change_files,
  commit, and_then, ◌>>=◌, ended,
}

abbrev pub is_applied : Outcome → Bool
is_applied (returned was_applied d) = true
is_applied _ = false

abbrev pub is_concurrent : Outcome → Bool
is_concurrent (concurrent m) = true
is_concurrent _ = false

abbrev pub stopped_applied {ℓ} : {A : Type ℓ} → Reply A → Bool
stopped_applied (value a) = false
stopped_applied (stop o) = is_applied o

abbrev pub stopped_concurrent {ℓ} : {A : Type ℓ} → Reply A → Bool
stopped_concurrent (value a) = false
stopped_concurrent (stop o) = is_concurrent o

module _ {ℓ} {R : Type ℓ} where
  -- A step that changes neither the files nor the database, and does not end as applied.
  pub record Reads {κ} {A : Type κ} (m : Act R A) : Type ℓ where
    pub at :
        (s : ExecState R)
        → ((m s).1.files ≡ s.files) × ((m s).1.store ≡ s.store) × (stopped_applied (m s).0 ≡ false)

  -- A step that may write files, and ends neither as applied nor by a concurrent modification.
  pub record Writes {κ} {A : Type κ} (m : Act R A) : Type ℓ where
    pub at :
        (s : ExecState R)
        → ((m s).1.store ≡ s.store)
          × (stopped_applied (m s).0 ≡ false)
          × (stopped_concurrent (m s).0 ≡ false)

  -- The rest of a handler after its first write.
  pub record Settles (m : Act R Outcome) : Type ℓ where
    pub at :
        (s : ExecState R)
        → (is_applied (ended (m s).0) ≡ false → (m s).1.store ≡ s.store)
          × (is_concurrent (ended (m s).0) ≡ false)

  -- A handler that leaves the database alone unless the operation is applied, and the files where
  -- it ends by a concurrent modification.
  pub record Careful (m : Act R Outcome) : Type ℓ where
    pub at :
        (s : ExecState R)
        → (is_applied (ended (m s).0) ≡ false → (m s).1.store ≡ s.store)
          × (is_concurrent (ended (m s).0) ≡ true → (m s).1.files ≡ s.files)

  pub Settles-Careful : {m : Act R Outcome} → Settles m → Careful m
  Settles-Careful h = record { at = λ s. ((h.at s).0, λ c. absurd (ground (arith, (h.at s).1))) }

  module _ {κ} {A : Type κ} {m : Act R A} where
    pub Reads-bind {μ} :
        {B : Type μ} {k : A → Act R B} → Reads m → ((a : A) → Reads (k a)) → Reads (m >>= k)
    unfolding and_then
    Reads-bind {k = k} h g = record { at = λ s. go s (m s) (h.at s) }
      where
        go :
            (s : ExecState R) (p : Reply A × ExecState R)
            → (p.1.files ≡ s.files) × (p.1.store ≡ s.store) × (stopped_applied p.0 ≡ false)
            → ((and_then k p).1.files ≡ s.files)
              × ((and_then k p).1.store ≡ s.store)
              × (stopped_applied (and_then k p).0 ≡ false)
        go s (value a, t) (f, e, u) = let (f', e', u') = (g a).at t in (f' ∙ f, e' ∙ e, u')
        go s (stop o, t) h' = h'

    pub Careful-bind :
        {k : A → Act R Outcome} → Reads m → ((a : A) → Careful (k a)) → Careful (m >>= k)
    unfolding and_then ended
    Careful-bind {k = k} h g = record { at = λ s. go s (m s) (h.at s) }
      where
        go :
            (s : ExecState R) (p : Reply A × ExecState R)
            → (p.1.files ≡ s.files) × (p.1.store ≡ s.store) × (stopped_applied p.0 ≡ false)
            → (is_applied (ended (and_then k p).0) ≡ false → (and_then k p).1.store ≡ s.store)
              × (is_concurrent (ended (and_then k p).0) ≡ true → (and_then k p).1.files ≡ s.files)
        go s (value a, t) (f, e, u) = (λ c. ((g a).at t).0 c ∙ e, λ c. ((g a).at t).1 c ∙ f)
        go s (stop o, t) (f, e, u) = (λ c. e, λ c. f)

    pub Settles-bind :
        {k : A → Act R Outcome} → Writes m → ((a : A) → Settles (k a)) → Settles (m >>= k)
    unfolding and_then ended
    Settles-bind {k = k} h g = record { at = λ s. go s (m s) (h.at s) }
      where
        go :
            (s : ExecState R) (p : Reply A × ExecState R)
            → (p.1.store ≡ s.store)
              × (stopped_applied p.0 ≡ false)
              × (stopped_concurrent p.0 ≡ false)
            → (is_applied (ended (and_then k p).0) ≡ false → (and_then k p).1.store ≡ s.store)
              × (is_concurrent (ended (and_then k p).0) ≡ false)
        go s (value a, t) (e, u, c) = (λ d. ((g a).at t).0 d ∙ e, ((g a).at t).1)
        go s (stop o, t) (e, u, c) = (λ d. e, c)

    pub Writes-bind {μ} :
        {B : Type μ} {k : A → Act R B} → Writes m → ((a : A) → Writes (k a)) → Writes (m >>= k)
    unfolding and_then
    Writes-bind {k = k} h g = record { at = λ s. go s (m s) (h.at s) }
      where
        go :
            (s : ExecState R) (p : Reply A × ExecState R)
            → (p.1.store ≡ s.store)
              × (stopped_applied p.0 ≡ false)
              × (stopped_concurrent p.0 ≡ false)
            → ((and_then k p).1.store ≡ s.store)
              × (stopped_applied (and_then k p).0 ≡ false)
              × (stopped_concurrent (and_then k p).0 ≡ false)
        go s (value a, t) (e, u, c) = let (e', u', c') = (g a).at t in (e' ∙ e, u', c')
        go s (stop o, t) h' = h'

  module _ {κ} {A : Type κ} where
    pub if-Reads : (b : Bool) (m n : Act R A) → Reads m → Reads n → Reads (if b then m else n)
    if-Reads true m n h k = h
    if-Reads false m n h k = k

    pub done-Reads : (a : A) → Reads (done a)
    unfolding done
    done-Reads a = record { at = λ s. (refl, refl, refl) }

    pub give_up-Reads : (o : Outcome) → is_applied o ≡ false → Reads {A = A} (give_up o)
    unfolding give_up
    give_up-Reads o h = record { at = λ s. (refl, refl, h) }

    pub of_option-Reads :
        (o : Outcome) (x : Option A) → is_applied o ≡ false → Reads (of_option o x)
    unfolding of_option
    of_option-Reads o none h = record { at = λ s. (refl, refl, h) }
    of_option-Reads o (some a) h = record { at = λ s. (refl, refl, refl) }

    pub of_option-Writes :
        (o : Outcome) (x : Option A)
        → is_applied o ≡ false
        → is_concurrent o ≡ false
        → Writes (of_option o x)
    unfolding of_option
    of_option-Writes o none h c = record { at = λ s. (refl, h, c) }
    of_option-Writes o (some a) h c = record { at = λ s. (refl, refl, refl) }

    pub give_up-Writes :
        (o : Outcome) → is_applied o ≡ false → is_concurrent o ≡ false → Writes {A = A} (give_up o)
    unfolding give_up
    give_up-Writes o h c = record { at = λ s. (refl, h, c) }

    -- The client ends no handler as applied: its calls return or raise.
    abbrev pub Honest : (R → Reply A × R) → Type ℓ
    Honest f = (r : R) → stopped_applied (f r).0 ≡ false

    pub call-Reads : (f : R → Reply A × R) → Honest f → Reads (call f)
    unfolding call
    call-Reads f h = record { at = λ s. (refl, refl, h s.remote) }

  pub stop_if-Reads : (b : Bool) (o : Outcome) → is_applied o ≡ false → Reads (stop_if b o)
  unfolding stop_if
  stop_if-Reads true o h = record { at = λ s. (refl, refl, h) }
  stop_if-Reads false o h = record { at = λ s. (refl, refl, refl) }

  pub stop_if-Writes :
      (b : Bool) (o : Outcome)
      → is_applied o ≡ false
      → is_concurrent o ≡ false
      → Writes (stop_if b o)
  unfolding stop_if
  stop_if-Writes true o h c = record { at = λ s. (refl, h, c) }
  stop_if-Writes false o h c = record { at = λ s. (refl, refl, refl) }

  pub files_of-Reads : Reads files_of
  unfolding files_of
  files_of-Reads = record { at = λ s. (refl, refl, refl) }

  pub files_of-Writes : Writes files_of
  unfolding files_of
  files_of-Writes = record { at = λ s. (refl, refl, refl) }

  pub renames_of-Reads : Reads renames_of
  unfolding renames_of
  renames_of-Reads = record { at = λ s. (refl, refl, refl) }

  pub created_of-Reads : Reads created_of
  unfolding created_of
  created_of-Reads = record { at = λ s. (refl, refl, refl) }

  pub note_rename-Writes : (old new : Text) → Writes (note_rename old new)
  unfolding note_rename
  note_rename-Writes old new = record { at = λ s. (refl, refl, refl) }

  pub note_folder-Writes : (rel fid : Text) → Writes (note_folder rel fid)
  unfolding note_folder
  note_folder-Writes rel fid = record { at = λ s. (refl, refl, refl) }

  pub done-Writes {κ} : {A : Type κ} (a : A) → Writes (done a)
  unfolding done
  done-Writes a = record { at = λ s. (refl, refl, refl) }

  pub change_files-Writes : (f : Files → Files) → Writes (change_files f)
  unfolding change_files
  change_files-Writes f = record { at = λ s. (refl, refl, refl) }

  pub store_of-Reads : Reads store_of
  unfolding store_of
  store_of-Reads = record { at = λ s. (refl, refl, refl) }

  pub tag_map_of-Reads : Reads tag_map_of
  unfolding tag_map_of
  tag_map_of-Reads = record { at = λ s. (refl, refl, refl) }

  pub keep_tag_map-Reads : (m : Dict Text Text) → Reads (keep_tag_map m)
  unfolding keep_tag_map
  keep_tag_map-Reads m = record { at = λ s. (refl, refl, refl) }

  pub commit-Settles : (f : Store → Store) (d : Text) → Settles (commit f (returned was_applied d))
  unfolding commit ended
  commit-Settles f d = record { at = λ s. (λ c. cc, refl) }
