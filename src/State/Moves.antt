-- ===== src/State/Moves.antt =====
-- `move_prefix` of state.py on a stored path, against the rename that the run itself applies.
use mathlib.Core.List.{append_assoc}
use native.Mathlib.Numerals.{add-one}
use joplin_md_sync.Base.{
  ℕ, suc, ◌+◌, ◌≡◌, refl, sym, ap, ◌∙◌, Bool, true, false, [], ◌∷◌, ◌++◌, ◌==◌, nat_eq, list_eq,
  arith, if◌then◌else◌, Bool-cases, inl, inr,
}
use joplin_md_sync.Base.Text.{Text, text, length, drop, starts_with}
use joplin_md_sync.State.{move_below, move_itself, move_path}
use joplin_md_sync.State.Like.{starts_with_ci, same_letter, like-like_escape}

-- One step of `Executor.current_path`: a rename of a directory, on one path.
unfoldable pub rename_path : Text → Text → Text → Text
rename_path old new path =
    if path == old
    then new
    else if starts_with path (old ++ text "/")
    then new ++ drop (length old) path
    else path

-- The rest of a path below a prefix.
drop-starts_with :
    (old path : Text)
    → starts_with path (old ++ text "/") ≡ true
    → drop (length old) path ≡ text "/" ++ drop (suc (length old)) path
unfolding starts_with drop text
drop-starts_with [] [] h = cc
drop-starts_with [] (c ∷ path) h = ground arith
drop-starts_with (x ∷ old) [] h = cc
drop-starts_with (x ∷ old) (c ∷ path) h = drop-starts_with old path (ground arith)

starts_with-ci : (s p : Text) → starts_with s p ≡ true → starts_with_ci s p ≡ true
unfolding starts_with starts_with_ci same_letter
starts_with-ci s [] h = refl
starts_with-ci [] (x ∷ p) h = cc
starts_with-ci (c ∷ s) (x ∷ p) h = ground (arith, starts_with-ci s p)

not-starts_with_self : (s t : Text) (c : ℕ) → starts_with s (s ++ (c ∷ t)) ≡ false
unfolding starts_with
not-starts_with_self [] t c = refl
not-starts_with_self (x ∷ s) t c = ground (arith, not-starts_with_self s t c)

starts_with-append : (s t : Text) → starts_with (s ++ t) s ≡ true
unfolding starts_with
starts_with-append [] t = refl
starts_with-append (x ∷ s) t = ground (arith, starts_with-append s t)

-- The prefix is not taken for a path below itself.
not_below_itself :
    (old path : Text) → starts_with path (old ++ text "/") ≡ true → (path == old) ≡ false
unfolding text
not_below_itself old path h = ground (arith, not-starts_with_self old [] 47)

-- What is put under `new` is not `old`, unless `old` stands below `new`.
not_moved_to_old :
    (old new rest : Text)
    → starts_with old (new ++ text "/") ≡ false
    → ((new ++ (text "/" ++ rest)) == old) ≡ false
not_moved_to_old old new rest h =
    let below : starts_with (new ++ (text "/" ++ rest)) (new ++ text "/") ≡ true =
      rw (← append_assoc new (text "/") rest) (starts_with-append (new ++ text "/") rest) in
    go (new ++ (text "/" ++ rest)) below
  where
    go : (p : Text) → starts_with p (new ++ text "/") ≡ true → (p == old) ≡ false
    go p b = ground arith

-- `move_prefix` puts a stored path that begins with the old directory and a slash, up to the case
-- of ASCII letters, below the new directory, turns the old directory itself into the new one, and
-- leaves every other path alone. Condition: the old directory does not lie below the new one.
pub move_path_lem :
    (old new path : Text)
    → starts_with old (new ++ text "/") ≡ false
    → move_path old new path ≡ (
        if starts_with_ci path (old ++ text "/")
        then new ++ (text "/" ++ drop (length old + 1) path)
        else if path == old
        then new
        else path)
unfolding move_path move_below move_itself
move_path_lem old new path h = rw like-like_escape (go (starts_with_ci path (old ++ text "/")))
  where
    go :
        (b : Bool)
        → (if (if b then new ++ (text "/" ++ drop (length old + 1) path) else path) == old
            then new
            else if b
            then new ++ (text "/" ++ drop (length old + 1) path)
            else path)
          ≡ (if b
              then new ++ (text "/" ++ drop (length old + 1) path)
              else if path == old
              then new
              else path)
    go true = rw (not_moved_to_old old new (drop (length old + 1) path) h)
    go false = refl

-- `move_prefix` changes a stored path as the run's own `current_path` does. Conditions: the old
-- directory does not lie below the new one, and the path lies below the old directory exactly if
-- it does so up to the case of ASCII letters.
pub move_path-eq-rename_path :
    (old new path : Text)
    → starts_with old (new ++ text "/") ≡ false
    → starts_with_ci path (old ++ text "/") ≡ starts_with path (old ++ text "/")
    → move_path old new path ≡ rename_path old new path
unfolding rename_path
move_path-eq-rename_path old new path h same =
    rw (move_path_lem old new path h, same)
      (elim (Bool-cases (starts_with path (old ++ text "/"))) [
        | inl below ↦
            rw (below, not_below_itself old path below)
              (ap (λ r. new ++ r)
                (ap (λ n. text "/" ++ drop n path) (add-one (length old))
                  ∙ sym (drop-starts_with old path below)))
        | inr other ↦ rw other
      ])
