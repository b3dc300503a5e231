-- ===== src/Sync/Verified.antt =====
-- What a step of a handler of src/joplin_md_sync/sync.py has found when the next one runs: rules for
-- chains of steps, and what `_guard_remote` lets through.
use joplin_md_sync.Base.{
  ◌≡◌, refl, sym, ap, Bool, true, false, not, Option, none, some, map_some, OnSome, List, ◌||◌,
  ◌==◌, arith, nat_eq, list_eq, option_eq, Eq, if◌then◌else◌,
}
use joplin_md_sync.Base.Text.{Text, text_leb, text_leb_total}
use joplin_md_sync.Base.Sort.{sort, sort-IsSorted, sort_of_IsSorted}
use joplin_md_sync.Runtime.{Runtime}
use joplin_md_sync.Canonical.{canonicalize_tags, clean_tags}
use joplin_md_sync.Models.{RemoteNote, PlanOperation}
use joplin_md_sync.State.{Store}
use joplin_md_sync.Journal.{truthy}
use joplin_md_sync.Planner.Draft.{combined_remote}
use joplin_md_sync.Sync.Run.{Outcome}
use joplin_md_sync.Sync.Act.{
  Reply, value, stop, RawNote, Env, ExecState, Act, done, call, of_option, stop_if, commit,
  and_then, ◌>>=◌, ended,
}
use joplin_md_sync.Sync.Guards.{
  tag_titles, canonical_note, found_note, fetch_remote_canonical, fetch_if_named, guard_remote,
}
use joplin_md_sync.Sync.Careful.{is_applied, stopped_applied, Reads, Writes, call-Reads}
use joplin_md_sync.Sync.Honest.{IsHonest}

abbrev pub OnReply {ℓ} : {A : Type ℓ} → (A → Type 0) → Reply A → Type 0
OnReply Q (value a) = Q a
OnReply Q (stop o) = is_applied o ≡ false

unfinished-OnReply {ℓ} :
    {A : Type ℓ} (r : Reply A) → stopped_applied r ≡ false → OnReply (λ a. Unit) r
unfinished-OnReply (value a) h = tt
unfinished-OnReply (stop o) h = h

module _ {ℓ} {R : Type ℓ} where
  -- What holds of the value that a step goes on with.
  pub record Yields {κ} {A : Type κ} (m : Act R A) (Q : A → Type 0) : Type ℓ where
    pub at : (s : ExecState R) → OnReply Q (m s).0

  -- What holds of the database after an operation that is applied.
  pub record Ends (m : Act R Outcome) (P : Store → Type 0) : Type ℓ where
    pub at : (s : ExecState R) → is_applied (ended (m s).0) ≡ true → P (m s).1.store

  module _ {κ} {A : Type κ} {m : Act R A} where
    pub Reads-Yields : Reads m → Yields m (λ a. Unit)
    Reads-Yields h = record { at = λ s. unfinished-OnReply (m s).0 (h.at s).2 }

    pub Writes-Yields : Writes m → Yields m (λ a. Unit)
    Writes-Yields h = record { at = λ s. unfinished-OnReply (m s).0 (h.at s).1 }

    pub Ends-bind :
        {Q : A → Type 0} {P : Store → Type 0} {k : A → Act R Outcome}
        → Yields m Q
        → ((a : A) → Q a → Ends (k a) P)
        → Ends (m >>= k) P
    unfolding and_then ended
    Ends-bind {Q = Q} {P = P} {k = k} h g = record { at = λ s. go (m s) (h.at s) }
      where
        go :
            (p : Reply A × ExecState R)
            → OnReply Q p.0
            → is_applied (ended (and_then k p).0) ≡ true
            → P (and_then k p).1.store
        go (value a, t) q c = (g a q).at t c
        go (stop o, t) q c = absurd (ground arith)

    pub Yields-bind {μ} :
        {B : Type μ} {Q : A → Type 0} {Q' : B → Type 0} {k : A → Act R B}
        → Yields m Q
        → ((a : A) → Q a → Yields (k a) Q')
        → Yields (m >>= k) Q'
    unfolding and_then
    Yields-bind {Q = Q} {Q' = Q'} {k = k} h g = record { at = λ s. go (m s) (h.at s) }
      where
        go : (p : Reply A × ExecState R) → OnReply Q p.0 → OnReply Q' (and_then k p).0
        go (value a, t) q = (g a q).at t
        go (stop o, t) q = q

  pub commit-Ends :
      {P : Store → Type 0} (f : Store → Store) (o : Outcome)
      → ((s : Store) → P (f s))
      → Ends (commit f o) P
  unfolding commit
  commit-Ends f o h = record { at = λ s c. h s.store }

  pub stop_if-Yields :
      (b : Bool) (o : Outcome) → is_applied o ≡ false → Yields (stop_if b o) (λ u. b ≡ false)
  unfolding stop_if
  stop_if-Yields true o h = record { at = λ s. h }
  stop_if-Yields false o h = record { at = λ s. refl }

  pub of_option-Yields {κ} :
      {A : Type κ} (o : Outcome) (x : Option A) (Q : A → Type 0)
      → is_applied o ≡ false
      → OnSome Q x
      → Yields (of_option o x) Q
  unfolding of_option
  of_option-Yields o none Q h q = record { at = λ s. h }
  of_option-Yields o (some a) Q h q = record { at = λ s. q }

  pub done-Yields {κ} : {A : Type κ} (a : A) (Q : A → Type 0) → Q a → Yields (done a) Q
  unfolding done
  done-Yields a Q h = record { at = λ s. h }

-- A note that a guard has read: it is the one of the operation, and has the planned hash.
pub record IsFetched (rt : Runtime) (o : PlanOperation) (r : RemoteNote) : Type 0 where
  pub named : truthy o.note_id ≡ some r.id
  pub hashed : some (combined_remote rt r) ≡ o.expected_remote_hash
  pub sorted : sort text_leb r.tags ≡ r.tags

is_equal {ℓ} : {A : Type ℓ} ⦃e : Eq A⦄ (x y : A) → not (x == y) ≡ false → x ≡ y
is_equal x y h = ground arith

canonicalize_tags-sorted :
    (rt : Runtime) (ts : List Text)
    → sort text_leb (canonicalize_tags rt ts) ≡ canonicalize_tags rt ts
unfolding canonicalize_tags
canonicalize_tags-sorted rt ts =
    sort_of_IsSorted text_leb _ (sort-IsSorted text_leb text_leb_total (clean_tags rt ts))

-- What is asked of a note read by its id.
abbrev IsNamed : Text → RemoteNote → Type 0
IsNamed nid r = (r.id ≡ nid) × (sort text_leb r.tags ≡ r.tags)

module _ {ℓ} {R : Type ℓ} (env : Env R) (honest : IsHonest env.client) where
  found_note-Yields :
      (nid : Text) (raw : Option RawNote) → Yields (found_note env nid raw) (OnSome (IsNamed nid))
  unfolding found_note canonical_note
  found_note-Yields nid none = done-Yields none _ tt
  found_note-Yields nid (some raw) = go (raw.is_deleted || raw.is_conflict)
    where
      rest : Act R (Option RemoteNote)
      rest = call (env.client.list_note_tags nid) >>= λ tags.
          done (some (canonical_note env nid raw (tag_titles tags)))

      yields : Yields rest (OnSome (IsNamed nid))
      yields = Yields-bind (Reads-Yields (call-Reads _ (honest.on_list_note_tags nid))) (λ tags u.
          done-Yields _ (OnSome (IsNamed nid))
            (refl, canonicalize_tags-sorted env.rt (tag_titles tags)))

      go : (b : Bool) → Yields (if b then done none else rest) (OnSome (IsNamed nid))
      go true = done-Yields none (OnSome (IsNamed nid)) tt
      go false = yields

  fetch_remote_canonical-Yields :
      (nid : Text) → Yields (fetch_remote_canonical env nid) (OnSome (IsNamed nid))
  unfolding fetch_remote_canonical
  fetch_remote_canonical-Yields nid =
      Yields-bind (Reads-Yields (call-Reads _ (honest.on_get_note nid)))
        (λ raw u. found_note-Yields nid raw)

  fetch_if_named-Yields :
      (n : Option Text)
      → Yields
          (fetch_if_named env n)
          (OnSome (λ r. (n ≡ some r.id) × (sort text_leb r.tags ≡ r.tags)))
  unfolding fetch_if_named
  fetch_if_named-Yields none = done-Yields none _ tt
  fetch_if_named-Yields (some nid) = record {
    at = λ s. go (fetch_remote_canonical env nid s).0 ((fetch_remote_canonical-Yields nid).at s);
  }
    where
      go :
          (r : Reply (Option RemoteNote))
          → OnReply (OnSome (IsNamed nid)) r
          → OnReply (OnSome (λ x. (some nid ≡ some x.id) × (sort text_leb x.tags ≡ x.tags))) r
      go (value none) h = tt
      go (value (some r)) h = (ap some (sym h.0), h.1)
      go (stop o) h = h

  -- The guard lets through only the note of the operation, with the hash that was planned.
  pub guard_remote-Yields :
      (o : PlanOperation) → Yields (guard_remote env o) (OnSome (IsFetched env.rt o))
  unfolding guard_remote
  guard_remote-Yields o = Yields-bind (fetch_if_named-Yields (truthy o.note_id)) (λ found named.
      Yields-bind (stop_if-Yields _ _ refl)
        (λ u same. done-Yields found _ (go found named (is_equal _ _ same))))
    where
      go :
          (found : Option RemoteNote)
          → OnSome (λ r. (truthy o.note_id ≡ some r.id) × (sort text_leb r.tags ≡ r.tags)) found
          → map_some (combined_remote env.rt) found ≡ o.expected_remote_hash
          → OnSome (IsFetched env.rt o) found
      go none n e = tt
      go (some r) n e = record { named = n.0; hashed = e; sorted = n.1 }
