-- ===== src/Conflicts/Committed.antt =====
-- What `_push_content` of src/joplin_md_sync/conflicts.py has written when it returns.
use joplin_md_sync.Base.{
  ◌≡◌, refl, ◌∙◌, ℕ, Option, none, some, Bool-cases, inl, inr, ◌==◌, List, arith, nat_eq, list_eq,
  true,
}
use mathlib.Core.Path.{subst}
use joplin_md_sync.Base.Text.{Text, text_leb}
use joplin_md_sync.Base.Dict.{lookup, lookup-insert}
use joplin_md_sync.Base.Sort.{sort}
use joplin_md_sync.Runtime.{IsStableCase}
use joplin_md_sync.Canonical.{canonicalize_body, canonicalize_tags, note_hashes}
use joplin_md_sync.Models.{RemoteNote}
use joplin_md_sync.Planner.Draft.{combined_remote}
use joplin_md_sync.State.{Store, get_note, upsert_note}
use joplin_md_sync.State.Notes.{get_note-upsert_note}
use joplin_md_sync.Metadata.{JsonLib, is_parsed, is_valid_note_id, parse_note_file}
use joplin_md_sync.Metadata.RoundTrip.{parse_note_file-emit_note_file}
use joplin_md_sync.Sync.Act.{
  Reply, value, stop, Env, ExecState, Act, change_files, change_store, stored, of_option, stop_if,
  and_then, ◌>>=◌, ◌>>◌,
}
use joplin_md_sync.Sync.Format.{note_format}
use joplin_md_sync.Sync.Guards.{write_text, note_row, fetch_remote_canonical}
use joplin_md_sync.Sync.Folders.{make_parents}
use joplin_md_sync.Conflicts.Resolve.{update_store, write_atomic, write_checked, push_content}

module _ {ℓ} {R : Type ℓ} where
  -- What holds of the state if a step goes on with a value.
  abbrev OnEnd {κ} : {A : Type κ} → (ExecState R → Type ℓ) → Reply A × ExecState R → Type ℓ
  OnEnd P (value a, t) = P t
  OnEnd P (stop o, t) = Unit

  record Ensures {κ} {A : Type κ} (m : Act R A) (P : ExecState R → Type ℓ) : Type ℓ where
    pub at : (s : ExecState R) → OnEnd P (m s)

  Ensures-bind {κ μ} :
      {A : Type κ} {B : Type μ} {P : ExecState R → Type ℓ} (m : Act R A) {k : A → Act R B}
      → ((a : A) → Ensures (k a) P)
      → Ensures (m >>= k) P
  unfolding and_then
  Ensures-bind {A = A} {P = P} m {k = k} g = record { at = λ s. go (m s) }
    where
      go : (p : Reply A × ExecState R) → OnEnd P (and_then k p)
      go (value a, t) = (g a).at t
      go (stop o, t) = tt

  Ensures-bind_at {κ μ} :
      {A : Type κ} {B : Type μ} {P : ExecState R → Type ℓ} (m : Act R A) (k : A → Act R B)
      → ((a : A) (s t : ExecState R) → m s ≡ (value a, t) → OnEnd P (k a t))
      → Ensures (m >>= k) P
  unfolding and_then
  Ensures-bind_at {A = A} {P = P} m k g = record { at = λ s. go s (m s) refl }
    where
      go : (s : ExecState R) (p : Reply A × ExecState R) → m s ≡ p → OnEnd P (and_then k p)
      go s (value a, t) e = g a s t e
      go s (stop o, t) e = tt

module _ {ℓ} {R : Type ℓ} (env : Env R) (lib : JsonLib) (law : IsStableCase env.rt)
    (fmt : env.format ≡ note_format env.rt lib) (nid : Text)
    (valid : is_valid_note_id nid ≡ true) where
  -- The file reads as the note, and the database has its base.
  pub record IsCommitted (rel title body : Text) (tags : List Text) (t : ExecState R) : Type ℓ where
    pub content : Text
    pub in_file : lookup rel t.files.texts ≡ some content
    pub reads :
        parse_note_file env.rt lib content
        ≡ is_parsed (record {
          note_id = some nid;
          title = title;
          tags = canonicalize_tags env.rt tags;
          body = canonicalize_body body;
        })
    -- The last answers of Joplin, which give the note.
    pub asked : ExecState R
    pub answered : ExecState R
    pub note : RemoteNote
    pub found : fetch_remote_canonical env nid asked ≡ (value (some note), answered)
    pub as_sent :
        combined_remote env.rt note ≡ (note_hashes env.rt title body tags note.parent_id).combined
    pub unchanged_since : t.remote ≡ answered.remote
    pub in_base :
        get_note env.rt nid t.store
        ≡ some (record {
          id = nid;
          rel_path = rel;
          title = title;
          body = body;
          tags = sort text_leb tags;
          parent_id = note.parent_id;
          updated_time = note.updated_time;
          hashes = note_hashes env.rt title body (sort text_leb tags) note.parent_id;
        })

  module _ (rel title body : Text) (tags : List Text) where
    reads_back :
        parse_note_file env.rt lib (env.format.emit_note_file (some nid) title tags body)
        ≡ is_parsed (record {
          note_id = some nid;
          title = title;
          tags = canonicalize_tags env.rt tags;
          body = canonicalize_body body;
        })
    unfolding note_format
    reads_back =
        rw fmt (parse_note_file-emit_note_file env.rt law lib (some nid) title tags body valid)

    based :
        (parent : Text) (time : ℕ) (s : Store)
        → get_note env.rt nid (upsert_note (note_row nid rel title body tags parent time) s)
          ≡ some (record {
            id = nid;
            rel_path = rel;
            title = title;
            body = body;
            tags = sort text_leb tags;
            parent_id = parent;
            updated_time = time;
            hashes = note_hashes env.rt title body (sort text_leb tags) parent;
          })
    based parent time s =
        get_note-upsert_note env.rt nid (note_row nid rel title body tags parent time) s
        ∙ ground arith

    written :
        (s t : ExecState R) (note : RemoteNote)
        → fetch_remote_canonical env nid s ≡ (value (some note), t)
        → combined_remote env.rt note ≡ (note_hashes env.rt title body tags note.parent_id).combined
        → OnEnd (IsCommitted rel title body tags) (
            (change_files (write_atomic rel (env.format.emit_note_file (some nid) title tags body))
                >> update_store (
                    upsert_note
                      (note_row nid rel title body tags note.parent_id note.updated_time)))
              t)
    unfolding and_then change_files write_atomic write_text make_parents update_store change_store
        stored
    written s t note e h = record {
      content = env.format.emit_note_file (some nid) title tags body;
      in_file = lookup-insert rel rel _ t.files.texts ∙ ground arith;
      reads = reads_back;
      asked = s;
      answered = t;
      note = note;
      found = e;
      as_sent = h;
      unchanged_since = refl;
      in_base = based note.parent_id note.updated_time t.store;
    }

    verified :
        (found : Option RemoteNote) (s t : ExecState R)
        → fetch_remote_canonical env nid s ≡ (value found, t)
        → OnEnd
            (IsCommitted rel title body tags)
            (write_checked env nid rel title body tags found t)
    unfolding write_checked of_option stop_if and_then
    verified none s t e = tt
    verified (some note) s t e =
        elim (Bool-cases (
          combined_remote env.rt note
          == (note_hashes env.rt title body tags note.parent_id).combined)) [
            | inl h ↦ rw h (written s t note e (ground arith))
            | inr h ↦ rw h tt
          ]

    push_content-Ensures :
        (parent_id : Text)
        → Ensures
            (push_content env nid rel title body tags parent_id)
            (IsCommitted rel title body tags)
    unfolding push_content
    push_content-Ensures parent_id = Ensures-bind _ (λ remote.
        Ensures-bind _
          (λ u. Ensures-bind _ (λ m. Ensures-bind_at (fetch_remote_canonical env nid) _ verified)))

    -- If `_push_content` returns, Joplin's last answers gave a note whose combined hash is that
    -- of the given title, body and tags in its notebook, with no call after them; the file at the
    -- path parses as the note with the given title, canonical tags and canonical body; and the
    -- state database has the base of that note at that path, with its notebook and time in
    -- Joplin. Conditions: the note file format is that of the program, the id is valid, and lower
    -- case is stable.
    pub push_content-IsCommitted :
        (parent_id : Text) (s t : ExecState R)
        → push_content env nid rel title body tags parent_id s ≡ (value tt, t)
        → IsCommitted rel title body tags t
    push_content-IsCommitted parent_id s t e =
        subst (OnEnd (IsCommitted rel title body tags)) e ((push_content-Ensures parent_id).at s)
