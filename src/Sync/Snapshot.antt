-- ===== src/Sync/Snapshot.antt =====
-- `build_remote_snapshot` of src/joplin_md_sync/sync.py: what Joplin holds, read at the start of a
-- run. Bodies are read only of notes whose time of change is not that of the base.
pub mod Exact
use joplin_md_sync.Base.{
  ℕ, ◌≡◌, ap, refl, Bool, true, false, Bool-cases, inl, inr, ◌||◌, Option, none, some, List, [],
  ◌∷◌, ◌++◌, ◌==◌, contains, nat_eq, list_eq, get_or, arith, if◌then◌else◌,
}
use joplin_md_sync.Base.Text.{Text, text_leb}
use joplin_md_sync.Base.Dict.{Dict, lookup, insert}
use joplin_md_sync.Base.Sort.{sort, All}
use joplin_md_sync.Runtime.{Runtime}
use joplin_md_sync.Canonical.{canonicalize_body, canonicalize_tags, strip}
use joplin_md_sync.Models.{BaseNote, RemoteNote, RemoteFolder, RemoteSnapshot}
use joplin_md_sync.Sync.Act.{RawNote, Tag, Reply, value, stop}

-- A row of `list_notes`, which has no body.
pub record ListedNote : Type 0 where
  pub id : Text
  pub parent_id : Text
  pub title : Text
  pub updated_time : ℕ
  pub is_deleted : Bool
  pub is_conflict : Bool

-- What the calls of the client answer in one run, or raise.
pub record Answers : Type 0 where
  pub list_folders : Reply (List RemoteFolder)
  pub list_tags : Reply (List Tag)
  pub list_tag_notes : Text → Reply (List Text)
  pub list_notes : Reply (List ListedNote)
  pub get_note : Text → Reply (Option RawNote)
  pub event_cursor : Reply (Option Text)

unfoldable pub bind_reply {ℓ κ} : {A : Type ℓ} {B : Type κ} → Reply A → (A → Reply B) → Reply B
bind_reply (value a) k = k a
bind_reply (stop o) k = stop o

-- A set as a list without repetition.
unfoldable pub with_member : Text → List Text → List Text
with_member t ts = if contains ts t then ts else t ∷ ts

unfoldable pub folder_dict : List RemoteFolder → Dict Text RemoteFolder → Dict Text RemoteFolder
folder_dict [] d = d
folder_dict (f ∷ fs) d = folder_dict fs (insert f.id f d)

unfoldable pub add_tag : Text → List Text → Dict Text (List Text) → Dict Text (List Text)
unfolding with_member
add_tag title [] d = d
add_tag title (nid ∷ ids) d =
    add_tag title ids (insert nid (with_member title (get_or (lookup nid d) [])) d)

-- `sorted` on pairs
unfoldable pub pair_leb : Text × Text → Text × Text → Bool
pair_leb a b = if a.0 == b.0 then text_leb a.1 b.1 else text_leb a.0 b.0

-- The notes that the loop has found so far.
pub record Found : Type 0 where
  pub notes : Dict Text RemoteNote
  pub conflict_notes : List (Text × Text)
  pub trashed : List Text

unfoldable pub cursor_of : Reply (Option Text) → Option Text
cursor_of (value c) = c
cursor_of (stop o) = none

module _ (rt : Runtime) (reads : Answers) where
  -- `note_tags`: the titles of the tags of each note, in lower case.
  unfoldable pub note_tags : List Tag → Dict Text (List Text) → Reply (Dict Text (List Text))
  unfolding add_tag bind_reply
  note_tags [] d = value d
  note_tags (t ∷ ts) d =
      let title = rt.lower (strip rt t.title) in
      if title == []
      then note_tags ts d
      else bind_reply (reads.list_tag_notes t.id) (λ ids. note_tags ts (add_tag title ids d))

  module _ (tags : Dict Text (List Text)) where
    unfoldable pub trash : Text → Found → Found
    unfolding with_member
    trash nid f = record f { trashed = with_member nid f.trashed }

    unfoldable pub keep_note : ListedNote → Text → ℕ → Found → Found
    keep_note raw body time f = record f {
      notes =
          insert raw.id
            (record {
              id = raw.id;
              parent_id = raw.parent_id;
              title = raw.title;
              body = body;
              updated_time = time;
              tags = canonicalize_tags rt (get_or (lookup raw.id tags) []);
              is_conflict = false;
              deleted = false;
            })
            f.notes;
    }

    -- A note that is gone between the two reads counts as trashed.
    unfoldable pub put_full : ListedNote → Found → Option RawNote → Found
    unfolding trash keep_note
    put_full raw f none = trash raw.id f
    put_full raw f (some full) =
        if full.is_deleted || full.is_conflict
        then trash raw.id f
        else keep_note raw (canonicalize_body full.body) full.updated_time f

    unfoldable pub fetch_body : ListedNote → Found → Reply Found
    unfolding bind_reply
    fetch_body raw f = bind_reply (reads.get_note raw.id) (λ full. value (put_full raw f full))

    unfoldable pub put_active : Option BaseNote → ListedNote → Found → Reply Found
    unfolding fetch_body keep_note
    put_active none raw f = fetch_body raw f
    put_active (some b) raw f =
        if b.updated_time == raw.updated_time
        then value (keep_note raw b.body raw.updated_time f)
        else fetch_body raw f

    unfoldable pub put_listed : Option BaseNote → ListedNote → Found → Reply Found
    unfolding trash put_active
    put_listed base raw f =
        if raw.is_deleted
        then value (trash raw.id f)
        else if raw.is_conflict
        then value (record f { conflict_notes = f.conflict_notes ++ ((raw.id, raw.title) ∷ []) })
        else put_active base raw f

    unfoldable pub read_notes : Dict Text BaseNote → List ListedNote → Found → Reply Found
    unfolding put_listed bind_reply
    read_notes bases [] f = value f
    read_notes bases (raw ∷ rows) f =
        bind_reply (put_listed (lookup raw.id bases) raw f) (read_notes bases rows)

  unfoldable pub snapshot_of : List RemoteFolder → Found → RemoteSnapshot
  unfolding folder_dict cursor_of
  snapshot_of folders f = record {
    folders = folder_dict folders [];
    notes = f.notes;
    conflict_notes = sort pair_leb f.conflict_notes;
    trashed_note_ids = f.trashed;
    event_cursor = cursor_of reads.event_cursor;
  }

  abbrev pub nothing_found : Found
  nothing_found = record { notes = []; conflict_notes = []; trashed = [] }

  unfoldable pub build_remote_snapshot : Dict Text BaseNote → Reply RemoteSnapshot
  unfolding note_tags read_notes bind_reply snapshot_of
  build_remote_snapshot bases = bind_reply reads.list_folders (λ folders.
      bind_reply reads.list_tags (λ ts. bind_reply (note_tags ts []) (λ tags.
        bind_reply reads.list_notes (λ rows.
          bind_reply (read_notes tags bases rows nothing_found)
            (λ f. value (snapshot_of folders f))))))

  -- The full note has the body of the base, and is as the listing says.
  pub record IsBodyOf (b : BaseNote) (raw : ListedNote) : Type 0 where
    pub full : RawNote
    pub at : reads.get_note raw.id ≡ value (some full)
    pub active : (full.is_deleted || full.is_conflict) ≡ false
    pub body : canonicalize_body full.body ≡ b.body
    pub time : full.updated_time ≡ raw.updated_time

  -- Joplin gives each change of a body a new time.
  abbrev pub IsBumped : Option BaseNote → ListedNote → Type 0
  IsBumped none raw = Unit
  IsBumped (some b) raw =
      raw.is_deleted ≡ false
      → raw.is_conflict ≡ false
      → (b.updated_time == raw.updated_time) ≡ true
      → IsBodyOf b raw
