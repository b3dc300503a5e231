-- ===== src/Sync/Act.antt =====
-- What the handlers of src/joplin_md_sync/sync.py run on: the workspace files, Joplin, the state
-- database, and the exceptions that end a handler early. Joplin and the note file format are
-- interfaces: each call may find Joplin changed by others, and may raise.
use joplin_md_sync.Base.{
  ℕ, Bool, Option, none, some, List, [], ◌∷◌, ◌++◌, nat_eq, list_eq, if◌then◌else◌,
}
use joplin_md_sync.Base.Text.{Text}
use joplin_md_sync.Base.Dict.{Dict, insert}
use joplin_md_sync.Runtime.{Runtime}
use joplin_md_sync.Models.{LocalScan}
use joplin_md_sync.Metadata.{ParseResult}
use joplin_md_sync.State.{Store}
use joplin_md_sync.Sync.Run.{Outcome}
use joplin_md_sync.Sync.Bundle.{Bundle}

-- A note as the Data API gives it.
pub record RawNote : Type 0 where
  pub title : Text
  pub body : Text
  pub parent_id : Text
  pub updated_time : ℕ
  pub is_deleted : Bool
  pub is_conflict : Bool

-- `emit_note_file` and `parse_note_file`, and the JSON of a notebook's id, parent and title
pub record NoteFormat : Type 0 where
  pub emit_note_file : Option Text → Text → List Text → Text → Text
  pub parse_note_file : Text → ParseResult
  pub folder_json : Text → Text → Text → Text

-- A tag as the Data API gives it.
pub record Tag : Type 0 where
  pub id : Text
  pub title : Text

-- The fields of a note that an update gives.
pub record NoteFields : Type 0 where
  pub title : Option Text
  pub body : Option Text
  pub parent_id : Option Text

-- An update is answered, or times out: an AmbiguousWriteError with its message.
pub data Answer : Type 0 where
  confirmed : Answer
  unconfirmed : Text → Answer

-- How a step ends: with a value, or as the whole handler ends, by an early return or a raise.
pub data Reply {ℓ} (A : Type ℓ) : Type ℓ where
  value : A → Reply A
  stop : Outcome → Reply A

-- The calls of the Joplin client, on whatever stands for Joplin; `get_any` is `get_note` with
-- `include_deleted`. A note is created with a title, a body and a parent, for its id, which
-- `create_note_with_id` is given in front. A tag is put on a note by its id and the note's. A notebook is created with a title and a parent, for its id; it is read as its
-- title and parent, and updated in those that are given.
pub record JoplinClient {ℓ} (R : Type ℓ) : Type ℓ where
  pub get_note : Text → R → Reply (Option RawNote) × R
  pub get_any : Text → R → Reply (Option RawNote) × R
  pub list_note_tags : Text → R → Reply (List Tag) × R
  pub list_tags : R → Reply (List Tag) × R
  pub create_tag : Text → R → Reply Tag × R
  pub add_tag_to_note : Text → Text → R → Reply (Unit {0}) × R
  pub remove_tag_from_note : Text → Text → R → Reply (Unit {0}) × R
  pub create_note : Text → Text → Text → R → Reply Text × R
  pub create_note_with_id : Text → Text → Text → Text → R → Reply Text × R
  pub update_note : Text → NoteFields → R → Reply Answer × R
  pub restore_note : Text → R → Reply (Unit {0}) × R
  pub delete_note : Text → R → Reply (Unit {0}) × R
  pub create_folder : Text → Text → R → Reply Text × R
  pub get_folder : Text → R → Reply (Option (Text × Text)) × R
  pub update_folder : Text → Option Text → Option Text → R → Reply (Unit {0}) × R

-- What an `Executor` is made with, and what it takes from its surroundings: the time, the message
-- of an OSError about a path, whether the file of a notebook cannot be written, and the id of a
-- new conflict bundle.
pub record Env {ℓ} (R : Type ℓ) : Type ℓ where
  pub rt : Runtime
  pub client : JoplinClient R
  pub format : NoteFormat
  pub run_id : Text
  pub now : ℕ
  pub os_error : Text → Text
  pub write_fails : Text → Bool
  pub fresh_id : Dict Text Bundle → Text
  pub scan : LocalScan

-- The files under the workspace root by their relative paths, its directories, and the copies
-- that runs make of files under the control directory, by run id and path, with the conflict bundles.
pub record Files : Type 0 where
  pub texts : Dict Text Text
  pub dirs : List Text
  pub backups : Dict Text Text
  pub quarantined : Dict Text Text
  pub bundles : Dict Text Bundle

pub record ExecState {ℓ} (R : Type ℓ) : Type ℓ where
  pub remote : R
  pub files : Files
  pub store : Store
  pub renames : List (Text × Text)
  pub created_folders : Dict Text Text
  pub tag_map : Option (Dict Text Text)

abbrev pub Act {ℓ κ} : Type ℓ → Type κ → Type (ℓ ⊔ κ)
Act R A = ExecState R → Reply A × ExecState R

module _ {ℓ κ} {R : Type ℓ} {A : Type κ} where
  unfoldable pub done : A → Act R A
  done a s = (value a, s)

  unfoldable pub give_up : Outcome → Act R A
  give_up o s = (stop o, s)

  unfoldable pub of_option : Outcome → Option A → Act R A
  of_option o none s = (stop o, s)
  of_option o (some a) s = (value a, s)

  -- A call of the client.
  unfoldable pub call : (R → Reply A × R) → Act R A
  call f s = let (reply, remote) = f s.remote in (reply, record s { remote = remote })

  unfoldable pub and_then {μ} :
      {B : Type μ} → (A → Act R B) → Reply A × ExecState R → Reply B × ExecState R
  and_then k (value a, s) = k a s
  and_then k (stop o, s) = (stop o, s)

  infixl 5 ◌>>=◌
  abbrev pub ◌>>=◌ {μ} : {B : Type μ} → Act R A → (A → Act R B) → Act R B
  (m >>= k) s = and_then k (m s)

  infixl 5 ◌>>◌
  abbrev pub ◌>>◌ {μ} : {B : Type μ} → Act R A → Act R B → Act R B
  (m >> n) s = and_then (λ a. n) (m s)

module _ {ℓ} {R : Type ℓ} where
  unfoldable pub stop_if : Bool → Outcome → Act R (Unit {0})
  stop_if b o s = (if b then stop o else value tt, s)

  unfoldable pub files_of : Act R Files
  files_of s = (value s.files, s)

  unfoldable pub store_of : Act R Store
  store_of s = (value s.store, s)

  unfoldable pub renames_of : Act R (List (Text × Text))
  renames_of s = (value s.renames, s)

  unfoldable pub change_files : (Files → Files) → Act R (Unit {0})
  change_files f s = (value tt, record s { files = f s.files })

  -- `self._renames.append`, and an entry of `self._created_folders`
  unfoldable pub note_rename : Text → Text → Act R (Unit {0})
  note_rename old new s = (value tt, record s { renames = s.renames ++ ((old, new) ∷ []) })

  unfoldable pub note_folder : Text → Text → Act R (Unit {0})
  note_folder rel fid s =
      (value tt, record s { created_folders = insert rel fid s.created_folders })

  unfoldable pub created_of : Act R (Dict Text Text)
  created_of s = (value s.created_folders, s)

  unfoldable pub tag_map_of : Act R (Option (Dict Text Text))
  tag_map_of s = (value s.tag_map, s)

  unfoldable pub keep_tag_map : Dict Text Text → Act R (Unit {0})
  keep_tag_map m s = (value tt, record s { tag_map = some m })

  unfoldable pub stored : Outcome → Option Store → Act R (Unit {0})
  stored o none s = (stop o, s)
  stored o (some t) s = (value tt, record s { store = t })

  -- A change of the state database that may fail.
  unfoldable pub change_store : Outcome → (Store → Option Store) → Act R (Unit {0})
  unfolding stored
  change_store o f s = stored o (f s.store) s

  -- The changes of the state database that end a handler, and the result that it returns.
  unfoldable pub commit : (Store → Store) → Outcome → Act R Outcome
  commit f o s = (value o, record s { store = f s.store })

-- The result of a handler.
unfoldable pub ended : Reply Outcome → Outcome
ended (value o) = o
ended (stop o) = o
