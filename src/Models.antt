-- ===== src/Models.antt =====
-- src/joplin_md_sync/models.py: notes, folders, classification results and plan operations.
use joplin_md_sync.Base.{ℕ, Bool, Option, List, Eq}
use joplin_md_sync.Base.Text.{Text}
use joplin_md_sync.Base.Dict.{Dict}

-- The status codes of notes and folders; the source spells them in capitals.
pub data Status : Type 0 where
  unchanged local_modified remote_modified both_identical conflict local_new remote_new : Status
  local_deleted remote_deleted both_deleted delete_conflict moved_local moved_remote : Status
  metadata_modified invalid_local_file joplin_conflict_note : Status
  folder_local_new folder_remote_new folder_local_modified folder_remote_modified : Status
  folder_remote_deleted folder_local_deleted folder_conflict : Status

status_dec : Discrete Status
status_dec = hlevel

instance unfoldable pub status_eq : Eq Status
unfolding status_dec
status_eq = record { dec = status_dec }

-- The logical components of a note that a diff names.
pub data Component : Type 0 where
  title body tags parent : Component

component_dec : Discrete Component
component_dec = hlevel

instance unfoldable pub component_eq : Eq Component
unfolding component_dec
component_eq = record { dec = component_dec }

pub record NoteHashes : Type 0 where
  pub title_hash : Text
  pub body_hash : Text
  pub tags_hash : Text
  pub parent_hash : Text
  pub combined : Text

pub record RemoteNote : Type 0 where
  pub id : Text
  pub parent_id : Text
  pub title : Text
  pub body : Text
  pub updated_time : ℕ
  pub tags : List Text
  pub is_conflict : Bool
  pub deleted : Bool

pub record RemoteFolder : Type 0 where
  pub id : Text
  pub parent_id : Text
  pub title : Text

pub record LocalNoteFile : Type 0 where
  pub rel_path : Text
  pub note_id : Option Text
  pub title : Text
  pub body : Text
  pub tags : List Text
  pub parent_id : Text
  pub has_header : Bool

pub record InvalidLocalFile : Type 0 where
  pub rel_path : Text
  pub reason : Text

pub record LocalFolderDir : Type 0 where
  pub rel_path : Text
  pub folder_id : Option Text
  pub title : Text
  pub parent_id : Text

pub record BaseNote : Type 0 where
  pub id : Text
  pub rel_path : Text
  pub title : Text
  pub body : Text
  pub tags : List Text
  pub parent_id : Text
  pub updated_time : ℕ
  pub hashes : NoteHashes

pub record BaseFolder : Type 0 where
  pub id : Text
  pub rel_path : Text
  pub title : Text
  pub parent_id : Text

pub record ItemState : Type 0 where
  pub status : Status
  pub note_id : Option Text
  pub rel_path : Option Text
  pub title : Option Text
  pub changed_components : List Component
  pub remote_changed_components : List Component
  pub detail : Text
  pub base : Option BaseNote
  pub local : Option LocalNoteFile
  pub remote : Option RemoteNote

pub record FolderState : Type 0 where
  pub status : Status
  pub folder_id : Option Text
  pub rel_path : Option Text
  pub title : Option Text
  pub detail : Text
  pub base : Option BaseFolder
  pub local : Option LocalFolderDir
  pub remote : Option RemoteFolder

-- The operation kinds, named as the source's constants without their prefix.
pub data OpKind : Type 0 where
  pull_create_local pull_update_local pull_delete_local pull_create_dir pull_update_dir : OpKind
  push_create_remote push_update_remote push_delete_remote : OpKind
  push_create_folder push_update_folder : OpKind
  rebase adopt_base create_conflict drop_base normalize_local_path : OpKind

pub record PlanOperation : Type 0 where
  pub op_id : Text
  pub kind : OpKind
  pub note_id : Option Text
  pub folder_id : Option Text
  pub rel_path : Option Text
  pub new_rel_path : Option Text
  pub fields : List Component
  pub detail : Text
  pub expected_local_hash : Option Text
  pub expected_remote_hash : Option Text
  pub state : Option ItemState
  pub folder_state : Option FolderState

pub record RemoteSnapshot : Type 0 where
  pub folders : Dict Text RemoteFolder
  pub notes : Dict Text RemoteNote
  pub conflict_notes : List (Text × Text)
  pub trashed_note_ids : List Text
  pub event_cursor : Option Text

-- workspace.py's `LocalScan`: what one scan of the workspace found.
pub record LocalScan : Type 0 where
  pub folders_by_id : Dict Text LocalFolderDir
  pub folders_by_path : Dict Text LocalFolderDir
  pub candidate_folders : List LocalFolderDir
  pub notes : List LocalNoteFile
  pub invalid : List InvalidLocalFile
