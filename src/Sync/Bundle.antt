-- ===== src/Sync/Bundle.antt =====
-- What src/joplin_md_sync/conflicts.py keeps of a conflict under the control directory: the files of
-- the two sides and of the base, and the fields of metadata.json.
use joplin_md_sync.Base.{ℕ, Bool, Option}
use joplin_md_sync.Base.Text.{Text}
use joplin_md_sync.Models.{NoteHashes}

pub record BundleMeta : Type 0 where
  pub conflict_id : Text
  pub note_id : Text
  pub local_path : Option Text
  pub category : Text
  pub detected_time : ℕ
  pub local_deleted : Bool
  pub remote_deleted : Bool
  pub base_hashes : Option NoteHashes
  pub local_hashes : Option NoteHashes
  pub remote_hashes : Option NoteHashes
  pub remote_updated_time : Option ℕ

-- A side that does not exist has no file.
pub record Bundle : Type 0 where
  pub meta : BundleMeta
  pub base_md : Option Text
  pub local_md : Option Text
  pub remote_md : Option Text
