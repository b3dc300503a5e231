-- ===== src/Planner/Draft.antt =====
-- What `build_plan` decides for one item or folder, before the operation gets its number.
use joplin_md_sync.Base.{Bool, true, false, Option, none, some, List, [], map}
use joplin_md_sync.Base.Text.{Text, text, text_leb, join}
use joplin_md_sync.Base.Sort.{sort}
use joplin_md_sync.Runtime.{Runtime}
use joplin_md_sync.Canonical.{note_hashes}
use joplin_md_sync.Models.{
  Component, title, body, tags, parent, OpKind, PlanOperation, LocalNoteFile, RemoteNote,
}

-- The argument `direction`: "pull", "push" or "sync".
pub data Direction : Type 0 where
  pull push sync : Direction

abbrev pub pulls : Direction → Bool
pulls push = false
pulls _ = true

abbrev pub pushes : Direction → Bool
pushes pull = false
pushes _ = true

-- `refuse` stands for a failed `assert`.
pub data Draft : Type 0 where
  refuse : Draft
  nothing : Draft
  op : PlanOperation → Draft

-- An operation with the defaults of the dataclass; `new_op` gives it its id.
abbrev pub operation : OpKind → Text → PlanOperation
operation kind detail = record {
  op_id = [];
  kind = kind;
  note_id = none;
  folder_id = none;
  rel_path = none;
  new_rel_path = none;
  fields = [];
  detail = detail;
  expected_local_hash = none;
  expected_remote_hash = none;
  state = none;
  folder_state = none;
}

-- f"{title}" of a title that may be None
unfoldable pub shown : Option Text → Text
shown none = text "None"
shown (some t) = t

unfoldable pub component_name : Component → Text
component_name title = text "title"
component_name body = text "body"
component_name tags = text "tags"
component_name parent = text "parent"

-- `', '.join(sorted(components))`
unfoldable pub listed : List Component → Text
listed cs = join (text ", ") (sort text_leb (map component_name cs))

module _ (rt : Runtime) where
  -- `_combined` of a note that is there, on either side
  abbrev pub combined_local : LocalNoteFile → Text
  combined_local l = (note_hashes rt l.title l.body l.tags l.parent_id).combined

  abbrev pub combined_remote : RemoteNote → Text
  combined_remote r = (note_hashes rt r.title r.body r.tags r.parent_id).combined
