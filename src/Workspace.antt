-- ===== src/Workspace.antt =====
-- src/joplin_md_sync/workspace.py: the scan of the workspace, on a tree of files.
pub mod Rows
pub mod Sound
use joplin_md_sync.Base.{
  ℕ, zero, suc, ◌-◌, Bool, true, false, not, ◌&&◌, ◌||◌, Option, none, some, List, [], ◌∷◌, ◌++◌,
  ◌==◌, contains, nat_eq, list_eq, get_or, if◌then◌else◌,
}
use joplin_md_sync.Base.Text.{Text, text, take, length, starts_with, text_leb}
use joplin_md_sync.Base.Dict.{Dict, keys, lookup, insert}
use joplin_md_sync.Base.Sort.{sort}
use joplin_md_sync.Runtime.{Runtime}
use joplin_md_sync.Canonical.{canonicalize_body}
use joplin_md_sync.Models.{LocalNoteFile, LocalFolderDir, InvalidLocalFile, LocalScan}
use joplin_md_sync.Json.{Json, null, boolean, integer, float, string, array, object, insert_fields}
use joplin_md_sync.Json.Scan.{loads}
use joplin_md_sync.Metadata.{
  ParsedNoteFile, ParseResult, is_parsed, is_malformed, JsonLib, has_schema, ends_with, has_header,
  parse_note_file,
}

-- The text of a file, or the message of the exception on reading it.
pub data FileText : Type 0 where
  readable : Text → FileText
  unreadable : Text → FileText

-- What stands in a directory. A directory may have an error on listing; a symbolic link may lead
-- to a file.
mutual
  pub data Node : Type 0 where
    directory : Option Text → Listing → Node
    file : FileText → Node
    symlink : Option FileText → Node
    outside : Node
    other : Node

  pub data Listing : Type 0 where
    no_children : Listing
    child : Text → Node → Listing → Listing

unfoldable pub entries : Listing → List (Text × Node)
entries no_children = []
entries (child name node rest) = (name, node) ∷ entries rest

abbrev name_leb : Text × Node → Text × Node → Bool
name_leb a b = text_leb a.0 b.0

-- `sorted(directory.iterdir(), key=lambda p: p.name)`
unfoldable pub sorted_entries : Listing → List (Text × Node)
unfolding entries
sorted_entries listing = sort name_leb (entries listing)

abbrev folder_meta_name : Text
folder_meta_name = text ".joplin-folder.json"

unfoldable pub is_skipped : Text → Bool
is_skipped name =
    name == text ".joplin-sync" || (starts_with name (text ".") && not (name == folder_meta_name))

-- `meta_path.is_file()`, which follows a link, and the text that is read.
unfoldable pub meta_file : Option Node → Option FileText
meta_file (some (file c)) = some c
meta_file (some (symlink c)) = c
meta_file o = none

abbrev pub empty_scan : LocalScan
empty_scan = record {
  folders_by_id = [];
  folders_by_path = [];
  candidate_folders = [];
  notes = [];
  invalid = [];
}

unfoldable pub add_invalid : Text → Text → LocalScan → LocalScan
add_invalid rel reason scan = record scan {
  invalid = scan.invalid ++ (record { rel_path = rel; reason = reason } ∷ []);
}

unfoldable pub add_note : LocalNoteFile → LocalScan → LocalScan
add_note n scan = record scan { notes = scan.notes ++ (n ∷ []) }

-- The metadata of a directory, or the message of the exception.
pub data FolderMeta : Type 0 where
  is_folder : LocalFolderDir → FolderMeta
  is_broken : Text → FolderMeta

unfoldable pub string_of : Json → Option Text
string_of (string s) = some s
string_of v = none

unfoldable pub folder_with : Text → Text → Option Text → Option Text → FolderMeta
folder_with rel parent (some i) (some t) =
    is_folder (record { rel_path = rel; folder_id = some i; title = t; parent_id = parent })
folder_with rel parent (some i) none = is_broken (text "'id' and 'title' must be strings")
folder_with rel parent none t = is_broken (text "'id' and 'title' must be strings")

module _ (lib : JsonLib) where
  unfoldable pub id_and_title :
      Text → Text → Option Json → Option Json → Bool → Dict Text Json → FolderMeta
  unfolding string_of folder_with
  id_and_title rel parent none title ok meta = is_broken (text "'id'")
  id_and_title rel parent (some i) none ok meta = is_broken (text "'title'")
  id_and_title rel parent (some i) (some t) false meta =
      is_broken (text "unsupported folder schema " ++ lib.repr (lookup (text "schema") meta))
  id_and_title rel parent (some i) (some t) true meta =
      folder_with rel parent (string_of i) (string_of t)

  unfoldable pub folder_of_json : Text → Text → Text → Option Json → FolderMeta
  unfolding insert_fields has_schema id_and_title
  folder_of_json rel parent raw none = is_broken (lib.decode_error raw)
  folder_of_json rel parent raw (some (object fs)) =
      let meta = insert_fields fs [] in
      id_and_title rel parent (lookup (text "id") meta) (lookup (text "title") meta)
        (has_schema lib (lookup (text "schema") meta)) meta
  folder_of_json rel parent raw (some v) = is_broken (text "must be a JSON object")

  -- `_read_folder_meta`; without the file, the directory is a candidate with its own name.
  unfoldable pub read_folder_meta : Text → Text → Text → Option FileText → FolderMeta
  unfolding folder_of_json
  read_folder_meta name rel parent none =
      is_folder (record { rel_path = rel; folder_id = none; title = name; parent_id = parent })
  read_folder_meta name rel parent (some (unreadable m)) = is_broken m
  read_folder_meta name rel parent (some (readable raw)) = folder_of_json rel parent raw (loads raw)

module _ (rt : Runtime) (lib : JsonLib) where
  unfoldable pub parsed_note : Text → Text → ParseResult → LocalScan → LocalScan
  unfolding add_note add_invalid
  parsed_note rel parent (is_malformed m) scan = add_invalid rel m scan
  parsed_note rel parent (is_parsed p) scan =
      add_note
        (record {
          rel_path = rel;
          note_id = p.note_id;
          title = p.title;
          body = p.body;
          tags = p.tags;
          parent_id = parent;
          has_header = true;
        })
        scan

  -- A file without a header is a new note with the name of the file, without `.md`.
  abbrev pub headerless : Text → Text → Text → Text → LocalNoteFile
  headerless name rel parent raw = record {
    rel_path = rel;
    note_id = none;
    title = take (length name - 3) name;
    body = canonicalize_body raw;
    tags = [];
    parent_id = parent;
    has_header = false;
  }

  -- `_read_note_file`
  unfoldable pub read_note_file : Text → Text → Text → FileText → LocalScan → LocalScan
  unfolding parsed_note
  read_note_file name rel parent (unreadable m) scan =
      add_invalid rel (text "unreadable file: " ++ m) scan
  read_note_file name rel parent (readable raw) scan =
      if has_header raw
      then parsed_note rel parent (parse_note_file rt lib raw) scan
      else add_note (headerless name rel parent raw) scan

  abbrev Descend : Type 0
  Descend = Option Text → Listing → Text → Text → LocalScan → LocalScan

  unfoldable pub put_path : Text → LocalFolderDir → LocalScan → LocalScan
  put_path rel f scan = record scan { folders_by_path = insert rel f scan.folders_by_path }

  unfoldable pub put_id : Text → LocalFolderDir → LocalScan → LocalScan
  put_id fid f scan = record scan { folders_by_id = insert fid f scan.folders_by_id }

  unfoldable pub put_candidate : LocalFolderDir → LocalScan → LocalScan
  put_candidate f scan = record scan { candidate_folders = scan.candidate_folders ++ (f ∷ []) }

  -- A directory whose metadata is valid: a second one with the same id is reported, and not
  -- entered.
  unfoldable pub enter :
      (LocalScan → LocalScan) → Text → LocalFolderDir → Option Text → LocalScan → LocalScan
  unfolding put_path put_id put_candidate
  enter below rel f none scan = below (put_path rel f (put_candidate f scan))
  enter below rel f (some fid) scan =
      if contains (keys scan.folders_by_id) fid
      then add_invalid rel
          (text "duplicate folder id "
            ++ (fid
                ++ (text " (also at "
                    ++ (elim (lookup fid scan.folders_by_id) [ none ↦ [] | some g ↦ g.rel_path ]
                        ++ text ")"))))
          scan
      else below (put_path rel f (put_id fid f scan))

  unfoldable pub enter_if :
      (Text → LocalScan → LocalScan) → Text → FolderMeta → LocalScan → LocalScan
  unfolding enter
  enter_if below rel (is_broken m) scan =
      add_invalid (rel ++ text "/.joplin-folder.json") (text "invalid folder metadata: " ++ m) scan
  enter_if below rel (is_folder f) scan =
      enter (below (get_or f.folder_id [])) rel f f.folder_id scan

  module _ (descend : Descend) (parent prefix : Text) where
    unfoldable pub scan_file : Text → FileText → LocalScan → LocalScan
    unfolding read_note_file
    scan_file name c scan =
        if ends_with (rt.lower name) (text ".md")
        then (if prefix == []
            then add_invalid name
                (text
                  "Markdown files must live inside a notebook directory, not the workspace root")
                scan
            else read_note_file name (prefix ++ name) parent c scan)
        else scan

    unfoldable pub scan_node : Text → Node → LocalScan → LocalScan
    unfolding scan_file enter_if
    scan_node name (symlink c) scan =
        add_invalid (prefix ++ name) (text "symlinks are not followed") scan
    scan_node name outside scan =
        add_invalid (prefix ++ name) (text "path resolves outside the workspace root") scan
    scan_node name other scan = scan
    scan_node name (file c) scan = scan_file name c scan
    scan_node name (directory error listing) scan =
        enter_if (λ fid. descend error listing fid (prefix ++ (name ++ text "/"))) (prefix ++ name)
          (read_folder_meta lib name (prefix ++ name) parent
            (meta_file (lookup folder_meta_name (entries listing))))
          scan

    -- The loop of `_scan_dir`.
    unfoldable pub scan_entries : List (Text × Node) → LocalScan → LocalScan
    unfolding scan_node is_skipped
    scan_entries [] scan = scan
    scan_entries ((name, node) ∷ rest) scan =
        scan_entries rest (if is_skipped name then scan else scan_node name node scan)

  unfoldable pub list_dir : Descend → Option Text → Listing → Text → Text → LocalScan → LocalScan
  unfolding scan_entries sorted_entries
  list_dir descend (some m) listing parent prefix scan =
      add_invalid (if prefix == [] then text "." else prefix) (text "unreadable directory: " ++ m)
        scan
  list_dir descend none listing parent prefix scan =
      scan_entries descend parent prefix (sorted_entries listing) scan

  -- `_scan_dir`; the first argument is how many levels of directories may still be entered.
  unfoldable pub scan_dir : ℕ → Descend
  unfolding list_dir
  scan_dir zero error listing parent prefix scan =
      add_invalid prefix (text "directory nesting too deep") scan
  scan_dir (suc n) error listing parent prefix scan =
      list_dir (scan_dir n) error listing parent prefix scan

  -- `Workspace.scan`: the root is at depth 0, and depth 33 is too deep.
  unfoldable pub scan_tree : Option Text → Listing → LocalScan
  unfolding scan_dir
  scan_tree error listing = scan_dir 33 error listing [] [] empty_scan
