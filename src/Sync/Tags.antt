-- ===== src/Sync/Tags.antt =====
-- `reconcile_tags` of src/joplin_md_sync/sync.py: the tags of a note in Joplin are made those that are
-- wanted.
use joplin_md_sync.Base.{
  Bool, true, false, Option, none, some, List, [], ◌∷◌, ◌==◌, contains, nat_eq, list_eq,
  if◌then◌else◌,
}
use joplin_md_sync.Base.Text.{Text}
use joplin_md_sync.Base.Dict.{Dict, lookup, insert, keys}
use joplin_md_sync.Canonical.{strip}
use joplin_md_sync.Sync.Act.{Tag, Env, Act, done, call, tag_map_of, keep_tag_map, ◌>>=◌, ◌>>◌}

module _ {ℓ} {R : Type ℓ} (env : Env R) where
  unfoldable pub tag_key : Text → Text
  tag_key title = env.rt.lower (strip env.rt title)

  -- The dict from titles to ids; a later tag takes the place of one with the same title.
  unfoldable pub tag_dict : List Tag → Dict Text Text → Dict Text Text
  unfolding tag_key
  tag_dict [] d = d
  tag_dict (t ∷ ts) d = tag_dict ts (insert (tag_key t.title) t.id d)

  unfoldable pub known_tags : Option (Dict Text Text) → Act R (Dict Text Text)
  known_tags (some m) = done m
  known_tags none = call env.client.list_tags >>= λ ts. done (tag_dict ts [])

  -- The id of a tag, which is created if it is not known, and the map with it.
  unfoldable pub tag_id : Text → Dict Text Text → Option Text → Act R (Text × Dict Text Text)
  tag_id title m (some tid) = done (tid, m)
  tag_id title m none = call (env.client.create_tag title) >>= λ t.
      done (t.id, insert (tag_key (if t.title == [] then title else t.title)) t.id m)

  module _ (nid : Text) where
    unfoldable pub attach_one : Bool → Text → Dict Text Text → Act R (Dict Text Text)
    attach_one true title m = done m
    attach_one false title m = do
      (tid, more) ← tag_id title m (lookup title m)
      call (env.client.add_tag_to_note tid nid)
      done more

    unfoldable pub attach : Dict Text Text → List Text → Dict Text Text → Act R (Dict Text Text)
    attach here [] m = done m
    attach here (t ∷ ts) m = attach_one (contains (keys here) t) t m >>= λ more. attach here ts more

    unfoldable pub detach_one : Bool → Text → Act R (Unit {0})
    detach_one true tid = done tt
    detach_one false tid = call (env.client.remove_tag_from_note tid nid)

    unfoldable pub detach : List Text → Dict Text Text → Act R (Unit {0})
    detach desired [] = done tt
    detach desired ((title, tid) ∷ rest) =
        detach_one (contains desired title) tid >> detach desired rest

  unfoldable pub reconcile_tags :
      Text → List Text → Option (Dict Text Text) → Act R (Dict Text Text)
  reconcile_tags nid desired tag_map = do
    m ← known_tags tag_map
    here ← call (env.client.list_note_tags nid)
    more ← attach nid (tag_dict here []) desired m
    detach nid desired (tag_dict here [])
    done more

  -- `Executor._reconcile_tags`
  unfoldable pub reconcile_note_tags : Text → List Text → Act R (Unit {0})
  reconcile_note_tags nid desired = do
    known ← tag_map_of
    more ← reconcile_tags nid desired known
    keep_tag_map more
