-- ===== src/Sync/Snapshot/Exact.antt =====
-- The shortcut of `build_remote_snapshot` of src/joplin_md_sync/sync.py, which takes bodies from
-- the bases.
use joplin_md_sync.Base.{
  ◌≡◌, ap, sym, ◌∙◌, refl, true, Bool-cases, inl, inr, Option, none, some, List, [], ◌∷◌, ◌==◌,
  nat_eq, list_eq,
}
use joplin_md_sync.Base.Text.{Text}
use joplin_md_sync.Base.Dict.{Dict, lookup}
use joplin_md_sync.Base.Sort.{All}
use joplin_md_sync.Runtime.{Runtime}
use joplin_md_sync.Models.{BaseNote}
use joplin_md_sync.Sync.Act.{Reply, value, stop}
use joplin_md_sync.Sync.Snapshot.{
  ListedNote, Answers, bind_reply, Found, keep_note, put_full, fetch_body, put_active, put_listed,
  note_tags, read_notes, snapshot_of, nothing_found, build_remote_snapshot, IsBodyOf, IsBumped,
}

bind_reply-ext {ℓ κ} :
    {A : Type ℓ} {B : Type κ} (r : Reply A) (k l : A → Reply B)
    → ((a : A) → k a ≡ l a)
    → bind_reply r k ≡ bind_reply r l
unfolding bind_reply
bind_reply-ext (value a) k l h = h a
bind_reply-ext (stop o) k l h = refl

bind_reply-at {ℓ κ} :
    {A : Type ℓ} {B : Type κ} (r : Reply A) (a : A) (k l : A → Reply B)
    → r ≡ value a
    → k a ≡ l a
    → bind_reply r k ≡ bind_reply r l
unfolding bind_reply
bind_reply-at r a k l e h = ap (λ x. bind_reply x k) e ∙ h ∙ sym (ap (λ x. bind_reply x l) e)

module _ (rt : Runtime) (reads : Answers) (tags : Dict Text (List Text)) where
  fetch_body-IsBodyOf :
      (b : BaseNote) (raw : ListedNote) (f : Found)
      → IsBodyOf rt reads b raw
      → fetch_body rt reads tags raw f
        ≡ value (keep_note rt reads tags raw b.body raw.updated_time f)
  unfolding fetch_body bind_reply put_full
  fetch_body-IsBodyOf b raw f h = rw (h.at, h.active, h.body, h.time) refl

  put_active-IsBumped :
      (b : BaseNote) (raw : ListedNote) (f : Found)
      → ((b.updated_time == raw.updated_time) ≡ true → IsBodyOf rt reads b raw)
      → put_active rt reads tags (some b) raw f ≡ put_active rt reads tags none raw f
  unfolding put_active
  put_active-IsBumped b raw f h = elim (Bool-cases (b.updated_time == raw.updated_time)) [
    | inl t ↦ rw t (sym (fetch_body-IsBodyOf b raw f (h t)))
    | inr t ↦ rw t refl
  ]

  put_listed-IsBumped :
      (base : Option BaseNote) (raw : ListedNote) (f : Found)
      → IsBumped rt reads base raw
      → put_listed rt reads tags base raw f ≡ put_listed rt reads tags none raw f
  unfolding put_listed
  put_listed-IsBumped none raw f h = refl
  put_listed-IsBumped (some b) raw f h = elim (Bool-cases raw.is_deleted) [
    | inl e ↦ simp e
    | inr e ↦ elim (Bool-cases raw.is_conflict) [
      | inl c ↦ simp (e, c)
      | inr c ↦ simp (e, c, put_active-IsBumped b raw f (h e c))
    ]
  ]

  read_notes-IsBumped :
      (bases : Dict Text BaseNote) (rows : List ListedNote) (f : Found)
      → All (λ raw. IsBumped rt reads (lookup raw.id bases) raw) rows
      → read_notes rt reads tags bases rows f ≡ read_notes rt reads tags [] rows f
  unfolding read_notes lookup
  read_notes-IsBumped bases [] f h = refl
  read_notes-IsBumped bases (raw ∷ rows) f h =
      ap (λ r. bind_reply r (read_notes rt reads tags bases rows))
        (put_listed-IsBumped (lookup raw.id bases) raw f h.0)
      ∙ bind_reply-ext (put_listed rt reads tags none raw f) _ _
          (λ g. read_notes-IsBumped bases rows g h.1)

module _ (rt : Runtime) (reads : Answers) (bases : Dict Text BaseNote) where
  -- `build_remote_snapshot` gives the same snapshot, or raises the same, with the bases as
  -- without any, when it reads every body: the bodies that it takes from the bases are those of
  -- Joplin. Conditions: `list_notes` answers, and for each listed note that is neither trashed
  -- nor a conflict and has the time of its base, `get_note` gives the note with that time and the
  -- canonical body of the base.
  pub build_remote_snapshot-exact :
      (rows : List ListedNote)
      → reads.list_notes ≡ value rows
      → All (λ raw. IsBumped rt reads (lookup raw.id bases) raw) rows
      → build_remote_snapshot rt reads bases ≡ build_remote_snapshot rt reads []
  unfolding build_remote_snapshot
  build_remote_snapshot-exact rows e h = bind_reply-ext reads.list_folders _ _ (λ folders.
      bind_reply-ext reads.list_tags _ _ (λ ts.
        bind_reply-ext (note_tags rt reads ts []) _ _ (λ tags.
          bind_reply-at reads.list_notes rows _ _ e (
            ap (λ r. bind_reply r (λ f. value (snapshot_of rt reads folders f)))
              (read_notes-IsBumped rt reads tags bases rows (nothing_found rt reads) h)))))
