-- ===== src/Extractor/Confined/Splitting.antt =====
-- `processTOC` makes up no names, and leaves the deferred links alone.
use mysnapshotter.Prelude.{
  ℕ, zero, suc, ◌||◌, ◌&&◌, not, Option, none, some, List, [], ◌∷◌, ◌++◌, All, All-append,
  get_elem?, length, by_if, ◌≡◌, refl, ◌∙◌, Text, ◌==◌,
}
use mathlib.Core.Bool.{Bool-set}
use mysnapshotter.Prelude.Sorting.{Sorter, All-Perm}
use mysnapshotter.Paths.{clean}
use mysnapshotter.Chunked.Data.{EntryType, FileMetadata}
use mysnapshotter.Extractor.Files.{TocFile}
use mysnapshotter.Extractor.Layer.{Hardlink, LayerCtx, filter_whiteout, mark, apply_opaques}
use mysnapshotter.Extractor.Split.{
  Split, ProcessedToc, add_duplicate, add_duplicates, is_nil, add_twin, add_file, add_structure,
  is_zero, place, is_chunk, process_entry, process_entries, start, deref, process_toc,
}
use mysnapshotter.Extractor.Layer.Links.{filter_whiteout-hardlinks}
use mysnapshotter.Extractor.Confined.Blobs.{get-All}
use mysnapshotter.Extractor.Confined.{IsNamed, IsNamedFile}

snoc-IsNamedFile :
    (fs : List TocFile) (f : TocFile)
    → All IsNamedFile fs
    → IsNamedFile f
    → All IsNamedFile (fs ++ (f ∷ []))
snoc-IsNamedFile fs f h c = All-append IsNamedFile fs (f ∷ []) h (c, tt)

add_duplicate-IsNamedFile :
    (k : ℕ) (fs : List TocFile) (j : ℕ)
    → All IsNamedFile fs
    → All IsNamedFile (add_duplicate k fs j)
unfolding add_duplicate
add_duplicate-IsNamedFile k [] j h = tt
add_duplicate-IsNamedFile k (f ∷ fs) zero h = h
add_duplicate-IsNamedFile k (f ∷ fs) (suc j) h = (h.0, add_duplicate-IsNamedFile k fs j h.1)

add_duplicates-IsNamedFile :
    (k : ℕ) (fs : List TocFile) (js : List ℕ)
    → All IsNamedFile fs
    → All IsNamedFile (add_duplicates k fs js)
unfolding add_duplicates
add_duplicates-IsNamedFile k fs [] h = h
add_duplicates-IsNamedFile k fs (j ∷ js) h =
    add_duplicates-IsNamedFile k (add_duplicate k fs j) js (add_duplicate-IsNamedFile k fs j h)

-- The names so far do not climb, and the links are those from before.
pub record IsNamedSplit (links : List Hardlink) (s : Split) : Type 0 where
  pub files : All IsNamedFile s.files
  pub structure : All IsNamed s.structure
  pub links_eq : s.ctx.hardlinks ≡ links

module _ (links : List Hardlink) (query : ℕ → Text → List Text) where
  add_twin-IsNamedSplit :
      (s : Split) (entry : FileMetadata) (paths : List Text) (refs : List ℕ)
      → IsNamed entry
      → IsNamedSplit links s
      → IsNamedSplit links (add_twin s entry paths refs)
  unfolding add_twin
  add_twin-IsNamedSplit s entry paths refs c h = record {
    files =
        snoc-IsNamedFile _ _
          (by_if (All IsNamedFile) (not (is_nil refs) && is_nil paths)
            (add_duplicates-IsNamedFile _ s.files refs h.files) h.files)
          c;
    structure = h.structure;
    links_eq = h.links_eq;
  }

  add_structure-IsNamedSplit :
      (s : Split) (entry : FileMetadata)
      → IsNamed entry
      → IsNamedSplit links s
      → IsNamedSplit links (add_structure s entry)
  add_structure-IsNamedSplit s entry c h = record {
    files = h.files;
    structure = All-append IsNamed s.structure _ h.structure (c, tt);
    links_eq = h.links_eq;
  }

  place-IsNamedSplit :
      (s : Split) (entry : FileMetadata) (t : EntryType)
      → IsNamed entry
      → IsNamedSplit links s
      → IsNamedSplit links (place query s entry t)
  unfolding place add_file
  place-IsNamedSplit s entry EntryType.reg c h =
      by_if (IsNamedSplit links) (is_zero entry.size || entry.digest == [])
        (add_structure-IsNamedSplit s entry c h)
        (add_twin-IsNamedSplit s entry (query (length s.files) entry.digest)
          (s.digests entry.digest) c h)
  place-IsNamedSplit s entry EntryType.chunk c h = h
  place-IsNamedSplit s entry (EntryType.other _) c h = h
  place-IsNamedSplit s entry EntryType.dir c h = add_structure-IsNamedSplit s entry c h
  place-IsNamedSplit s entry EntryType.symlink c h = add_structure-IsNamedSplit s entry c h
  place-IsNamedSplit s entry EntryType.link c h = add_structure-IsNamedSplit s entry c h
  place-IsNamedSplit s entry EntryType.char c h = add_structure-IsNamedSplit s entry c h
  place-IsNamedSplit s entry EntryType.block c h = add_structure-IsNamedSplit s entry c h
  place-IsNamedSplit s entry EntryType.fifo c h = add_structure-IsNamedSplit s entry c h

  with_ctx :
      (s : Split) (lc : LayerCtx)
      → lc.hardlinks ≡ s.ctx.hardlinks
      → IsNamedSplit links s
      → IsNamedSplit links (record s { ctx = lc })
  with_ctx s lc e h = record { files = h.files; structure = h.structure; links_eq = e ∙ h.links_eq }

  process_entry-IsNamedSplit :
      (s : Split) (entry : FileMetadata)
      → IsNamed entry
      → IsNamedSplit links s
      → IsNamedSplit links (process_entry query s entry)
  unfolding process_entry
  process_entry-IsNamedSplit s entry c h =
      let path : Text = clean entry.name in
      let lc : LayerCtx = (filter_whiteout s.ctx path).0 in
      let e : lc.hardlinks ≡ s.ctx.hardlinks = filter_whiteout-hardlinks s.ctx path in
      let marked : LayerCtx = record lc { seen_paths = mark path lc.seen_paths } in
      by_if (IsNamedSplit links) (is_chunk entry.type) h (
        by_if (IsNamedSplit links) _ (with_ctx s lc e h) (
          by_if (IsNamedSplit links) _ (with_ctx s lc e h) (
            place-IsNamedSplit (record s { ctx = marked }) entry entry.type c
              (with_ctx s marked e h))))

  process_entries-IsNamedSplit :
      (s : Split) (es : List FileMetadata)
      → All IsNamed es
      → IsNamedSplit links s
      → IsNamedSplit links (process_entries query s es)
  unfolding process_entries
  process_entries-IsNamedSplit s [] c h = h
  process_entries-IsNamedSplit s (e ∷ es) c h =
      process_entries-IsNamedSplit (process_entry query s e) es c.1
        (process_entry-IsNamedSplit s e c.0 h)

deref-All :
    (P : TocFile → Type 0) (table : List TocFile) (is : List ℕ)
    → All P table
    → All P (deref table is)
unfolding deref
deref-All P table [] h = tt
deref-All P table (i ∷ is) h =
    found (get_elem? table i) refl (deref table is) (deref-All P table is h)
  where
    found :
        (o : Option TocFile)
        → get_elem? table i ≡ o
        → (rest : List TocFile) → All P rest
        → All P (elim o [ none ↦ rest | some f ↦ f ∷ rest ])
    found none e rest k = k
    found (some f) e rest k = (get-All P table i h e, k)

-- What comes of a table of contents.
pub record IsNamedToc (links : List Hardlink) (r : ProcessedToc × LayerCtx) : Type 0 where
  pub missing : All IsNamedFile r.0.missing_files
  pub cached : All IsNamedFile r.0.cached_files
  pub structure : All IsNamed r.0.structure
  pub table : All IsNamedFile r.0.table
  pub links_eq : r.1.hardlinks ≡ links

pub process_toc-IsNamedToc :
    (sorter : Sorter FileMetadata) (query : ℕ → Text → List Text) (entries : List FileMetadata)
    (lc : LayerCtx)
    → All IsNamed entries
    → IsNamedToc lc.hardlinks (process_toc sorter query entries lc)
unfolding process_toc apply_opaques
process_toc-IsNamedToc sorter query entries lc c =
    let sorted = All-Perm IsNamed (λ n. Bool-set _ _) (Sorter.sort-perm sorter _ entries) c in
    let h =
      process_entries-IsNamedSplit lc.hardlinks query (start lc) _ sorted
        (record { files = tt; structure = tt; links_eq = refl }) in
    record {
      missing = deref-All IsNamedFile _ _ h.files;
      cached = deref-All IsNamedFile _ _ h.files;
      structure = h.structure;
      table = h.files;
      links_eq = h.links_eq;
    }
