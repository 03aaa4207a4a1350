-- ===== src/Extractor/Confined/Contents.antt =====
-- The paths of the calls that write file contents.
use mysnapshotter.Prelude.{
  ℕ, true, List, [], ◌∷◌, All, if◌then◌else◌, ◌≡◌, Text, wrap, Result, ok, err,
}
use mysnapshotter.Paths.{is_abs, join}
use mysnapshotter.Paths.Below.{IsBelow, join-IsBelow}
use mysnapshotter.Chunked.Data.{FileMetadata}
use mysnapshotter.Extractor.Files.{TocFile}
use mysnapshotter.Extractor.System.{Syscall, Reply, Os, M, pure, fail, ◌>>◌, named, attempt, issue}
use mysnapshotter.Extractor.Maintaining.{
  IfOk, Whatever, Maintains, pure-Maintains, fail-Maintains, lift-Maintains, then-Maintains,
  bind-Maintains, named-Maintains, attempt-Maintains, settled-Maintains, if-Maintains,
  for_each-Maintains,
}
use mysnapshotter.Extractor.Contents.{
  clone_or_copy, fill_target, copy_to_target, reflink_or_copy, copy_cached, apply_cached_file,
  apply_cached_files,
}
use mysnapshotter.Extractor.Confined.{
  IsNamedFile, Respects, any_ok, issue-Maintains, told-Maintains,
}
use mysnapshotter.Extractor.Confined.Metadata.{apply_metadata-Maintains}

module _ (O : Os) (decode_base64 : Text → Result (List ℕ)) (root : Text) (I : O.World → Type 0)
    (H : Respects O root I) where
  open O use {World}

  abbrev cloned : Text → Text → Result Reply → M World (Unit {0})
  cloned target source r = elim r [
    | ok _ ↦ pure tt
    | err e ↦
        if O.is_clone_unsupported e
        then (do
          named "seeking file before copying" (issue O (Syscall.seek_start source))
          named "copying" (issue O (Syscall.copy target source))
          pure tt)
        else fail (wrap "reflinking" e)
  ]

  clone_or_copy-Maintains :
      (target source : Text)
      → IsBelow root target
      → Maintains I Whatever (clone_or_copy O decode_base64 target source)
  unfolding clone_or_copy
  clone_or_copy-Maintains target source b =
      settled-Maintains I Whatever (cloned target source)
        (issue-Maintains O root I H (Syscall.clone target source) b) (λ _ _. pure-Maintains I tt tt)
        (λ e.
          if-Maintains I (O.is_clone_unsupported e)
            (then-Maintains I (told-Maintains O root I H _ (Syscall.seek_start source) tt) (
              then-Maintains I (told-Maintains O root I H _ (Syscall.copy target source) b)
                (pure-Maintains I tt tt)))
            (fail-Maintains I _))

  fill_target-Maintains :
      (target source : Text) (entry : FileMetadata)
      → IsBelow root target
      → Maintains I Whatever (fill_target O decode_base64 target source entry)
  unfolding fill_target
  fill_target-Maintains target source entry b =
      then-Maintains I (clone_or_copy-Maintains target source b) (
        then-Maintains I (told-Maintains O root I H _ _ b) (
          then-Maintains I (told-Maintains O root I H _ (Syscall.close target) tt) (
            named-Maintains I _
              (apply_metadata-Maintains O decode_base64 root I H target entry b))))

  abbrev filled : Text → Result (Unit {0}) → M World (Unit {0})
  filled target r = elim r [
    | ok _ ↦ pure tt
    | err e ↦ do
      attempt (issue O (Syscall.close target))
      attempt (issue O (Syscall.remove target))
      fail e
  ]

  -- What a call answers does not matter.
  pub tried-Maintains :
      (s : Syscall) → Maintains I Whatever (issue O s) → Maintains I Whatever (attempt (issue O s))
  tried-Maintains s m = record { run = λ w i. ((m.run w i).0, tt) }

  copy_to_target-Maintains :
      (target source : Text) (entry : FileMetadata)
      → IsBelow root target
      → Maintains I Whatever (copy_to_target O decode_base64 target source entry)
  unfolding copy_to_target
  copy_to_target-Maintains target source entry b =
      bind-Maintains I Whatever (told-Maintains O root I H _ (Syscall.stat source) tt) (λ info _.
        then-Maintains I (lift-Maintains I _ (any_ok _)) (
          then-Maintains I (issue-Maintains O root I H (Syscall.open_write target 448) b) (
            settled-Maintains I Whatever (filled target)
              (fill_target-Maintains target source entry b) (λ _ _. pure-Maintains I tt tt)
              (λ e.
                then-Maintains I
                  (tried-Maintains _ (issue-Maintains O root I H (Syscall.close target) tt))
                  (then-Maintains I
                    (tried-Maintains _ (issue-Maintains O root I H (Syscall.remove target) b))
                    (fail-Maintains I e))))))

  abbrev copied : Result (Unit {0}) → Result Reply → M World (Unit {0})
  copied r closed = elim r [
    | err e ↦ fail e
    | ok _ ↦ (elim closed [ ok _ ↦ pure tt | err e ↦ fail e ])
  ]

  copied-Maintains :
      (r : Result (Unit {0})) (closed : Result Reply) → Maintains I Whatever (copied r closed)
  copied-Maintains (err e) closed = fail-Maintains I e
  copied-Maintains (ok _) (ok _) = pure-Maintains I tt tt
  copied-Maintains (ok _) (err e) = fail-Maintains I e

  pub reflink_or_copy-Maintains :
      (target source : Text) (entry : FileMetadata)
      → IsBelow root target
      → Maintains I Whatever (reflink_or_copy O decode_base64 target source entry)
  unfolding reflink_or_copy
  reflink_or_copy-Maintains target source entry b =
      then-Maintains I (told-Maintains O root I H _ (Syscall.open_read source) tt) (
        bind-Maintains I (IfOk Whatever)
          (attempt-Maintains I (copy_to_target-Maintains target source entry b))
          (λ r _.
            bind-Maintains I (IfOk Whatever)
              (attempt-Maintains I (issue-Maintains O root I H (Syscall.close source) tt))
              (λ closed _. copied-Maintains r closed)))

  copy_cached-Maintains :
      (target : Text) (entry : FileMetadata) (paths : List Text) (last : Result (Unit {0}))
      → IsBelow root target
      → Maintains I Whatever (copy_cached O decode_base64 target entry paths last)
  unfolding copy_cached
  copy_cached-Maintains target entry [] last b = pure-Maintains I last tt
  copy_cached-Maintains target entry (c ∷ cs) last b =
      bind-Maintains I (IfOk Whatever)
        (attempt-Maintains I (reflink_or_copy-Maintains target c entry b))
        (λ r _. copy_cached-Maintains target entry cs r b)

  module _ (rooted : is_abs root ≡ true) where
    below : (f : TocFile) → IsNamedFile f → IsBelow root (join root f.entry.name)
    below f c = join-IsBelow root f.entry.name rooted c

    apply_cached_file-Maintains :
        (f : TocFile)
        → IsNamedFile f
        → Maintains I Whatever (apply_cached_file O decode_base64 root f)
    unfolding apply_cached_file
    apply_cached_file-Maintains f c =
        bind-Maintains I Whatever
          (copy_cached-Maintains _ f.entry f.cached_paths (ok tt) (below f c))
          (λ r _. named-Maintains I _ (lift-Maintains I r (any_ok r)))

    pub apply_cached_files-Maintains :
        (files : List TocFile)
        → All IsNamedFile files
        → Maintains I Whatever (apply_cached_files O decode_base64 root files)
    unfolding apply_cached_files
    apply_cached_files-Maintains files c =
        for_each-Maintains I IsNamedFile files c apply_cached_file-Maintains
