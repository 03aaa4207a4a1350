-- ===== src/Extractor/Confined/Metadata.antt =====
-- The paths of the calls that set metadata and remove paths.
use mysnapshotter.Prelude.{ℕ, Option, none, some, List, Text, if◌then◌else◌, Result, ok, err}
use mysnapshotter.Prelude.Int.{ℤ}
use mysnapshotter.Paths.Below.{IsBelow}
use mysnapshotter.Chunked.Data.{FileMetadata}
use mysnapshotter.Extractor.System.{Syscall, Reply, Os, M, pure, fail, remove_if_exists}
use mysnapshotter.Extractor.Maintaining.{
  Whatever, Maintains, pure-Maintains, fail-Maintains, lift-Maintains, then-Maintains,
  bind-Maintains, named-Maintains, settled-Maintains, if-Maintains, for_each-Maintains,
}
use mysnapshotter.Extractor.Nodes.{set_times, set_xattr, apply_metadata}
use mysnapshotter.Extractor.Confined.{
  Respects, any_ok, all-Whatever, issue-Maintains, told-Maintains,
}

module _ (O : Os) (decode_base64 : Text → Result (List ℕ)) (root : Text) (I : O.World → Type 0)
    (H : Respects O root I) where
  open O use {World}

  set_times-Maintains :
      (path : Text) (t : Option (ℤ × ℤ))
      → IsBelow root path
      → Maintains I Whatever (set_times O decode_base64 path t)
  unfolding set_times
  set_times-Maintains path none b = pure-Maintains I tt tt
  set_times-Maintains path (some (a, m)) b =
      then-Maintains I (told-Maintains O root I H _ _ b) (pure-Maintains I tt tt)

  set_xattr-Maintains :
      (path : Text) (x : Text × Text)
      → IsBelow root path
      → Maintains I Whatever (set_xattr O decode_base64 path x)
  unfolding set_xattr
  set_xattr-Maintains path (k, v) b =
      bind-Maintains I Whatever
        (named-Maintains I _ (lift-Maintains I (decode_base64 v) (any_ok _)))
        (λ bytes _. then-Maintains I (told-Maintains O root I H _ _ b) (pure-Maintains I tt tt))

  pub apply_metadata-Maintains :
      (path : Text) (n : FileMetadata)
      → IsBelow root path
      → Maintains I Whatever (apply_metadata O decode_base64 path n)
  unfolding apply_metadata
  apply_metadata-Maintains path n b = then-Maintains I (told-Maintains O root I H _ _ b) (
      then-Maintains I (if-Maintains I _ (pure-Maintains I _ tt) (told-Maintains O root I H _ _ b))
        (then-Maintains I (set_times-Maintains path _ b) (
          for_each-Maintains I Whatever _ (all-Whatever n.xattrs)
            (λ x _. set_xattr-Maintains path x b))))

  -- What follows the removal of a path that may be missing.
  abbrev missing : Result Reply → M World (Unit {0})
  missing r = elim r [ ok _ ↦ pure tt | err e ↦ if O.is_not_exist e then pure tt else fail e ]

  pub remove_if_exists-Maintains :
      (path : Text) → IsBelow root path → Maintains I Whatever (remove_if_exists O path)
  unfolding remove_if_exists
  remove_if_exists-Maintains path b =
      settled-Maintains I Whatever missing (issue-Maintains O root I H (Syscall.remove path) b)
        (λ _ _. pure-Maintains I tt tt)
        (λ e. if-Maintains I (O.is_not_exist e) (pure-Maintains I tt tt) (fail-Maintains I e))
