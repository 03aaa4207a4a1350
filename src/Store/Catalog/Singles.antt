-- ===== src/Store/Catalog/Singles.antt =====
-- `SingleImportFile` of pkg/ocistore/import.go, from its lease to its end, as operations on a map.
use mysnapshotter.Prelude.{
  ℕ, Bool, inl, inr, false, Option, none, some, List, [], ◌∷◌, ◌≡◌, ◌⊎◌, refl, ap, ◌∙◌, arith, Text,
  Error, Result, ok, err,
}
use mysnapshotter.Extractor.System.{M, pure, after, settled, ◌>>=◌, lift, attempt}
use mysnapshotter.Store.Containerd.{Containerd, Image}
use mysnapshotter.Store.Content.{ContentStore, Json}
use mysnapshotter.Store.Views.{Keeps}
use mysnapshotter.Store.Unpacking.{Unpacker}
use mysnapshotter.Store.Archives.{Archive, ImportOpt}
use mysnapshotter.Store.Storing.{keep_first}
use mysnapshotter.Store.Importing.{import_func, import_file, imported, single_import_file}
use mysnapshotter.Store.Catalog.{Records, set, Catalog}
use mysnapshotter.Store.Catalog.Leased.{Did, leased-Did}
use mysnapshotter.Store.Catalog.Holding.{set_all, Holds, bind-Holds}
use mysnapshotter.Store.Catalog.Imports.{IsImporting, stored_of, import_func-Holds}
use mysnapshotter.Store.Catalog.Kept.{named_in, without, Kept, keep_first-Kept}

-- A record with another name than the images stays when they are set.
set_all-other :
    (imgs : List Image) (r : Records) (n : Text) → named_in n imgs ≡ false → set_all imgs r n ≡ r n
unfolding set_all
set_all-other [] r n h = refl
set_all-other (img ∷ imgs) r n h = set_all-other imgs (set img r) n (ground arith) ∙ ground arith

module _ (C : Containerd) (initiated : Bool) (L : Catalog C) (S : ContentStore C.World) (J : Json)
    (A : Archive C.World) (U : Unpacker C) (H : IsImporting C L S A U) where
  open C use {World}
  open L use {view}

  -- Opening and closing a file leave the image records alone.
  pub record IsFiling : Type 0 where
    pub open_file-Keeps : (f : Text) → Keeps view (A.open_file f)
    pub close_file-Keeps : (r : A.Reader) → Keeps view (A.close_file r)

  module _ (F : IsFiling) (rounds : ℕ) (file : Text) (opts : List (ImportOpt C A)) where
    abbrev run_file : M World (List Image × Option Error)
    run_file = import_file C initiated S J A U file opts

    abbrev end_file :
        A.Reader → Result (List Image × Option Error) → M World (List Image × Option Error)
    end_file reader r = do
      closed ← attempt (A.close_file reader)
      (imgs, e) ← lift r
      pure (imgs, elim e [ some x ↦ some x | none ↦ elim closed [ ok _ ↦ none | err x ↦ some x ] ])

    closed-Holds :
        (r : Records) (q : Result (List Image × Option Error)) (w : World)
        (z : Result (Unit {0}) × World)
        → view z.1 ≡ view w
        → Holds C L stored_of r (q, w)
        → Holds C L stored_of r (
            after (settled z) (λ closed. lift q >>= λ p. pure (
              p.0,
              elim p.1 [ some x ↦ some x | none ↦ elim closed [ ok _ ↦ none | err x ↦ some x ] ],
            )))
    closed-Holds r (ok (imgs, e)) w (c, w') k h = k ∙ h
    closed-Holds r (err e) w (c, w') k (js, h) = (js, k ∙ h)

    ended-Holds :
        (r : Records) (reader : A.Reader) (y : Result (List Image × Option Error) × World)
        → Holds C L stored_of r y
        → Holds C L stored_of r (after (settled y) (end_file reader))
    ended-Holds r reader (q, w) h =
        closed-Holds r q w (A.close_file reader w) (F.close_file-Keeps reader w) h

    import_file-Holds : (w : World) → Holds C L stored_of (view w) (run_file w)
    unfolding import_file
    import_file-Holds w =
        bind-Holds C L stored_of (view w) (A.open_file file w) _ (F.open_file-Keeps file w)
          (λ reader w1.
            ended-Holds (view w1) reader (import_func C initiated S J A U reader opts w1)
              (import_func-Holds C initiated L S J A U H reader opts w1))

    -- What a run gives and leaves, from the records before it.
    abbrev pub FirstOnly : Records → Result Image → Records → Type 0
    FirstOnly r (ok img) r' =
        (others : List Image) × (e : Option Error) × (w : World) × (view w ≡ r)
        × ((run_file w).0 ≡ ok (img ∷ others, e))
        × ((n : Text) → r' n ≡ without others (set_all (img ∷ others) r) n)
    FirstOnly r (err x) r' =
        ((js : List Image) × ((n : Text) → r' n ≡ set_all js r n))
        ⊎ ((imgs : List Image) × (e : Option Error) × (w : World) × (view w ≡ r)
            × ((run_file w).0 ≡ ok (imgs, e))
            × ((n : Text) → named_in n imgs ≡ false → r' n ≡ r n))

    after_keep :
        (imgs : List Image) (e : Option Error) (w0 w1 : World) (x : Result Image × World)
        → (run_file w0).0 ≡ ok (imgs, e)
        → view w1 ≡ set_all imgs (view w0)
        → Kept view imgs (view w1) x
        → Did C initiated L FirstOnly (view w0) x
    unfolding set_all
    after_keep [] e w0 w1 (ok j, w) h v k = absurd k
    after_keep [] e w0 w1 (err y, w) h v k = inl ([], λ n. k n ∙ ap (λ s. s n) v)
    after_keep (img ∷ others) e w0 w1 (ok j, w) h v k =
        (others, e, w0, refl, rw k.0 h, λ n. k.1 n ∙ ap (λ s. without others s n) v ∙ rw k.0 refl)
    after_keep (img ∷ others) e w0 w1 (err y, w) h v k = inr (
      img ∷ others,
      e,
      w0,
      refl,
      h,
      λ n o. rw o at (k n) ∙ ap (λ s. s n) v ∙ set_all-other (img ∷ others) (view w0) n o,
    )

    after_import :
        (w0 : World) (y : Result (List Image × Option Error) × World)
        → (run_file w0).0 ≡ y.0
        → Holds C L stored_of (view w0) y
        → Did C initiated L FirstOnly (view w0) (
            after (settled y) (λ r. keep_first C initiated rounds (imported C initiated S J A U r)))
    unfolding keep_first
    after_import w0 (ok (imgs, e), w1) h v =
        after_keep imgs e w0 w1 (keep_first C initiated rounds imgs w1) h v
          (keep_first-Kept C initiated L rounds imgs w1)
    after_import w0 (err x, w1) h (js, v) = inl (js, λ n. ap (λ s. s n) v)

    -- `SingleImportFile`: if it returns an image, that is the first of those that the import of the file
    -- returns, and the records are those of before with all imported images set, whole and in their order,
    -- and then those with a name of the others gone, its own too if another has its name. If it
    -- ends in an error then either some images are set and nothing else has changed, or the import of the
    -- file returns images, and no record with another name than theirs has changed. The content store,
    -- the archive and the unpacker leave the records alone.
    pub single_import_file-FirstOnly :
        (w : World)
        → Did C initiated L FirstOnly
            (view w)
            (single_import_file C initiated S J A U rounds file opts w)
    unfolding single_import_file
    single_import_file-FirstOnly w =
        leased-Did C initiated L FirstOnly (λ r e. inl ([], λ n. unfold set_all in refl)) _ w
          (λ w1. after_import w1 (run_file w1) refl (import_file-Holds w1))
