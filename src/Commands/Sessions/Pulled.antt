-- ===== src/Commands/Sessions/Pulled.antt =====
-- A pulled image can be got after any commands that spare its name.
use mysnapshotter.Prelude.{
  ℕ, String, true, Option, some, List, All, ◌≡◌, refl, ap, ◌∙◌, Text, ==_refl, Error, Result, ok,
  err,
}
use mathlib.Core.Path.{subst}
use mysnapshotter.Extractor.System.{wrapped}
use mysnapshotter.Store.Containerd.{Containerd, Image}
use mysnapshotter.Store.Images.{get_image}
use mysnapshotter.Store.Pulling.{PullOpt, pull}
use mysnapshotter.Store.Catalog.{Catalog, set}
use mysnapshotter.Store.Catalog.Pulls.{IsApart, Sets, pull-Sets}
use mysnapshotter.Commands.{Host, World, Command}
use mysnapshotter.Commands.Sessions.{session}
use mysnapshotter.Commands.Sessions.Records.{IsSeparate}
use mysnapshotter.Commands.Sessions.Names.{IsSparing, session-spared}

-- `Get` of the image store gives the record that is there.
abbrev pub Reads : (H : Host) → Catalog H.containerd → Type 0
Reads H L =
    (n : Text) (w : World H) (img : Image)
    → L.view w n ≡ some img
    → (Containerd.image_get H.containerd n w).0 ≡ ok img

module _ (H : Host) (L : Catalog H.containerd) (P : IsSeparate H L) where
  apart : IsApart H.containerd L H.remote H.unpacker
  apart = record {
    resolve-Keeps = P.resolve-Keeps;
    new_fetcher-Keeps = P.new_fetcher-Keeps;
    source_label-Keeps = P.source_label-Keeps;
    dispatch-Keeps = P.dispatch-Keeps;
    convert-Keeps = P.convert-Keeps;
    unpacks = record {
      new_unpacker-Keeps = P.new_unpacker-Keeps;
      walk-Keeps = P.walk_layers-Keeps;
      wait-Keeps = P.wait-Keeps;
    };
  }

  held :
      (w w1 : World H) (rounds : ℕ) (ref : Text) (opts : List (PullOpt H.containerd H.remote))
      (img : Image) (e : Option Error)
      → pull H.containerd H.remote true H.unpacker rounds ref opts w ≡ (ok (img, e), w1)
      → L.view w1 img.name ≡ some img
  held w w1 rounds ref opts img e h =
      let s : L.view w1 ≡ set img (L.view w) =
        subst
          (Sets H.containerd true L H.remote H.unpacker (λ (q : Image × Option Error). q.0)
            (L.view w))
          h (pull-Sets H.containerd true L H.remote H.unpacker apart rounds ref opts w) in
      ap (λ r. r img.name) s ∙ rw (==_refl img.name) refl

  named_ok :
      (s : String) (x : Result Image × World H) (img : Image)
      → x.0 ≡ ok img
      → (wrapped s x).0 ≡ ok img
  named_ok s (ok i, w) img h = h
  named_ok s (err e, w) img h = absurd (cc)

  -- If a pull returns an image, unpacked or not, then after any commands, also failing ones, that do not
  -- pull, commit to or delete its name and import no archive, Get of that name returns that image, if
  -- the image store gives the record that it has.
  pub get_image-pull :
      Reads H L
      → (w w1 : World H) (rounds : ℕ) (ref : Text) (opts : List (PullOpt H.containerd H.remote))
        (img : Image) (e : Option Error)
      → pull H.containerd H.remote true H.unpacker rounds ref opts w ≡ (ok (img, e), w1)
      → (root : Text) (cs : List Command) → All (IsSparing H L P img.name) cs
      → (get_image H.containerd true img.name (session H rounds root cs w1)).0 ≡ ok img
  unfolding get_image
  get_image-pull reads w w1 rounds ref opts img e h root cs spare =
      named_ok _ (H.containerd.image_get img.name (session H rounds root cs w1)) img (
        reads img.name (session H rounds root cs w1) img (
          session-spared H L P img.name rounds root cs w1 spare
          ∙ held w w1 rounds ref opts img e h))
