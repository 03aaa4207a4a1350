-- ===== src/Store/Commits/References.antt =====
-- The labels of a manifest that commit.go writes keep its configuration and its layers from the
-- garbage collector.
use mysnapshotter.Prelude.{
  ℕ, zero, suc, ◌+◌, ◌<◌, ◌≡◌, ◌≢◌, refl, sym, ap, ◌∙◌, inl, inr, false, Option, none, some, List,
  [], ◌∷◌, ◌++◌, arith, Bool-cases, if◌then◌else◌, Text, codes, ◌==◌, ==_iff, ==_refl,
}
use mysnapshotter.Chunked.Toc.{parse_digits}
use mysnapshotter.Store.Registry.{Descriptor}
use mysnapshotter.Store.Containerd.{Labels}
use mysnapshotter.Store.Snapshots.{set_label, label_of}
use mysnapshotter.Store.Snapshots.Labelling.{delete_label-label_of}
use mysnapshotter.Store.Commits.{show_decimal, content_label, label_layers, manifest_labels}
use mysnapshotter.Store.Commits.Decimals.{show_decimal-parse_digits}

-- The digest of the layer at a place.
abbrev pub layer_digest : ℕ → List Descriptor → Option Text
layer_digest i [] = none
layer_digest zero (l ∷ ls) = some l.digest
layer_digest (suc i) (l ∷ ls) = layer_digest i ls

append_cancel : (a b c : Text) → a ++ b ≡ a ++ c → b ≡ c
append_cancel [] b c h = h
append_cancel (x ∷ a) b c h = append_cancel a b c (cc)

content_label_inj : (i j : ℕ) → content_label i ≡ content_label j → i ≡ j
content_label_inj i j h =
    let e =
      append_cancel (codes "containerd.io/gc.ref.content.") (show_decimal i) (show_decimal j) h in
    let a = show_decimal-parse_digits i in
    let b = show_decimal-parse_digits j in some_inj (sym a ∙ ap (parse_digits 0) e ∙ b)
  where
    some_inj : some i ≡ some j → i ≡ j
    some_inj e = cc

other_label : (i j : ℕ) → i ≢ j → (content_label i == content_label j) ≡ false
other_label i j h = elim (Bool-cases (content_label i == content_label j)) [
  | inl y ↦ absurd (h (content_label_inj i j ((==_iff (content_label i) (content_label j)).0 y)))
  | inr y ↦ y
]

set_label-label_of :
    (m : Labels) (j v k : Text)
    → label_of k (set_label m j v) ≡ (if j == k then some v else label_of k m)
unfolding set_label
set_label-label_of m j v k = elim (Bool-cases (j == k)) [
  | inl y ↦ rw y refl
  | inr y ↦ rw y (delete_label-label_of m j k ∙ rw y refl)
]

-- Labels that are set later have higher numbers.
label_layers-lower :
    (m : Labels) (i j : ℕ) (ls : List Descriptor)
    → i < j
    → label_of (content_label i) (label_layers m j ls) ≡ label_of (content_label i) m
unfolding label_layers
label_layers-lower m i j [] h = refl
label_layers-lower m i j (l ∷ ls) h =
    label_layers-lower (set_label m (content_label j) l.digest) i (suc j) ls (omega arith)
    ∙ set_label-label_of m (content_label j) l.digest (content_label i)
    ∙ rw (other_label j i (λ e. omega arith)) refl

label_layers-at :
    (m : Labels) (i j k : ℕ) (ls : List Descriptor)
    → k ≡ i + j
    → label_of (content_label k) m ≡ none
    → label_of (content_label k) (label_layers m j ls) ≡ layer_digest i ls
unfolding label_layers
label_layers-at m i j k [] e h = h
label_layers-at m zero j k (l ∷ ls) e h =
    let same : k ≡ j = omega arith in
    label_layers-lower (set_label m (content_label j) l.digest) k (suc j) ls (omega arith)
    ∙ set_label-label_of m (content_label j) l.digest (content_label k)
    ∙ rw (ap (λ n. content_label j == content_label n) same ∙ ==_refl (content_label j)) refl
label_layers-at m (suc i) j k (l ∷ ls) e h =
    label_layers-at (set_label m (content_label j) l.digest) i (suc j) k ls (omega arith) (
      set_label-label_of m (content_label j) l.digest (content_label k)
      ∙ rw (other_label j k (λ x. omega arith)) h)

-- The label with the number 0 has the digest of the configuration, and the label with a number above 0
-- that of the layer with this number, counted from 1, or no value where there is no such layer: no
-- label hides another.
pub manifest_labels-label_of :
    (config : Text) (layers : List Descriptor) (i : ℕ)
    → (label_of (content_label 0) (manifest_labels config layers) ≡ some config)
      × (label_of (content_label (suc i)) (manifest_labels config layers) ≡ layer_digest i layers)
unfolding manifest_labels
manifest_labels-label_of config layers i =
    let first : Labels = (content_label 0, config) ∷ [] in
    (
      label_layers-lower first 0 1 layers (omega arith) ∙ rw (==_refl (content_label 0)) refl,
      label_layers-at first i 1 (suc i) layers (omega arith)
          (rw (other_label 0 (suc i) (λ x. omega arith)) refl),
    )
