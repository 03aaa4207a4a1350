-- ===== src/Store/Snapshots/Labelling.antt =====
-- What the label operations of pkg/ocistore/snapshots.go leave.
use mysnapshotter.Prelude.{
  ◌≡◌, refl, ap, ◌∙◌, inl, inr, Option, none, some, List, [], ◌∷◌, arith, if◌then◌else◌, Bool-cases,
  any, Text, ◌==◌,
}
use mysnapshotter.Store.Containerd.{Labels}
use mysnapshotter.Store.Snapshots.{delete_label, delete_labels, set_label, copy_labels, label_of}

pub delete_label-label_of :
    (m : Labels) (j k : Text)
    → label_of k (delete_label m j) ≡ (if j == k then none else label_of k m)
unfolding delete_label
delete_label-label_of [] j k = ground arith
delete_label-label_of ((i, v) ∷ m) j k = ground (arith, delete_label-label_of m j k)

-- After `removeSnapshotLabels` a label has no value if it is one of the keys, and the value that it
-- had otherwise.
pub delete_labels-label_of :
    (m : Labels) (ks : List Text) (k : Text)
    → label_of k (delete_labels m ks) ≡ (if any (λ j. j == k) ks then none else label_of k m)
unfolding delete_labels
delete_labels-label_of m [] k = ground arith
delete_labels-label_of m (j ∷ ks) k =
    ground (arith, delete_labels-label_of (delete_label m j) ks k, delete_label-label_of m j k)

-- No key stands twice.
abbrev pub OncePerKey : Labels → Type 0
OncePerKey [] = Unit
OncePerKey ((k, v) ∷ m) = (label_of k m ≡ none) × OncePerKey m

abbrev pub or_else : Option Text → Option Text → Option Text
or_else none old = old
or_else (some v) old = some v

-- After `labelSnapshot` with a map, so with no key twice, a label has the value that the map gives
-- it, and the value that it had where the map has none.
pub copy_labels-label_of :
    (dst src : Labels) (k : Text)
    → OncePerKey src
    → label_of k (copy_labels dst src) ≡ or_else (label_of k src) (label_of k dst)
unfolding copy_labels
copy_labels-label_of dst [] k h = refl
copy_labels-label_of dst ((j, v) ∷ src) k h =
    copy_labels-label_of (set_label dst j v) src k h.1 ∙ (elim (Bool-cases (j == k)) [
      | inl e ↦ let gone : label_of k src ≡ none = ground arith in rw (gone, e) refl
      | inr e ↦ rw e (ap (or_else (label_of k src)) (delete_label-label_of dst j k ∙ rw e refl))
    ])
