-- ===== src/Tests/Confinement.antt =====
-- A delta layer and a regular one, extracted in a world that notes the calls.
use mysnapshotter.Prelude.{
  ◌≡◌, refl, sym, ◌∙◌, true, false, none, some, List, [], ◌∷◌, All, codes, text_dec, ok,
  is_not_found, is_already_exists,
}
use mathlib.Core.Path.{subst}
use mysnapshotter.Prelude.Int.{pos}
use mysnapshotter.Prelude.Int64.{add64, sub64}
use mysnapshotter.Paths.{base, clean, dir, abs, rel}
use mysnapshotter.Paths.Below.{climbs}
use mysnapshotter.Chunked.Data.{EntryType, Toc}
use mysnapshotter.FileDb.{update, record_all}
use mysnapshotter.FileDb.Memory.{memory, memory-IsLawful, BucketMap, no_buckets}
use mysnapshotter.Store.Registry.{fetch_toc, get_toc_location}
use mysnapshotter.Extractor.Ranges.{group_missing_files}
use mysnapshotter.Extractor.Split.Kept.{some_inj}
use mysnapshotter.Extractor.Layer.{Header, defer_link}
use mysnapshotter.Extractor.Layer.Links.{ok_inj}
use mysnapshotter.Extractor.System.{Syscall, Reply}
use mysnapshotter.Extractor.Image.{Env, layer_toc, extract_image}
use mysnapshotter.Extractor.Image.Framed.{IsSameAt, extract_image-SameAt}
use mysnapshotter.Extractor.Confined.{IsNamed, IsConfined}
use mysnapshotter.Extractor.Confined.Images.{
  IsTame, IsNamedHeader, IsNamedLayer, extract_image_confined,
}
use mysnapshotter.Tests.Sorts.{insertion_sort}
use mysnapshotter.Tests.Tables.{metadata}
use mysnapshotter.Tests.Runs.{env, codecs, empty_toc, root, good, bad}

program : Unit {0}
unfolding extract_image fetch_toc get_toc_location text_dec update add64 sub64 insertion_sort
    group_missing_files layer_toc climbs base clean dir defer_link abs rel
program = tt

abbrev toc : Toc
toc = record empty_toc {
  entries = record (metadata (codes "d")) { type = EntryType.dir; digest = [] } ∷ [];
}

abbrev header : Header
header = record { name = codes "./x"; is_link = true; linkname = codes "d" }

abbrev noting : Env
noting = record env {
  os = record {
    World = List Syscall;
    call = λ c w. (ok Reply.done, c ∷ w);
    is_not_exist = is_not_found;
    is_exist = is_already_exists;
    is_clone_unsupported = λ e. false;
  };
  codecs = record codecs { unmarshal_toc = λ bytes. ok toc };
  headers = λ desc. ok (header ∷ []);
  extract_entry = λ hdr w. (ok tt, w);
}

abbrev ran : List Syscall
unfolding program
ran = (extract_image noting true root (bad ∷ good ∷ []) no_buckets []).1

-- The directory of the delta layer is made, and at the end the link of the regular one.
link_at_last :
    ran
    ≡ Syscall.link (codes "/r/d") (codes "/r/x")
      ∷ Syscall.chmod (codes "/r/d") 420
      ∷ Syscall.lchown (codes "/r/d") (pos 0) (pos 0)
      ∷ Syscall.chmod (codes "/r/d") 448
      ∷ Syscall.stat (codes "/r/d")
      ∷ Syscall.mkdir_all root 448
      ∷ []
unfolding program
link_at_last = refl

abbrev Confined : List Syscall → Type 0
Confined = All (IsConfined root)

tame : IsTame noting root Confined
tame = record { calls = λ s c w i. (c, i); entries = λ h w i. i }

good-toc : layer_toc noting true good ≡ some toc
unfolding program
good-toc = refl

bad_toc : layer_toc noting true bad ≡ none
unfolding program
bad_toc = refl

IsNamed-toc : All IsNamed toc.entries
unfolding program
IsNamed-toc = (refl, tt)

named_headers : All IsNamedHeader (header ∷ [])
unfolding program
named_headers = (refl, tt)

tar_named : (hs : List Header) → ok (header ∷ []) ≡ ok hs → All IsNamedHeader hs
tar_named hs e = subst (All IsNamedHeader) (ok_inj e) named_headers

named_good : IsNamedLayer noting true good
named_good = record {
  toc_names =
      λ t e. subst (λ (u : Toc). All IsNamed u.entries) (some_inj (sym good-toc ∙ e)) IsNamed-toc;
  tar_names = tar_named;
}

named_bad : IsNamedLayer noting true bad
named_bad = record { toc_names = λ t e. absurd (cc (bad_toc, e)); tar_names = tar_named }

extract_image_confined_example :
    Confined (extract_image noting true root (bad ∷ good ∷ []) no_buckets []).1
extract_image_confined_example =
    extract_image_confined noting root Confined refl tame true (bad ∷ good ∷ []) no_buckets []
      (named_bad, (named_good, tt)) tt

-- Another root is tracked before.
abbrev tracked : BucketMap
tracked =
    (record_all memory (codes "/o") (record { digest = codes "s"; rel_paths = codes "f" ∷ [] } ∷ [])
      no_buckets).0

extract_image-SameAt_example :
    IsSameAt memory
      (codes "/o")
      tracked
      (extract_image noting true root (bad ∷ good ∷ []) tracked []).0.0
unfolding text_dec
extract_image-SameAt_example =
    extract_image-SameAt noting memory-IsLawful true root (codes "/o") (bad ∷ good ∷ []) tracked []
      refl
