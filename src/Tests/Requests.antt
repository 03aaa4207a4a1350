-- ===== src/Tests/Requests.antt =====
-- Two files with a gap between them, fetched by one range request.
use mysnapshotter.Prelude.{
  ℕ, ◌≡◌, refl, List, [], ◌∷◌, arith, take, drop, map, Text, codes, text_dec, Result, ok,
}
use mysnapshotter.Prelude.Int.{ℤ, pos, pos_part}
use mysnapshotter.Prelude.Int64.{add64, sub64}
use mysnapshotter.Extractor.System.{for_each}
use mysnapshotter.Extractor.Files.{TocFile}
use mysnapshotter.Extractor.Ranges.{group_sorted}
use mysnapshotter.Extractor.Ranges.Chains.{AllPlaced}
use mysnapshotter.Extractor.Contents.{fetch_and_apply_blob_ranges}
use mysnapshotter.Extractor.Contents.Slices.{from_part, AllWithin}
use mysnapshotter.Extractor.Contents.Requests.{fetch_and_apply_blob_ranges-parts}
use mysnapshotter.Tests.Runs.{os, env}
use mysnapshotter.Tests.Tables.{file}

program : Unit {0}
unfolding text_dec add64 sub64 group_sorted fetch_and_apply_blob_ranges
program = tt

abbrev blob : List ℕ
blob = 1 ∷ 2 ∷ 3 ∷ 4 ∷ 5 ∷ 6 ∷ []

abbrev fetch : ℤ → ℤ → Result (List ℕ)
fetch p n = ok (take (pos_part n) (drop (pos_part p) blob))

abbrev files : List TocFile
files = file 0 2 ∷ file 4 2 ∷ []

one_group : map (λ g. g.size) (group_sorted files) ≡ pos 6 ∷ []
unfolding program
one_group = refl

abbrev decode : Text → Result (List ℕ)
decode t = ok t

files-AllPlaced : AllPlaced files
files-AllPlaced = ((refl, refl, omega arith), ((refl, refl, omega arith), tt))

files-AllWithin : AllWithin os decode env.zstd files (codes "/r") blob files
files-AllWithin = (omega arith, (omega arith, tt))

fetch_and_apply_blob_ranges-parts_example :
    fetch_and_apply_blob_ranges os decode env.zstd files (codes "/r") fetch (group_sorted files) 0
    ≡ for_each files (from_part os decode env.zstd files (codes "/r") blob) 0
fetch_and_apply_blob_ranges-parts_example =
    fetch_and_apply_blob_ranges-parts os decode env.zstd files (codes "/r") blob fetch files 0
      (λ p n h. refl) files-AllPlaced files-AllWithin
