-- ===== src/Extractor/Ranges.antt =====
-- `groupMissingFiles` of pkg/extractor/toc_process.go: neighbouring byte ranges become one request.
pub mod Chains
use mysnapshotter.Prelude.{ℕ, ◌+◌, Bool, ◌&&◌, not, List, [], ◌∷◌, ◌++◌, if◌then◌else◌}
use mysnapshotter.Prelude.Int.{ℤ, pos}
use mysnapshotter.Prelude.Int64.{add64, sub64, leb_ℤ}
use mysnapshotter.Prelude.Sorting.{Sorter}
use mysnapshotter.Extractor.Files.{ByteRange, TocFile, ByteRangeGroup}

-- `gapThreshold`: 128 * 1024.
abbrev pub gap_threshold : ℕ
gap_threshold = 131072

unfoldable pub start_group : TocFile → ByteRangeGroup
start_group miss = record {
  start_offset = miss.range.offset;
  size = miss.range.size;
  files = miss ∷ [];
}

unfoldable pub extend_group : ByteRangeGroup → TocFile → ByteRangeGroup
extend_group current miss = record current {
  size = sub64 (add64 miss.range.offset miss.range.size) current.start_offset;
  files = current.files ++ (miss ∷ []);
}

-- The gap between the group's end and the file is neither negative nor over the threshold.
unfoldable pub joins : ByteRangeGroup → TocFile → Bool
joins current miss =
    let gap = sub64 miss.range.offset (add64 current.start_offset current.size) in
    leb_ℤ (pos 0) gap && leb_ℤ gap (pos gap_threshold)

-- The loop, once there is a current group.
unfoldable pub group_loop :
    List TocFile → List ByteRangeGroup → ByteRangeGroup → List ByteRangeGroup
unfolding start_group extend_group joins
group_loop [] groups current = groups ++ (current ∷ [])
group_loop (miss ∷ misses) groups current =
    group_loop misses (if joins current miss then groups else groups ++ (current ∷ []))
      (if joins current miss then extend_group current miss else start_group miss)

unfoldable pub group_sorted : List TocFile → List ByteRangeGroup
unfolding group_loop start_group
group_sorted [] = []
group_sorted (miss ∷ misses) = group_loop misses [] (start_group miss)

abbrev pub offset_less : TocFile → TocFile → Bool
offset_less a b = not (leb_ℤ b.range.offset a.range.offset)

-- `groupMissingFiles`, with `sort.Slice` as it is documented.
unfoldable pub group_missing_files : Sorter TocFile → List TocFile → List ByteRangeGroup
unfolding group_sorted
group_missing_files sorter misses = group_sorted (sorter.sort offset_less misses)
