-- ===== src/Chunked/Footer.antt =====
-- `ParseFooterFrame` of pkg/chunked/tocutil.go: the binary footer at the end of a blob.
pub mod Layout
use mysnapshotter.Prelude.{
  ◌>>=◌, ◌>>◌, ℕ, ◌+◌, ◌-◌, ◌*◌, not, List, [], ◌∷◌, ltb, eqb, if◌then◌else◌, length, take, drop,
  ◌==◌, message, external, Result, ok, err, guard, context,
}
use mysnapshotter.Chunked.Data.{TocLocation}

-- `io.ReadFull` into a buffer of `n` bytes from a reader that holds these bytes.
unfoldable pub read_full : ℕ → List ℕ → Result (List ℕ)
read_full n bytes =
    if ltb (length bytes) n then err (external "unexpected EOF") else ok (take n bytes)

abbrev pub slice : ℕ → ℕ → List ℕ → List ℕ
slice lo hi bytes = take (hi - lo) (drop lo bytes)

-- `binary.LittleEndian.Uint32` and `Uint64` of bytes.
abbrev pub little_endian : List ℕ → ℕ
little_endian [] = 0
little_endian (b ∷ bs) = b + 256 * little_endian bs

abbrev pub footer_size : ℕ
footer_size = 64

abbrev pub footer_frame_size : ℕ
footer_frame_size = 72

abbrev pub zstd_skippable_frame_magic : List ℕ
zstd_skippable_frame_magic = 0x50 ∷ 0x2a ∷ 0x4d ∷ 0x18 ∷ []

abbrev pub zstd_chunked_frame_magic : List ℕ
zstd_chunked_frame_magic = 0x47 ∷ 0x4e ∷ 0x55 ∷ 0x6c ∷ 0x49 ∷ 0x6e ∷ 0x55 ∷ 0x78 ∷ []

unfoldable pub check_payload : List ℕ → Result TocLocation
check_payload payload = do
  guard (slice 56 64 payload == zstd_chunked_frame_magic) (message "invalid zstd:chunked magic")
  guard (eqb (little_endian (slice 24 32 payload)) 1) (message "unsupported manifest type")
  ok (record {
    offset = little_endian (slice 0 8 payload);
    length_compressed = little_endian (slice 8 16 payload);
    length_uncompressed = little_endian (slice 16 24 payload);
    digest = [];
  })

-- The checks of the whole frame.
unfoldable pub check_frame : List ℕ → Result TocLocation
unfolding check_payload
check_frame buf = do
  guard (slice 0 4 buf == zstd_skippable_frame_magic) (message "not a zstd skippable frame")
  guard (eqb (little_endian (slice 4 8 buf)) footer_size) (message "footer frame payload size")
  check_payload (drop 8 buf)

-- `ParseFooterFrame`.
unfoldable pub parse_footer_frame : List ℕ → Result TocLocation
unfolding read_full check_frame
parse_footer_frame r = do
  buf ← context "reading footer frame" (read_full footer_frame_size r)
  check_frame buf
