-- ===== src/Chunked/Toc.antt =====
-- `ParseAnnotations`, `ParseTOC` and `verifySHA256` of pkg/chunked/tocutil.go. The zstd decoder
-- (github.com/klauspost/compress), SHA-256 and the JSON decoder are parameters.
pub mod Laws
use mysnapshotter.Prelude.{
  ◌>>=◌, ◌>>◌, ℕ, zero, suc, ◌+◌, ◌-◌, ◌*◌, Bool, ◌&&◌, Option, none, some, List, [], ◌∷◌, ltb, leb,
  eqb, if◌then◌else◌, length, Text, codes, ◌==◌, Error, message, wrap, external, Result, ok, err,
  guard, context,
}
use mysnapshotter.Chunked.Data.{Toc, TocLocation}
use mysnapshotter.Chunked.Footer.{read_full}
use mysnapshotter.Prelude.{cut_prefix}

abbrev pub uint64_limit : ℕ
uint64_limit = 18_446_744_073_709_551_616

-- A map of annotations, and reading a missing key as the empty text.
abbrev pub Annotations : Type 0
Annotations = Text → Option Text

abbrev pub text_or_empty : Option Text → Text
text_or_empty none = []
text_or_empty (some s) = s

abbrev pub manifest_checksum_key : Text
manifest_checksum_key = codes "io.github.containers.zstd-chunked.manifest-checksum"

abbrev pub manifest_info_key : Text
manifest_info_key = codes "io.github.containers.zstd-chunked.manifest-position"

-- The text before the first colon and the text behind it, if there is one.
unfoldable pub cut_colon : Text → Option (Text × Text)
cut_colon [] = none
cut_colon (c ∷ s) =
    let rest = cut_colon s in
    if eqb c 58 then some ([], s) else elim rest [ none ↦ none | some (a, b) ↦ some (c ∷ a, b) ]

-- `strings.SplitN(s, ":", n)` for n above 0: the last piece holds the rest.
unfoldable pub split_n : ℕ → Text → List Text
unfolding cut_colon
split_n zero s = []
split_n (suc zero) s = s ∷ []
split_n (suc (suc n)) s = elim (cut_colon s) [ none ↦ s ∷ [] | some (a, b) ↦ a ∷ split_n (suc n) b ]

abbrev pub is_digit : ℕ → Bool
is_digit c = leb 48 c && leb c 57

-- The value of decimal digits, from the value so far.
unfoldable pub parse_digits : ℕ → Text → Option ℕ
parse_digits acc [] = some acc
parse_digits acc (c ∷ s) =
    let rest = parse_digits (acc * 10 + (c - 48)) s in if is_digit c then rest else none

abbrev in_range : Option ℕ → Result ℕ
in_range none = err (external "strconv: invalid syntax")
in_range (some n) =
    if ltb n uint64_limit then ok n else err (external "strconv: value out of range")

-- `strconv.ParseUint(s, 10, 64)`.
unfoldable pub parse_uint : Text → Result ℕ
unfolding parse_digits
parse_uint [] = err (external "strconv: invalid syntax")
parse_uint (c ∷ s) = in_range (parse_digits 0 (c ∷ s))

unfoldable pub parse_fields : List Text → Text → Result TocLocation
unfolding parse_uint
parse_fields (a ∷ b ∷ c ∷ d ∷ []) checksum = do
  offset ← context "parsing offset" (parse_uint a)
  comp_len ← context "parsing compressed length" (parse_uint b)
  uncomp_len ← context "parsing uncompressed length" (parse_uint c)
  manifest_type ← context "parsing manifest type" (parse_uint d)
  guard (eqb manifest_type 1) (message "unsupported manifest type")
  ok (record {
    offset = offset;
    length_compressed = comp_len;
    length_uncompressed = uncomp_len;
    digest = checksum;
  })
parse_fields _ checksum = err (message "expected 4 colon-separated fields")

-- What is made of the position annotation, if it is there.
unfoldable pub parse_info : Option Text → Text → Result TocLocation
unfolding parse_fields split_n
parse_info none checksum = err (message "annotation absent")
parse_info (some info) checksum = parse_fields (split_n 4 info) checksum

-- `ParseAnnotations`.
unfoldable pub parse_annotations : Annotations → Result TocLocation
unfolding parse_info
parse_annotations annotations =
    parse_info (annotations manifest_info_key) (text_or_empty (annotations manifest_checksum_key))

-- The libraries that reading a table of contents calls.
pub record Codecs : Type 0 where
  pub sha256 : List ℕ → List ℕ
  pub new_reader : Option Error
  pub decode_all : List ℕ → Result (List ℕ)
  pub unmarshal_toc : List ℕ → Result Toc

-- The error of making a decoder, if there is one.
abbrev pub made : Option Error → Result (Unit {0})
made none = ok tt
made (some e) = err (wrap "creating zstd decoder" e)

-- The value of a hexadecimal digit.
abbrev pub hex_value : ℕ → Option ℕ
hex_value c =
    if leb 48 c && leb c 57
    then some (c - 48)
    else if leb 97 c && leb c 102
    then some (c - 87)
    else if leb 65 c && leb c 70
    then some (c - 55)
    else none

abbrev hex_byte : Option ℕ → Option ℕ → Result (List ℕ) → Result (List ℕ)
hex_byte (some a) (some b) (ok bytes) = ok ((a * 16 + b) ∷ bytes)
hex_byte (some a) (some b) (err e) = err e
hex_byte _ _ _ = err (external "hex: invalid byte")

-- `hex.DecodeString`.
unfoldable pub hex_decode : Text → Result (List ℕ)
hex_decode [] = ok []
hex_decode (c ∷ []) = err (external "hex: odd length")
hex_decode (c ∷ d ∷ s) = hex_byte (hex_value c) (hex_value d) (hex_decode s)

-- 150 MiB.
abbrev pub max_toc_size : ℕ
max_toc_size = 157_286_400

module _ (K : Codecs) where
  -- `verifySHA256`.
  unfoldable pub verify_sha256 : List ℕ → Text → Result (Unit {0})
  unfolding cut_prefix hex_decode
  verify_sha256 bytes expected = elim (cut_prefix (codes "sha256:") expected) [
    | none ↦ err (message "unsupported digest format")
    | some hex_digest ↦ do
      expected_bytes ← context "invalid hex in digest" (hex_decode hex_digest)
      guard (K.sha256 bytes == expected_bytes) (message "digest mismatch")
  ]

  -- The integrity check, the decompression and the decoding of the compressed bytes.
  unfoldable pub open_toc : TocLocation → List ℕ → Result Toc
  unfolding verify_sha256
  open_toc loc compressed = do
    (if loc.digest == []
        then ok tt
        else context "TOC integrity check" (verify_sha256 compressed loc.digest))
    made K.new_reader
    decompressed ← context "decompressing TOC" (K.decode_all compressed)
    context "parsing TOC JSON" (K.unmarshal_toc decompressed)

  -- `ParseTOC`, from a reader that holds these bytes.
  unfoldable pub parse_toc : List ℕ → TocLocation → Result Toc
  unfolding open_toc read_full
  parse_toc r loc = do
    guard (leb loc.length_compressed max_toc_size) (message "compressed TOC too large")
    guard (leb loc.length_uncompressed max_toc_size) (message "uncompressed TOC too large")
    compressed ← context "reading compressed TOC" (read_full loc.length_compressed r)
    open_toc loc compressed
