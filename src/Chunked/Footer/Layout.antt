-- ===== src/Chunked/Footer/Layout.antt =====
-- The documented binary layout of the footer, and its round trip.
use mysnapshotter.Prelude.{
  ℕ, zero, suc, ◌/◌, ◌%◌, ◌<◌, ◌≡◌, refl, sym, ap, ◌∙◌, List, [], ◌∷◌, ◌++◌, arith, length, take,
  length-append, text_dec, ok, ◌>>=◌, context,
}
use mysnapshotter.Chunked.Data.{TocLocation}
use mysnapshotter.Chunked.Footer.{
  read_full, little_endian, footer_size, zstd_skippable_frame_magic, zstd_chunked_frame_magic,
  check_frame, parse_footer_frame,
}

-- A number as `k` little-endian bytes.
abbrev pub le_bytes : ℕ → ℕ → List ℕ
le_bytes zero n = []
le_bytes (suc k) n = (n % 256) ∷ le_bytes k (n / 256)

-- The number fits `k` bytes.
abbrev pub Fits : ℕ → ℕ → Type 0
Fits zero n = n ≡ 0
Fits (suc k) n = Fits k (n / 256)

pub little_endian-le_bytes : (k n : ℕ) → Fits k n → little_endian (le_bytes k n) ≡ n
little_endian-le_bytes zero n h = sym h
little_endian-le_bytes (suc k) n h = omega (arith, little_endian-le_bytes k (n / 256) h)

abbrev pub u64_limit : ℕ
u64_limit = 18_446_744_073_709_551_616

pub u64-Fits : (n : ℕ) → n < u64_limit → Fits 8 n
u64-Fits n h = omega arith

-- The frame of the documented layout: header, eight fields, magic.
abbrev pub footer_frame : TocLocation → ℕ → ℕ → ℕ → List ℕ
footer_frame loc split_offset split_compressed split_uncompressed =
    zstd_skippable_frame_magic
    ++ (le_bytes 4 footer_size
        ++ (le_bytes 8 loc.offset
            ++ (le_bytes 8 loc.length_compressed
                ++ (le_bytes 8 loc.length_uncompressed
                    ++ (le_bytes 8 1
                        ++ (le_bytes 8 split_offset
                            ++ (le_bytes 8 split_compressed
                                ++ (le_bytes 8 split_uncompressed
                                    ++ zstd_chunked_frame_magic))))))))

take-append : (xs ys : List ℕ) → take (length xs) (xs ++ ys) ≡ xs
take-append [] ys = refl
take-append (x ∷ xs) ys = ap (◌∷◌ x) (take-append xs ys)

pub read_full-append : (xs ys : List ℕ) → read_full (length xs) (xs ++ ys) ≡ ok xs
unfolding read_full
read_full-append xs ys = ground (arith, length-append xs ys, take-append xs ys)

check_frame-footer_frame :
    (loc : TocLocation) (a b c : ℕ)
    → check_frame (footer_frame loc a b c)
      ≡ ok (record {
        offset = little_endian (le_bytes 8 loc.offset);
        length_compressed = little_endian (le_bytes 8 loc.length_compressed);
        length_uncompressed = little_endian (le_bytes 8 loc.length_uncompressed);
        digest = [];
      })
unfolding check_frame text_dec
check_frame-footer_frame loc a b c = refl

-- A frame of the documented layout, with three uint64 fields, is read back as they are, without a
-- digest, whatever its tar-split fields are and whatever follows it in the stream.
pub parse_footer_frame-footer_frame :
    (loc : TocLocation) (a b c : ℕ) (rest : List ℕ)
    → loc.offset < u64_limit
    → loc.length_compressed < u64_limit
    → loc.length_uncompressed < u64_limit
    → parse_footer_frame (footer_frame loc a b c ++ rest) ≡ ok (record loc { digest = [] })
unfolding parse_footer_frame
parse_footer_frame-footer_frame loc a b c rest h k l =
    ap (λ m. context "reading footer frame" m >>= check_frame)
      (read_full-append (footer_frame loc a b c) rest)
    ∙ check_frame-footer_frame loc a b c
    ∙ λ i. ok (record {
      offset = little_endian-le_bytes 8 loc.offset (u64-Fits loc.offset h) i;
      length_compressed =
          little_endian-le_bytes 8 loc.length_compressed (u64-Fits loc.length_compressed k) i;
      length_uncompressed =
          little_endian-le_bytes 8 loc.length_uncompressed (u64-Fits loc.length_uncompressed l) i;
      digest = [];
    })
