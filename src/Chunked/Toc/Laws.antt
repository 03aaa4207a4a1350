-- ===== src/Chunked/Toc/Laws.antt =====
-- What `ParseAnnotations` and `ParseTOC` promise.
use mysnapshotter.Prelude.{
  ℕ, suc, ◌+◌, ◌-◌, ◌*◌, ◌≤◌, ◌<◌, ◌≡◌, refl, ap, ◌∙◌, ◌⊎◌, inl, inr, false, some, List, [], ◌∷◌,
  ◌++◌, arith, leb, eqb, if◌then◌else◌, leb→le, Bool-cases, Option-cases, length, take, All, Text,
  codes, ◌==◌, ok, context, >>=-eq-ok, context-eq-ok,
}
use mysnapshotter.Prelude.{cut_prefix, guard-eq-ok}
use mysnapshotter.Chunked.Data.{Toc, TocLocation}
use mysnapshotter.Chunked.Footer.{read_full}
use mysnapshotter.Chunked.Toc.{
  uint64_limit, Annotations, text_or_empty, manifest_checksum_key, manifest_info_key, cut_colon,
  split_n, parse_digits, parse_uint, parse_fields, parse_info, parse_annotations, Codecs,
  hex_decode, max_toc_size, made, verify_sha256, open_toc, parse_toc,
}

abbrev colon : ℕ
colon = 58

abbrev ColonFree : Text → Type 0
ColonFree = All (λ c. eqb c colon ≡ false)

parse_digits-ColonFree : (acc : ℕ) (s : Text) {n : ℕ} → parse_digits acc s ≡ some n → ColonFree s
unfolding parse_digits
parse_digits-ColonFree acc [] h = tt
parse_digits-ColonFree acc (c ∷ s) {n} h =
    (ground arith, parse_digits-ColonFree (acc * 10 + (c - 48)) s {n = n} (ground arith))

parse_uint-ColonFree : (s : Text) {n : ℕ} → parse_uint s ≡ ok n → ColonFree s
unfolding parse_uint
parse_uint-ColonFree [] h = tt
parse_uint-ColonFree (c ∷ s) h = elim (Option-cases (parse_digits 0 (c ∷ s))) [
  | inl e ↦ absurd (ground arith)
  | inr (n, e) ↦ parse_digits-ColonFree 0 (c ∷ s) e
]

-- A number that is read is a uint64.
pub parse_uint-lt : (s : Text) {n : ℕ} → parse_uint s ≡ ok n → n < uint64_limit
unfolding parse_uint
parse_uint-lt [] h = ground arith
parse_uint-lt (c ∷ s) h = ground arith

cut_colon-append : (a s : Text) → ColonFree a → cut_colon (a ++ (colon ∷ s)) ≡ some (a, s)
unfolding cut_colon
cut_colon-append [] s h = refl
cut_colon-append (c ∷ a) s h = rw (h.0, cut_colon-append a s h.1)

split_n-cons :
    (n : ℕ) (a s : Text)
    → ColonFree a
    → split_n (suc (suc n)) (a ++ (colon ∷ s)) ≡ a ∷ split_n (suc n) s
unfolding split_n
split_n-cons n a s h = rw (cut_colon-append a s h, split_n) refl

split_n-fields :
    (a b c d : Text)
    → ColonFree a
    → ColonFree b
    → ColonFree c
    → split_n 4 (a ++ (colon ∷ (b ++ (colon ∷ (c ++ (colon ∷ d)))))) ≡ a ∷ b ∷ c ∷ d ∷ []
split_n-fields a b c d ha hb hc =
    split_n-cons 2 a _ ha
    ∙ ap (◌∷◌ a)
        (split_n-cons 1 b _ hb ∙ ap (◌∷◌ b) (split_n-cons 0 c d hc ∙ (unfold split_n in refl)))

parse_fields-ok :
    (a b c d checksum : Text) {x y z : ℕ}
    → parse_uint a ≡ ok x
    → parse_uint b ≡ ok y
    → parse_uint c ≡ ok z
    → parse_uint d ≡ ok 1
    → parse_fields (a ∷ b ∷ c ∷ d ∷ []) checksum
      ≡ ok
          (record { offset = x; length_compressed = y; length_uncompressed = z; digest = checksum })
unfolding parse_fields
parse_fields-ok a b c d checksum ha hb hc hd = rw (ha, hb, hc, hd)

-- Three decimal uint64 fields and the manifest type 1, joined by colons, are read as they are,
-- with the checksum annotation as the digest, or none where it is absent.
pub parse_annotations-fields :
    (annotations : Annotations) (a b c d : Text) {x y z : ℕ}
    → annotations manifest_info_key ≡ some (a ++ (colon ∷ (b ++ (colon ∷ (c ++ (colon ∷ d))))))
    → parse_uint a ≡ ok x
    → parse_uint b ≡ ok y
    → parse_uint c ≡ ok z
    → parse_uint d ≡ ok 1
    → parse_annotations annotations
      ≡ ok (record {
        offset = x;
        length_compressed = y;
        length_uncompressed = z;
        digest = text_or_empty (annotations manifest_checksum_key);
      })
unfolding parse_annotations
parse_annotations-fields annotations a b c d {x} {y} {z} e ha hb hc hd =
    let checksum = text_or_empty (annotations manifest_checksum_key) in
    ap (λ o. parse_info o checksum) e
    ∙ ap (λ l. parse_fields l checksum)
        (split_n-fields a b c d (parse_uint-ColonFree a ha) (parse_uint-ColonFree b hb)
          (parse_uint-ColonFree c hc))
    ∙ parse_fields-ok a b c d checksum ha hb hc hd

read_full-ok :
    (n : ℕ) (r : List ℕ) {bytes : List ℕ}
    → read_full n r ≡ ok bytes
    → (n ≤ length r) × (take n r ≡ bytes)
unfolding read_full
read_full-ok n r h = (ground arith, ground arith)

-- The bytes match the digest, if the location has one.
abbrev pub Verified : Codecs → TocLocation → List ℕ → Type 0
Verified K loc bytes =
    (loc.digest ≡ [])
    ⊎ ((hex : Text) × (cut_prefix (codes "sha256:") loc.digest ≡ some hex)
        × (hex_decode hex ≡ ok (K.sha256 bytes)))

verify_sha256-ok :
    (K : Codecs) (bytes expected : Text)
    → verify_sha256 K bytes expected ≡ ok tt
    → (hex : Text) × (cut_prefix (codes "sha256:") expected ≡ some hex)
      × (hex_decode hex ≡ ok (K.sha256 bytes))
unfolding verify_sha256
verify_sha256-ok K bytes expected h = elim (Option-cases (cut_prefix (codes "sha256:") expected)) [
  | inl e ↦ absurd (ground arith)
  | inr (hex, e) ↦
      let (digest, d, g) =
        >>=-eq-ok (context "invalid hex in digest" (hex_decode hex)) _ (rw e at h) in
      (hex, e, context-eq-ok _ _ d ∙ ap ok (ground arith))
]

open_toc-ok :
    (K : Codecs) (loc : TocLocation) (bytes : List ℕ) {toc : Toc}
    → open_toc K loc bytes ≡ ok toc
    → Verified K loc bytes
      × ((plain : List ℕ) × (K.decode_all bytes ≡ ok plain) × (K.unmarshal_toc plain ≡ ok toc))
unfolding open_toc
open_toc-ok K loc bytes h =
    let (_, checked, h1) =
      >>=-eq-ok
        (if loc.digest == []
          then ok tt
          else context "TOC integrity check" (verify_sha256 K bytes loc.digest))
        _ h in
    let (_, _, h2) = >>=-eq-ok (made K.new_reader) _ h1 in
    let (plain, decoded, parsed) =
      >>=-eq-ok (context "decompressing TOC" (K.decode_all bytes)) _ h2 in
    (
      (elim (Bool-cases (loc.digest == [])) [
        | inl e ↦ inl (ground arith)
        | inr e ↦ inr (
            verify_sha256-ok K bytes loc.digest
              (context-eq-ok "TOC integrity check" _ (rw e at checked)))
      ]),
      (plain, context-eq-ok _ _ decoded, context-eq-ok _ _ parsed),
    )

-- A table of contents is only returned if both lengths stay within the limit, the stream holds the
-- compressed bytes, these match the digest if the location has one, and it is what the decoders
-- make of them.
pub parse_toc-ok :
    (K : Codecs) (r : List ℕ) (loc : TocLocation) {toc : Toc}
    → parse_toc K r loc ≡ ok toc
    → (loc.length_compressed ≤ max_toc_size)
      × (loc.length_uncompressed ≤ max_toc_size)
      × (loc.length_compressed ≤ length r)
      × ((loc.digest ≡ [])
          ⊎ ((hex : Text) × (cut_prefix (codes "sha256:") loc.digest ≡ some hex)
              × (hex_decode hex ≡ ok (K.sha256 (take loc.length_compressed r)))))
      × ((plain : List ℕ) × (K.decode_all (take loc.length_compressed r) ≡ ok plain)
          × (K.unmarshal_toc plain ≡ ok toc))
unfolding parse_toc
parse_toc-ok K r loc h =
    let (a, h1) = guard-eq-ok (leb loc.length_compressed max_toc_size) _ _ h in
    let (b, h2) = guard-eq-ok (leb loc.length_uncompressed max_toc_size) _ _ h1 in
    let (compressed, read, h3) =
      >>=-eq-ok (context "reading compressed TOC" (read_full loc.length_compressed r)) _ h2 in
    let (long, taken) = read_full-ok loc.length_compressed r (context-eq-ok _ _ read) in
    let h4 : open_toc K loc (take loc.length_compressed r) ≡ ok _ =
      ap (open_toc K loc) taken ∙ h3 in
    let (checked, decoded) = open_toc-ok K loc (take loc.length_compressed r) h4 in
    (leb→le _ _ a, leb→le _ _ b, long, checked, decoded)
