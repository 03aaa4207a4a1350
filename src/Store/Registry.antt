-- ===== src/Store/Registry.antt =====
-- pkg/ocistore/common.go: blobs and ranges of blobs from a registry. The HTTP transport and
-- containerd's fetcher are parameters.
pub mod Location
pub mod Resolver
use mysnapshotter.Prelude.{
  ℕ, String, Bool, true, ◌&&◌, ◌||◌, not, Option, none, some, List, [], ◌∷◌, eqb, if◌then◌else◌,
  is_some, Text, Error, message, wrap, Result, ok, err, ◌>>=◌, ◌>>◌, guard, context,
}
use mysnapshotter.Prelude.{cut_prefix}
use mysnapshotter.Prelude.Int.{ℤ, pos}
use mysnapshotter.Prelude.Int64.{add64, sub64}
use mysnapshotter.Chunked.Data.{Toc, TocLocation}
use mysnapshotter.Chunked.Footer.{footer_frame_size, parse_footer_frame}
use mysnapshotter.Chunked.Toc.{Annotations, Codecs, parse_annotations, parse_toc}

-- `ocispec.Descriptor`, as far as it is read.
pub record Descriptor : Type 0 where
  pub media_type : Text
  pub digest : Text
  pub size : ℤ
  pub annotations : Annotations

-- `rangeTarget`.
pub record RangeTarget : Type 0 where
  pub digest : Text
  pub offset : ℤ
  pub size : ℤ

-- The parts of an HTTP request that the round tripper reads and sets. A range is its first and last
-- byte, both included.
pub record Request : Type 0 where
  pub path : Text
  pub is_get : Bool
  pub target : Option RangeTarget
  pub range : Option (ℤ × ℤ)

-- `strings.Contains`.
unfoldable pub contains_text : Text → Text → Bool
unfolding cut_prefix
contains_text [] sub = is_some (cut_prefix sub [])
contains_text (c ∷ s) sub = is_some (cut_prefix sub (c ∷ s)) || contains_text s sub

-- `rangeRoundTripper.RoundTrip`: the request that the base transport gets.
unfoldable pub round_trip : Request → Request
unfolding contains_text
round_trip req = elim req.target [
  | none ↦ req
  | some t ↦
      if contains_text req.path t.digest && req.is_get
      then record req { range = some (t.offset, sub64 (add64 t.offset t.size) (pos 1)) }
      else req
]

-- A fetcher: the stream of a blob, for the range target of the context if there is one, and the
-- error of closing it. `encoded` is go-digest's `Digest.Encoded`.
pub record Fetcher : Type 0 where
  pub fetch : Option RangeTarget → Descriptor → Result (List ℕ)
  pub close : Option Error
  pub encoded : Text → Text

module _ (F : Fetcher) where
  -- `FetchRange`.
  unfoldable pub fetch_range : Descriptor → ℤ → ℤ → Result (List ℕ)
  fetch_range desc offset size =
      F.fetch (some (record { digest = F.encoded desc.digest; offset = offset; size = size })) desc

  -- The error of closing a stream, wrapped.
  abbrev pub closed : String → Option Error → Result (Unit {0})
  closed s none = ok tt
  closed s (some e) = err (wrap s e)

  -- `loc` of the annotations, or nil if they do not parse.
  abbrev pub annotated : Result TocLocation → Option TocLocation
  annotated (ok loc) = some loc
  annotated (err _) = none

  abbrev pub consistent : Option TocLocation → TocLocation → Bool
  consistent none footer = true
  consistent (some loc) footer =
      eqb footer.offset loc.offset
      && (eqb footer.length_compressed loc.length_compressed
          && eqb footer.length_uncompressed loc.length_uncompressed)

  -- `GetToCLocation`.
  unfoldable pub get_toc_location : Descriptor → Result TocLocation
  unfolding fetch_range parse_annotations parse_footer_frame
  get_toc_location desc = do
    r ←
        context "fetching footer frame range"
          (fetch_range desc (sub64 desc.size (pos footer_frame_size)) (pos footer_frame_size))
    footer ← context "parsing footer frame location" (parse_footer_frame r)
    closed "closing range reader" F.close
    guard (consistent (annotated (parse_annotations desc.annotations)) footer)
        (message "inconsistent chunked annotations compared with the parsed footer")
    ok footer

  -- `FetchToC`. The conversions to int64 keep the low 64 bits.
  unfoldable pub fetch_toc : Codecs → Descriptor → Result Toc
  unfolding get_toc_location parse_toc
  fetch_toc K desc = do
    loc ← get_toc_location desc
    r ← context "fetching footer frame range" (
        fetch_range desc (add64 (pos loc.offset) (pos 0))
          (add64 (pos loc.length_compressed) (pos 0)))
    parse_toc K r loc

  -- `FetchMetadata`; `is_layer` is containerd's `images.IsLayerType`.
  unfoldable pub fetch_metadata : (Text → Bool) → Descriptor → Result (List ℕ)
  fetch_metadata is_layer desc = do
    guard (not (is_layer desc.media_type)) (message "FetchMetadata called with a layer descriptor")
    b ← context "failed to fetch metadata blob" (F.fetch none desc)
    (elim F.close [ none ↦ ok b | some e ↦ err e ])
