-- ===== src/Store/Registry/Location.antt =====
-- What `GetToCLocation` and `FetchToC` of pkg/ocistore/common.go promise.
use mysnapshotter.Prelude.{
  ℕ, ◌≡◌, refl, ap, ◌∙◌, ◌⊎◌, inl, inr, true, List, [], arith, take, drop, ==_refl, Error, Result,
  ok, err, ◌>>=◌, context, >>=-eq-ok, context-eq-ok,
}
use mysnapshotter.Prelude.{guard-eq-ok}
use mysnapshotter.Prelude.Int.{pos}
use mysnapshotter.Prelude.Int64.{add64, sub64}
use mysnapshotter.Chunked.Data.{TocLocation}
use mathlib.Core.Path.{subst}
use mysnapshotter.Chunked.Footer.{
  read_full, footer_frame_size, check_payload, check_frame, parse_footer_frame,
}
use mysnapshotter.Chunked.Toc.{Codecs, parse_annotations, open_toc, parse_toc}
use mysnapshotter.Store.Registry.{
  Descriptor, Fetcher, fetch_range, consistent, annotated, closed, get_toc_location, fetch_toc,
}

check_payload-digest :
    (bytes : List ℕ) {loc : TocLocation} → check_payload bytes ≡ ok loc → loc.digest ≡ []
unfolding check_payload
check_payload-digest bytes h = ground arith

check_frame-digest :
    (bytes : List ℕ) {loc : TocLocation} → check_frame bytes ≡ ok loc → loc.digest ≡ []
unfolding check_frame
check_frame-digest bytes h = ground (arith, check_payload-digest (drop 8 bytes))

parse_footer_frame-digest :
    (r : List ℕ) {loc : TocLocation} → parse_footer_frame r ≡ ok loc → loc.digest ≡ []
unfolding parse_footer_frame
parse_footer_frame-digest r h =
    let (buf, _, k) = >>=-eq-ok _ check_frame h in check_frame-digest buf k

ok_inj : {A : Type 0} {a b : A} → ok a ≡ ok b → a ≡ b
ok_inj h = cc

result_cases : {A : Type 0} (r : Result A) → ((e : Error) × (r ≡ err e)) ⊎ ((a : A) × (r ≡ ok a))
result_cases (ok a) = inr (a, refl)
result_cases (err e) = inl (e, refl)

module _ (F : Fetcher) where
  consistent-eq :
      (m : Result TocLocation) (footer noted : TocLocation)
      → consistent F (annotated F m) footer ≡ true
      → m ≡ ok noted
      → (footer.offset ≡ noted.offset)
        × (footer.length_compressed ≡ noted.length_compressed)
        × (footer.length_uncompressed ≡ noted.length_uncompressed)
  consistent-eq (ok loc) footer noted h e = ground arith
  consistent-eq (err _) footer noted h e = absurd (cc)

  -- A location is only returned if the last bytes of the blob are a footer frame that gives it, and
  -- if its numbers are those of the annotations, where these parse. It has no digest, also where
  -- the annotations have one.
  pub get_toc_location-ok :
      (desc : Descriptor) {loc : TocLocation}
      → get_toc_location F desc ≡ ok loc
      → ((r : List ℕ) × (fetch_range F desc
              (sub64 desc.size (pos footer_frame_size))
              (pos footer_frame_size)
            ≡ ok r)
          × (parse_footer_frame r ≡ ok loc))
        × ((noted : TocLocation)
            → parse_annotations desc.annotations ≡ ok noted
            → (loc.offset ≡ noted.offset)
              × (loc.length_compressed ≡ noted.length_compressed)
              × (loc.length_uncompressed ≡ noted.length_uncompressed))
        × (loc.digest ≡ [])
  unfolding get_toc_location
  get_toc_location-ok desc {loc} h =
      let (r, fetched, h1) =
        >>=-eq-ok
          (context "fetching footer frame range"
            (fetch_range F desc (sub64 desc.size (pos footer_frame_size)) (pos footer_frame_size)))
          _ h in
      let (footer, parsed, h2) =
        >>=-eq-ok (context "parsing footer frame location" (parse_footer_frame r)) _ h1 in
      let (_, _, h3) = >>=-eq-ok (closed F "closing range reader" F.close) _ h2 in
      let (same, h4) =
        guard-eq-ok (consistent F (annotated F (parse_annotations desc.annotations)) footer) _ _
          h3 in
      let it : parse_footer_frame r ≡ ok loc = context-eq-ok _ _ parsed ∙ h4 in
      (
        (r, context-eq-ok _ _ fetched, it),
        (λ noted e.
            consistent-eq (parse_annotations desc.annotations) loc noted
              (subst (λ l. consistent F (annotated F (parse_annotations desc.annotations)) l ≡ true)
                (ok_inj h4) same)
              e),
        parse_footer_frame-digest r it,
      )

  open_toc-no_digest :
      (K : Codecs) (f : List ℕ → List ℕ) (loc : TocLocation) (bytes : List ℕ)
      → loc.digest ≡ []
      → open_toc K loc bytes ≡ open_toc (record K { sha256 = f }) loc bytes
  unfolding open_toc
  open_toc-no_digest K f loc bytes e = rw (e, ==_refl []) refl

  parse_toc-no_digest :
      (K : Codecs) (f : List ℕ → List ℕ) (r : List ℕ) (loc : TocLocation)
      → loc.digest ≡ []
      → parse_toc K r loc ≡ parse_toc (record K { sha256 = f }) r loc
  unfolding parse_toc read_full
  parse_toc-no_digest K f r loc e =
      ground (arith, open_toc-no_digest K f loc (take loc.length_compressed r) e)

  -- No checksum of the table of contents is ever compared: with any other function for SHA-256,
  -- and so whatever the manifest's annotation says, the same table or error comes out.
  pub fetch_toc-unverified :
      (K : Codecs) (f : List ℕ → List ℕ) (desc : Descriptor)
      → fetch_toc F K desc ≡ fetch_toc F (record K { sha256 = f }) desc
  unfolding fetch_toc
  fetch_toc-unverified K f desc = elim (result_cases (get_toc_location F desc)) [
    | inl (e, h) ↦ rw h refl
    | inr (loc, h) ↦ rw h (
        ap
          (λ g.
            context "fetching footer frame range" (
              fetch_range F desc (add64 (pos loc.offset) (pos 0))
                (add64 (pos loc.length_compressed) (pos 0)))
            >>= g)
          (λ i r. parse_toc-no_digest K f r loc (get_toc_location-ok desc h).2 i))
  ]
