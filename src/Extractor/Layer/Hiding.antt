-- ===== src/Extractor/Layer/Hiding.antt =====
-- Whiteouts hide what lower layers have at and below their paths.
use mysnapshotter.Prelude.{
  ◌≡◌, refl, sym, ap, ◌∙◌, ◌⊎◌, inl, inr, Bool, true, false, ◌||◌, Option, none, some, List, [],
  ◌∷◌, ◌++◌, arith, Bool-cases, Any, Any-append_left, Any-append_right, Text, ◌==◌, ==_refl, Result,
  ok,
}
use mysnapshotter.Paths.{dot, slash, clean, dir, base, join, render}
use mysnapshotter.Paths.Components.{IsPlain, AllPlain}
use mysnapshotter.Extractor.Layer.{
  LayerCtx, Header, apply_opaques, opaque_whiteout, whiteout_prefix, note_whiteout, filter_whiteout,
  is_parent_whiteout, defer_link, filter_unseen, filter_func,
}
use mysnapshotter.Prelude.{cut_prefix}
use mysnapshotter.Extractor.Layer.Whiteouts.{Hidden, is_parent_whiteout_iff}
use mysnapshotter.Extractor.Layer.History.{
  Step, Later, Later-Keeps, entry, next_layer, here, next, mark_all-Mem, mark_all-keeps,
  filter_whiteout-Keeps, not_extracted_of_seen,
}

abbrev pub is_root_path : Text → Bool
is_root_path p = p == dot || p == (slash ∷ [])

module _ (cwd : Result Text) (destination : Text) where
  -- Below a whiteout nothing is extracted.
  not_extracted_of_Hidden :
      (lc : LayerCtx) (hdr : Header) (r : Bool) (cs : List Text) (c : Text)
      → AllPlain cs
      → IsPlain c
      → clean hdr.name ≡ render r (cs ++ (c ∷ []))
      → is_root_path (clean hdr.name) ≡ false
      → Hidden r lc.whiteouts cs
      → (filter_func cwd destination lc hdr).1 ≡ ok false
  unfolding filter_func
  not_extracted_of_Hidden lc hdr r cs c h p e t (d, ds, rest, f, w) =
      let lc' = (filter_whiteout lc (clean hdr.name)).0 in
      let w' = (filter_whiteout-Keeps lc (clean hdr.name)).hidden (render r (d ∷ ds)) w in
      let parent : is_parent_whiteout lc'.whiteouts (clean hdr.name) ≡ true =
        ap (is_parent_whiteout lc'.whiteouts) e
        ∙ (is_parent_whiteout_iff r lc'.whiteouts cs c h p).1 (d, ds, rest, f, w') in
      ground arith

  -- Where an explicit whiteout puts its mark.
  filter_func-marks_whiteout :
      (lc : LayerCtx) (hdr : Header) (after : Text)
      → is_root_path (clean hdr.name) ≡ false
      → (base (clean hdr.name) == opaque_whiteout) ≡ false
      → cut_prefix whiteout_prefix (base (clean hdr.name)) ≡ some after
      → let w = join (dir (clean hdr.name)) after in
        ((filter_func cwd destination lc hdr).0.whiteouts w ≡ true)
        × ((filter_func cwd destination lc hdr).0.seen_paths w ≡ true)
  unfolding filter_func filter_whiteout
  filter_func-marks_whiteout lc hdr after t o k =
      ground (arith, ==_refl (join (dir (clean hdr.name)) after))

  -- After an entry `.wh.X` of a layer, no entry of this or a lower layer at the path X beside it is
  -- extracted, and no entry below that path, if the names in it are plain.
  pub filter_func-whiteout :
      (lc later : LayerCtx) (hdr hdr' : Header) (after : Text)
      → is_root_path (clean hdr.name) ≡ false
      → (base (clean hdr.name) == opaque_whiteout) ≡ false
      → cut_prefix whiteout_prefix (base (clean hdr.name)) ≡ some after
      → Later cwd destination (filter_func cwd destination lc hdr).0 later
      → is_root_path (clean hdr'.name) ≡ false
      → (clean hdr'.name ≡ join (dir (clean hdr.name)) after)
        ⊎ ((r : Bool) × (d : Text) × (ds rest : List Text) × (c : Text) × AllPlain
              ((d ∷ ds) ++ rest)
            × IsPlain c
            × (join (dir (clean hdr.name)) after ≡ render r (d ∷ ds))
            × (clean hdr'.name ≡ render r (((d ∷ ds) ++ rest) ++ (c ∷ []))))
      → (filter_func cwd destination later hdr').1 ≡ ok false
  filter_func-whiteout lc later hdr hdr' after t o k l t' (inl e) =
      not_extracted_of_seen cwd destination later hdr'
        (ap later.seen_paths e
          ∙ (Later-Keeps cwd destination l).seen _
              (filter_func-marks_whiteout lc hdr after t o k).1)
        t'
  filter_func-whiteout lc later hdr hdr' after t o k l t' (inr (r, d, ds, rest, c, h, p, e, f)) =
      not_extracted_of_Hidden later hdr' r ((d ∷ ds) ++ rest) c h p f t' (
        d,
        ds,
        rest,
        refl,
        ap later.whiteouts (sym e)
            ∙ (Later-Keeps cwd destination l).hidden _
                (filter_func-marks_whiteout lc hdr after t o k).0,
      )

  -- A pending opaque stays pending until a layer ends, and is a whiteout then.
  abbrev Noted : Text → LayerCtx → Type 0
  Noted p lc = Any (λ q. q ≡ p) lc.pending_opqs ⊎ (lc.whiteouts p ≡ true)

  filter_whiteout-pending :
      (lc : LayerCtx) (path p : Text)
      → Any (λ q. q ≡ p) lc.pending_opqs
      → Any (λ q. q ≡ p) (filter_whiteout lc path).0.pending_opqs
  unfolding filter_whiteout
  filter_whiteout-pending lc path p h = elim (Bool-cases (base path == opaque_whiteout)) [
    | inl e ↦ rw e (Any-append_left (λ q. q ≡ p) lc.pending_opqs (dir path ∷ []) h)
    | inr e ↦ rw e (go (cut_prefix whiteout_prefix (base path)))
  ]
    where
      go : (o : Option Text) → Any (λ q. q ≡ p) (note_whiteout lc (dir path) o).0.pending_opqs
      go none = h
      go (some a) = h

  filter_unseen-pending :
      (lc : LayerCtx) (hdr : Header) (path : Text)
      → (filter_unseen cwd destination lc hdr path).0.pending_opqs ≡ lc.pending_opqs
  unfolding filter_unseen defer_link
  filter_unseen-pending lc hdr path = ground arith

  filter_func-pending :
      (lc : LayerCtx) (hdr : Header) (p : Text)
      → Any (λ q. q ≡ p) lc.pending_opqs
      → Any (λ q. q ≡ p) (filter_func cwd destination lc hdr).0.pending_opqs
  unfolding filter_func
  filter_func-pending lc hdr p h =
      let path = clean hdr.name in
      let lc' = (filter_whiteout lc path).0 in
      let k = filter_whiteout-pending lc path p h in
      elim (Bool-cases (path == dot || path == (slash ∷ []))) [
        | inl e ↦ rw e h
        | inr e ↦
            elim (Bool-cases
              ((filter_whiteout lc path).1 || is_parent_whiteout lc'.whiteouts path)) [
                | inl f ↦ rw (e, f) k
                | inr f ↦ rw (e, f) (rw (filter_unseen-pending lc' hdr path) k)
              ]
      ]

  Step-Noted :
      {lc after : LayerCtx} (p : Text) → Step cwd destination lc after → Noted p lc → Noted p after
  Step-Noted p (entry lc hdr) (inl m) = inl (filter_func-pending lc hdr p m)
  Step-Noted p (entry lc hdr) (inr w) =
      inr ((Later-Keeps cwd destination (next here (entry lc hdr))).hidden p w)
  Step-Noted p (next_layer lc) (inl m) =
      unfold apply_opaques in inr (mark_all-Mem lc.pending_opqs lc.whiteouts p m)
  Step-Noted p (next_layer lc) (inr w) =
      unfold apply_opaques in inr (mark_all-keeps lc.pending_opqs lc.whiteouts p w)

  Later-Noted :
      {lc after : LayerCtx} (p : Text) → Later cwd destination lc after → Noted p lc → Noted p after
  Later-Noted p here n = n
  Later-Noted p (next l s) n = Step-Noted p s (Later-Noted p l n)

  apply_opaques-Noted :
      (lc : LayerCtx) (p : Text) → Noted p lc → (apply_opaques lc).whiteouts p ≡ true
  unfolding apply_opaques
  apply_opaques-Noted lc p (inl m) = mark_all-Mem lc.pending_opqs lc.whiteouts p m
  apply_opaques-Noted lc p (inr w) = mark_all-keeps lc.pending_opqs lc.whiteouts p w

  filter_func-notes :
      (lc : LayerCtx) (hdr : Header)
      → is_root_path (clean hdr.name) ≡ false
      → (base (clean hdr.name) == opaque_whiteout) ≡ true
      → Noted (dir (clean hdr.name)) (filter_func cwd destination lc hdr).0
  unfolding filter_func filter_whiteout
  filter_func-notes lc hdr t o =
      rw (t, o)
        (inl (Any-append_right (λ q. q ≡ dir (clean hdr.name)) lc.pending_opqs _ (inl refl)))

  -- After an opaque whiteout entry of a layer whose directory is not the top, and once that layer has
  -- ended, no entry of a lower layer below the whiteout's directory is extracted, if the names in its
  -- path are plain.
  pub filter_func-opaque :
      (lc mid later : LayerCtx) (hdr hdr' : Header) (r : Bool) (d : Text) (ds rest : List Text)
      (c : Text)
      → is_root_path (clean hdr.name) ≡ false
      → (base (clean hdr.name) == opaque_whiteout) ≡ true
      → dir (clean hdr.name) ≡ render r (d ∷ ds)
      → Later cwd destination (filter_func cwd destination lc hdr).0 mid
      → Later cwd destination (apply_opaques mid) later
      → AllPlain ((d ∷ ds) ++ rest)
      → IsPlain c
      → is_root_path (clean hdr'.name) ≡ false
      → clean hdr'.name ≡ render r (((d ∷ ds) ++ rest) ++ (c ∷ []))
      → (filter_func cwd destination later hdr').1 ≡ ok false
  filter_func-opaque lc mid later hdr hdr' r d ds rest c t o e l l' h p t' f =
      let noted = Later-Noted (dir (clean hdr.name)) l (filter_func-notes lc hdr t o) in
      not_extracted_of_Hidden later hdr' r ((d ∷ ds) ++ rest) c h p f t' (
        d,
        ds,
        rest,
        refl,
        ap later.whiteouts (sym e)
            ∙ (Later-Keeps cwd destination l').hidden _ (apply_opaques-Noted mid _ noted),
      )
