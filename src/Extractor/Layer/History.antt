-- ===== src/Extractor/Layer/History.antt =====
-- Upper layers win: what the filter remembers over the rest of the extraction.
use mysnapshotter.Prelude.{
  ◌≡◌, inl, inr, Bool, true, false, ◌||◌, Option, none, some, List, [], ◌∷◌, arith, Bool-cases, Any,
  Text, ◌==◌, ==_refl, Result, ok,
}
use mysnapshotter.Paths.{dot, slash, clean, dir, base}
use mysnapshotter.Extractor.Layer.{
  LayerCtx, Header, mark, mark_all, apply_opaques, opaque_whiteout, whiteout_prefix, note_whiteout,
  filter_whiteout, defer_link, filter_unseen, filter_func,
}
use mysnapshotter.Prelude.{cut_prefix}

-- The entries of a layer pass the filter one after the other; after a layer its opaques apply.
pub data Step (cwd : Result Text) (destination : Text) : LayerCtx → LayerCtx → Type 0 where
  entry :
      (lc : LayerCtx) (hdr : Header)
      → Step cwd destination lc (filter_func cwd destination lc hdr).0
  next_layer : (lc : LayerCtx) → Step cwd destination lc (apply_opaques lc)

pub data Later (cwd : Result Text) (destination : Text) (lc : LayerCtx) : LayerCtx → Type 0 where
  here : Later cwd destination lc lc
  next :
      {mid after : LayerCtx}
      → Later cwd destination lc mid
      → Step cwd destination mid after
      → Later cwd destination lc after

-- What one context remembers, the other remembers too.
pub record Keeps (lc after : LayerCtx) : Type 0 where
  pub seen : (p : Text) → lc.seen_paths p ≡ true → after.seen_paths p ≡ true
  pub hidden : (p : Text) → lc.whiteouts p ≡ true → after.whiteouts p ≡ true

pub mark_all-keeps :
    (ks : List Text) (m : Text → Bool) (p : Text) → m p ≡ true → mark_all ks m p ≡ true
unfolding mark_all
mark_all-keeps [] m p h = h
mark_all-keeps (k ∷ ks) m p h = mark_all-keeps ks (mark k m) p (ground arith)

pub mark_all-Mem :
    (ks : List Text) (m : Text → Bool) (p : Text) → Any (λ k. k ≡ p) ks → mark_all ks m p ≡ true
unfolding mark_all
mark_all-Mem [] m p h = absurd h
mark_all-Mem (k ∷ ks) m p (inl e) = mark_all-keeps ks (mark k m) p (ground arith)
mark_all-Mem (k ∷ ks) m p (inr h) = mark_all-Mem ks (mark k m) p h

note_whiteout-Keeps :
    (lc : LayerCtx) (d : Text) (o : Option Text) → Keeps lc (note_whiteout lc d o).0
unfolding note_whiteout
note_whiteout-Keeps lc d none = record { seen = λ p h. h; hidden = λ p h. h }
note_whiteout-Keeps lc d (some a) = record {
  seen = λ p h. ground arith;
  hidden = λ p h. ground arith;
}

pub filter_whiteout-Keeps : (lc : LayerCtx) (path : Text) → Keeps lc (filter_whiteout lc path).0
unfolding filter_whiteout
filter_whiteout-Keeps lc path = elim (Bool-cases (base path == opaque_whiteout)) [
  | inl e ↦ rw e (record { seen = λ p h. h; hidden = λ p h. h })
  | inr e ↦ rw e (note_whiteout-Keeps lc (dir path) (cut_prefix whiteout_prefix (base path)))
]

module _ (cwd : Result Text) (destination : Text) where
  filter_unseen-seen :
      (lc : LayerCtx) (hdr : Header) (path p : Text)
      → lc.seen_paths p ≡ true
      → (filter_unseen cwd destination lc hdr path).0.seen_paths p ≡ true
  unfolding filter_unseen defer_link
  filter_unseen-seen lc hdr path p h = ground arith

  filter_unseen-hidden :
      (lc : LayerCtx) (hdr : Header) (path p : Text)
      → lc.whiteouts p ≡ true
      → (filter_unseen cwd destination lc hdr path).0.whiteouts p ≡ true
  unfolding filter_unseen defer_link
  filter_unseen-hidden lc hdr path p h = ground arith

  filter_unseen-marks :
      (lc : LayerCtx) (hdr : Header) (path : Text)
      → (filter_unseen cwd destination lc hdr path).1 ≡ ok true
      → ((filter_unseen cwd destination lc hdr path).0.seen_paths path ≡ true)
        × (lc.seen_paths path ≡ false)
  unfolding filter_unseen defer_link
  filter_unseen-marks lc hdr path h = ground (arith, ==_refl path)

  filter_func-Keeps :
      (lc : LayerCtx) (hdr : Header) → Keeps lc (filter_func cwd destination lc hdr).0
  unfolding filter_func
  filter_func-Keeps lc hdr = record {
    seen = λ p h.
        let k = (filter_whiteout-Keeps lc (clean hdr.name)).seen p h in
        ground (
          arith,
          filter_unseen-seen (filter_whiteout lc (clean hdr.name)).0 hdr (clean hdr.name) p k,
        );
    hidden = λ p h.
        let k = (filter_whiteout-Keeps lc (clean hdr.name)).hidden p h in
        ground (
          arith,
          filter_unseen-hidden (filter_whiteout lc (clean hdr.name)).0 hdr (clean hdr.name) p k,
        );
  }

  pub Step-Keeps : {lc after : LayerCtx} → Step cwd destination lc after → Keeps lc after
  Step-Keeps (entry lc hdr) = filter_func-Keeps lc hdr
  Step-Keeps (next_layer lc) =
      unfold apply_opaques in
      record { seen = λ p h. h; hidden = λ p h. mark_all-keeps lc.pending_opqs lc.whiteouts p h }

  pub Later-Keeps : {lc after : LayerCtx} → Later cwd destination lc after → Keeps lc after
  Later-Keeps here = record { seen = λ p h. h; hidden = λ p h. h }
  Later-Keeps (next r s) =
      let a = Later-Keeps r in
      let b = Step-Keeps s in
      record { seen = λ p h. b.seen p (a.seen p h); hidden = λ p h. b.hidden p (a.hidden p h) }

  -- A path that was seen is not extracted, and neither is one below a whiteout.
  pub not_extracted_of_seen :
      (lc : LayerCtx) (hdr : Header)
      → lc.seen_paths (clean hdr.name) ≡ true
      → (clean hdr.name == dot || clean hdr.name == (slash ∷ [])) ≡ false
      → (filter_func cwd destination lc hdr).1 ≡ ok false
  unfolding filter_func filter_unseen
  not_extracted_of_seen lc hdr h t =
      ground (arith, (filter_whiteout-Keeps lc (clean hdr.name)).seen (clean hdr.name) h)

  extracted_marks :
      (lc : LayerCtx) (hdr : Header)
      → (filter_func cwd destination lc hdr).1 ≡ ok true
      → (clean hdr.name == dot || clean hdr.name == (slash ∷ [])) ≡ false
      → (filter_func cwd destination lc hdr).0.seen_paths (clean hdr.name) ≡ true
  unfolding filter_func
  extracted_marks lc hdr h t =
      ground
        (arith, filter_unseen-marks (filter_whiteout lc (clean hdr.name)).0 hdr (clean hdr.name))

  -- Once an entry is extracted, no later entry of this or a lower layer with the same cleaned path,
  -- other than the top of the tree, is extracted, and none makes an error: upper layers win.
  pub filter_func-once :
      (lc after : LayerCtx) (hdr hdr' : Header)
      → (filter_func cwd destination lc hdr).1 ≡ ok true
      → clean hdr'.name ≡ clean hdr.name
      → (clean hdr.name == dot || clean hdr.name == (slash ∷ [])) ≡ false
      → Later cwd destination (filter_func cwd destination lc hdr).0 after
      → (filter_func cwd destination after hdr').1 ≡ ok false
  filter_func-once lc after hdr hdr' h e t r =
      not_extracted_of_seen after hdr'
        (rw e ((Later-Keeps r).seen (clean hdr.name) (extracted_marks lc hdr h t))) (rw e t)
