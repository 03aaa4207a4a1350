-- ===== src/Extractor/Layer/Links.antt =====
-- Deferred hard links never lead out of the destination.
use mysnapshotter.Prelude.{
  ◌≡◌, refl, sym, inl, inr, ◌||◌, [], ◌∷◌, arith, Bool-cases, All, All-append, Text, ◌==◌, Result,
  ok, err, context, >>=-eq-ok, context-eq-ok,
}
use mathlib.Core.Path.{subst}
use mysnapshotter.Paths.{dot, slash, clean, join}
use mysnapshotter.Extractor.Layer.{
  Hardlink, LayerCtx, Header, new_layer_ctx, apply_opaques, note_whiteout, filter_whiteout,
  is_parent_whiteout, ensure_safe_path, defer_link, deferred, mark, filter_unseen, filter_func,
}
use mysnapshotter.Extractor.Layer.History.{Step, Later, entry, next_layer, here, next}

pub ok_inj : {A : Type 0} {a b : A} → ok a ≡ ok b → a ≡ b
ok_inj h = cc

-- The filter leaves the deferred links alone.
pub filter_whiteout-hardlinks :
    (lc : LayerCtx) (path : Text) → (filter_whiteout lc path).0.hardlinks ≡ lc.hardlinks
unfolding filter_whiteout note_whiteout
filter_whiteout-hardlinks lc path = ground arith

module _ (cwd : Result Text) (destination : Text) where
  -- The source of the link passes `ensureSafePath`.
  abbrev pub IsSafe : Hardlink → Type 0
  IsSafe l = ensure_safe_path cwd destination l.old ≡ ok tt

  abbrev pub AllSafe : LayerCtx → Type 0
  AllSafe lc = All IsSafe lc.hardlinks

  defer_link-AllSafe :
      (lc : LayerCtx) (new linkname : Text) {after : LayerCtx}
      → defer_link cwd destination lc new linkname ≡ ok after
      → AllSafe lc
      → AllSafe after
  unfolding defer_link
  defer_link-AllSafe lc new linkname {after} h v =
      let (_, safe, e) =
        >>=-eq-ok
          (context "illegal hardlink target"
            (ensure_safe_path cwd destination (join destination linkname)))
          _ h in
      let same = ok_inj e in
      subst AllSafe same (All-append IsSafe lc.hardlinks (_ ∷ []) v (context-eq-ok _ _ safe, tt))

  deferred-AllSafe :
      (lc : LayerCtx) (r : Result LayerCtx)
      → AllSafe lc
      → ((after : LayerCtx) → r ≡ ok after → AllSafe after)
      → AllSafe (deferred lc r).0
  deferred-AllSafe lc (ok after) v f = f after refl
  deferred-AllSafe lc (err e) v f = v

  filter_unseen-AllSafe :
      (lc : LayerCtx) (hdr : Header) (path : Text)
      → AllSafe lc
      → AllSafe (filter_unseen cwd destination lc hdr path).0
  unfolding filter_unseen
  filter_unseen-AllSafe lc hdr path v =
      let lc' : LayerCtx = record lc { seen_paths = mark path lc.seen_paths } in
      elim (Bool-cases (lc.seen_paths path)) [
        | inl a ↦ rw a v
        | inr a ↦ elim (Bool-cases hdr.is_link) [
          | inl b ↦
              rw (a, b)
                (deferred-AllSafe lc'
                  (defer_link cwd destination lc' (join destination path) hdr.linkname) v
                  (λ after e. defer_link-AllSafe lc' (join destination path) hdr.linkname e v))
          | inr b ↦ rw (a, b) v
        ]
      ]

  filter_func-AllSafe :
      (lc : LayerCtx) (hdr : Header) → AllSafe lc → AllSafe (filter_func cwd destination lc hdr).0
  unfolding filter_func
  filter_func-AllSafe lc hdr v =
      let path = clean hdr.name in
      let lc' = (filter_whiteout lc path).0 in
      let v' : AllSafe lc' = subst (All IsSafe) (sym (filter_whiteout-hardlinks lc path)) v in
      elim (Bool-cases (path == dot || path == (slash ∷ []))) [
        | inl a ↦ rw a v
        | inr a ↦
            elim (Bool-cases
              ((filter_whiteout lc path).1 || is_parent_whiteout lc'.whiteouts path)) [
                | inl b ↦ rw (a, b) v'
                | inr b ↦ rw (a, b) (filter_unseen-AllSafe lc' hdr path v')
              ]
      ]

  Step-AllSafe : {lc after : LayerCtx} → Step cwd destination lc after → AllSafe lc → AllSafe after
  Step-AllSafe (entry lc hdr) v = filter_func-AllSafe lc hdr v
  Step-AllSafe (next_layer lc) v = unfold apply_opaques in v

  -- Whatever entries and layers have passed the filter, every hard link that it has deferred has a
  -- source that `ensureSafePath` accepts for the destination.
  pub Later-AllSafe : {after : LayerCtx} → Later cwd destination new_layer_ctx after → AllSafe after
  Later-AllSafe l = go l tt
    where
      go : {lc after : LayerCtx} → Later cwd destination lc after → AllSafe lc → AllSafe after
      go here v = v
      go (next l s) v = Step-AllSafe s (go l v)
