-- ===== src/Extractor/Layer.antt =====
-- `layerCtx` and the whiteout filter of pkg/extractor/extractor.go, lines that every layer's entries pass.
pub mod Whiteouts
pub mod History
pub mod Hiding
pub mod Safety
pub mod Links
use mysnapshotter.Prelude.{
  ◌>>=◌, ◌>>◌, ℕ, zero, suc, ◌+◌, ◌/◌, Bool, true, false, ◌||◌, Option, none, some, List, [], ◌∷◌,
  ◌++◌, if◌then◌else◌, length, is_some, Text, codes, ◌==◌, message, Result, ok, err, context,
}
use mysnapshotter.Prelude.{cut_prefix}
use mysnapshotter.Paths.{dot, slash, clean, dir, base, join, abs, rel}

-- `hardlink`.
pub record Hardlink : Type 0 where
  pub old : Text
  pub new : Text

-- `layerCtx`. A map from paths to Booleans is what reading it gives.
pub record LayerCtx : Type 0 where
  pub seen_paths : Text → Bool
  pub whiteouts : Text → Bool
  pub pending_opqs : List Text
  pub hardlinks : List Hardlink

-- `newLayerCtx`.
abbrev pub new_layer_ctx : LayerCtx
new_layer_ctx = record {
  seen_paths = λ p. false;
  whiteouts = λ p. false;
  pending_opqs = [];
  hardlinks = [];
}

-- `m[k] = true`.
abbrev pub mark : Text → (Text → Bool) → Text → Bool
mark k m p = if k == p then true else m p

unfoldable pub mark_all : List Text → (Text → Bool) → Text → Bool
mark_all [] m = m
mark_all (k ∷ ks) m = mark_all ks (mark k m)

-- `applyOpaques`.
unfoldable pub apply_opaques : LayerCtx → LayerCtx
unfolding mark_all
apply_opaques lc = record lc {
  whiteouts = mark_all lc.pending_opqs lc.whiteouts;
  pending_opqs = [];
}

-- ".wh." and ".wh..wh..opq".
abbrev pub whiteout_prefix : Text
whiteout_prefix = codes ".wh."

abbrev pub opaque_whiteout : Text
opaque_whiteout = codes ".wh..wh..opq"

-- The case of `filterWhiteout` on what follows the prefix.
unfoldable pub note_whiteout : LayerCtx → Text → Option Text → LayerCtx × Bool
note_whiteout lc dir_name none = (lc, false)
note_whiteout lc dir_name (some after) =
    let path = join dir_name after in
    (record lc { seen_paths = mark path lc.seen_paths; whiteouts = mark path lc.whiteouts }, true)

-- `filterWhiteout`.
unfoldable pub filter_whiteout : LayerCtx → Text → LayerCtx × Bool
unfolding note_whiteout cut_prefix
filter_whiteout lc path =
    if base path == opaque_whiteout
    then (record lc { pending_opqs = lc.pending_opqs ++ (dir path ∷ []) }, true)
    else note_whiteout lc (dir path) (cut_prefix whiteout_prefix (base path))

-- The loop of `isParentWhiteout`, with the number of rounds that are left.
unfoldable pub parent_loop : ℕ → (Text → Bool) → Text → Bool
parent_loop zero opaques d = false
parent_loop (suc fuel) opaques d =
    let rest = parent_loop fuel opaques (dir d) in
    if d == dot || (d == (slash ∷ []) || d == []) then false else if opaques d then true else rest

-- `isParentWhiteout`. A path has fewer parents than bytes.
unfoldable pub is_parent_whiteout : (Text → Bool) → Text → Bool
unfolding parent_loop
is_parent_whiteout opaques path = parent_loop (length path + 1) opaques (dir path)

-- `ensureSafePath`, with the working directory of the process.
unfoldable pub ensure_safe_path : Result Text → Text → Text → Result (Unit {0})
ensure_safe_path cwd base_dir target_path = do
  abs_base ← context "failed to get absolute path of base dir" (abs cwd base_dir)
  abs_target ← context "failed to get absolute path of target" (abs cwd target_path)
  let r = rel abs_base abs_target
  if is_some (cut_prefix (codes "../") r) || r == codes ".."
      then err (message "path traversal detected")
      else ok tt

-- A tar header, as far as the filter reads it.
pub record Header : Type 0 where
  pub name : Text
  pub is_link : Bool
  pub linkname : Text

-- Deferring a hard link: the context with the link, or an error for an illegal target.
unfoldable pub defer_link : Result Text → Text → LayerCtx → Text → Text → Result LayerCtx
unfolding ensure_safe_path
defer_link cwd destination lc new linkname = do
  let old = join destination linkname
  context "illegal hardlink target" (ensure_safe_path cwd destination old)
  ok (record lc { hardlinks = lc.hardlinks ++ (record { old = old; new = new } ∷ []) })

-- The verdict on a hard link, which is never extracted by itself.
abbrev pub deferred : LayerCtx → Result LayerCtx → LayerCtx × Result Bool
deferred lc (ok after) = (after, ok false)
deferred lc (err e) = (lc, err e)

-- What the filter does with a path that no whiteout hides.
unfoldable pub filter_unseen :
    Result Text → Text → LayerCtx → Header → Text → LayerCtx × Result Bool
filter_unseen cwd destination lc hdr path =
    let lc' : LayerCtx = record lc { seen_paths = mark path lc.seen_paths } in
    if lc.seen_paths path
    then (lc, ok false)
    else if hdr.is_link
    then deferred lc' (defer_link cwd destination lc' (join destination path) hdr.linkname)
    else (lc', ok true)

-- `filterFunc`: the context afterwards, and whether the entry is extracted.
unfoldable pub filter_func : Result Text → Text → LayerCtx → Header → LayerCtx × Result Bool
unfolding filter_whiteout is_parent_whiteout filter_unseen
filter_func cwd destination lc hdr =
    let path = clean hdr.name in
    let (lc', whiteout) = filter_whiteout lc path in
    if path == dot || path == (slash ∷ [])
    then (lc, ok true)
    else if whiteout || is_parent_whiteout lc'.whiteouts path
    then (lc', ok false)
    else filter_unseen cwd destination lc' hdr path
