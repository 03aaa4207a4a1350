-- ===== src/Tests/Layers.antt =====
-- The filter on a few headers.
use mysnapshotter.Prelude.{
  ◌≡◌, refl, ◌↔◌, inr, Bool, true, false, ◌||◌, some, List, [], ◌∷◌, ◌++◌, Text, codes, text_dec,
  ◌==◌, Result, ok,
}
use mysnapshotter.Prelude.{cut_prefix}
use mysnapshotter.Paths.{is_abs, render, components, clean, join, dir, base, abs, rel}
use mysnapshotter.Paths.Components.{IsPlain, AllPlain}
use mysnapshotter.Extractor.Layer.{
  LayerCtx, Header, new_layer_ctx, apply_opaques, is_parent_whiteout, ensure_safe_path, defer_link,
  filter_func,
}
use mysnapshotter.Extractor.Layer.Whiteouts.{Hidden, is_parent_whiteout_iff}
use mysnapshotter.Extractor.Layer.History.{here, next, entry, filter_func-once}
use mysnapshotter.Extractor.Layer.Hiding.{filter_func-whiteout, filter_func-opaque}
use mysnapshotter.Extractor.Layer.Links.{AllSafe, Later-AllSafe}
use mysnapshotter.Extractor.Layer.Safety.{ensure_safe_path_iff}

program : Unit {0}
unfolding filter_func defer_link apply_opaques dir base abs rel join text_dec render
    ensure_safe_path
program = tt

abbrev cwd : Result Text
cwd = ok (codes "/w")

abbrev file : Text → Header
file n = record { name = n; is_link = false; linkname = [] }

abbrev root : Text
root = codes "/r"

-- What the filter remembers after one header.
abbrev then_header : LayerCtx → Header → LayerCtx
then_header lc h = (filter_func cwd root lc h).0

extracts : (filter_func cwd root new_layer_ctx (file (codes "etc/x"))).1 ≡ ok true
unfolding program
extracts = refl

same_path : clean (codes "./etc//x") ≡ clean (codes "etc/x")
unfolding program
same_path = refl

not_root : (clean (codes "etc/x") == codes "." || clean (codes "etc/x") == codes "/") ≡ false
unfolding program
not_root = refl

filter_func-once_example :
    (filter_func cwd root
      (then_header (then_header new_layer_ctx (file (codes "etc/x"))) (file (codes "etc/.wh.y")))
      (file (codes "./etc//x"))).1
    ≡ ok false
filter_func-once_example =
    filter_func-once cwd root new_layer_ctx
      (then_header (then_header new_layer_ctx (file (codes "etc/x"))) (file (codes "etc/.wh.y")))
      (file (codes "etc/x")) (file (codes "./etc//x")) extracts same_path not_root
      (next here (entry _ (file (codes "etc/.wh.y"))))

abbrev mark_y : Header
mark_y = file (codes "etc/.wh.y")

whiteout_facts :
    ((clean mark_y.name == codes "." || clean mark_y.name == codes "/") ≡ false)
    × ((base (clean mark_y.name) == codes ".wh..wh..opq") ≡ false)
    × (cut_prefix (codes ".wh.") (base (clean mark_y.name)) ≡ some (codes "y"))
    × ((clean (codes "etc/y/z") == codes "." || clean (codes "etc/y/z") == codes "/") ≡ false)
    × AllPlain (codes "etc" ∷ codes "y" ∷ [])
    × IsPlain (codes "z")
    × (join (dir (clean mark_y.name)) (codes "y") ≡ render false (codes "etc" ∷ codes "y" ∷ []))
    × (clean (codes "etc/y/z") ≡ render false (codes "etc" ∷ codes "y" ∷ codes "z" ∷ []))
unfolding program
whiteout_facts = (
  refl,
  refl,
  refl,
  refl,
  ((refl, refl, refl, (refl, (refl, (refl, tt)))), ((refl, refl, refl, (refl, tt)), tt)),
  (refl, refl, refl, (refl, tt)),
  refl,
  refl,
)

filter_func-whiteout_example :
    (filter_func cwd root (then_header new_layer_ctx mark_y) (file (codes "etc/y/z"))).1 ≡ ok false
filter_func-whiteout_example =
    filter_func-whiteout cwd root new_layer_ctx (then_header new_layer_ctx mark_y) mark_y
      (file (codes "etc/y/z")) (codes "y") whiteout_facts.0 whiteout_facts.1 whiteout_facts.2 here
      whiteout_facts.3
      (inr (
        false,
        codes "etc",
        codes "y" ∷ [],
        [],
        codes "z",
        whiteout_facts.4,
        whiteout_facts.5,
        whiteout_facts.6,
        whiteout_facts.7,
      ))

abbrev opaque_etc : Header
opaque_etc = file (codes "etc/.wh..wh..opq")

opaque_facts :
    ((clean opaque_etc.name == codes "." || clean opaque_etc.name == codes "/") ≡ false)
    × ((base (clean opaque_etc.name) == codes ".wh..wh..opq") ≡ true)
    × (dir (clean opaque_etc.name) ≡ render false (codes "etc" ∷ []))
    × AllPlain (codes "etc" ∷ codes "y" ∷ [])
    × IsPlain (codes "z")
    × ((clean (codes "etc/y/z") == codes "." || clean (codes "etc/y/z") == codes "/") ≡ false)
    × (clean (codes "etc/y/z") ≡ render false (codes "etc" ∷ codes "y" ∷ codes "z" ∷ []))
unfolding program
opaque_facts = (refl, refl, refl, whiteout_facts.4, whiteout_facts.5, refl, refl)

filter_func-opaque_example :
    (filter_func cwd root
      (apply_opaques (then_header new_layer_ctx opaque_etc))
      (file (codes "etc/y/z"))).1
    ≡ ok false
filter_func-opaque_example =
    filter_func-opaque cwd root new_layer_ctx (then_header new_layer_ctx opaque_etc)
      (apply_opaques (then_header new_layer_ctx opaque_etc)) opaque_etc (file (codes "etc/y/z"))
      false (codes "etc") [] (codes "y" ∷ []) (codes "z") opaque_facts.0 opaque_facts.1
      opaque_facts.2 here here opaque_facts.3 opaque_facts.4 opaque_facts.5 opaque_facts.6

abbrev hides_etc : Text → Bool
hides_etc p = p == codes "etc"

is_parent_whiteout_iff_example :
    (is_parent_whiteout hides_etc (render false (codes "etc" ∷ codes "y" ∷ codes "z" ∷ [])) ≡ true)
    ↔ Hidden false hides_etc (codes "etc" ∷ codes "y" ∷ [])
is_parent_whiteout_iff_example =
    is_parent_whiteout_iff false hides_etc (codes "etc" ∷ codes "y" ∷ []) (codes "z")
      whiteout_facts.4 whiteout_facts.5

rooted : (is_abs (codes "/r") ≡ true) × (is_abs (codes "/r/../s") ≡ true)
unfolding program
rooted = (refl, refl)

ensure_safe_path_iff_example :
    (ensure_safe_path cwd (codes "/r") (codes "/r/../s") ≡ ok tt)
    ↔ ((rest : List Text) × (components (codes "/r/../s") ≡ components (codes "/r") ++ rest))
ensure_safe_path_iff_example =
    ensure_safe_path_iff cwd (codes "/r") (codes "/r/../s") rooted.0 rooted.1

-- An opaque whiteout at the top of the image hides nothing: the loop stops before it looks there.
top_opaque_hides_nothing :
    (filter_func cwd root
      (apply_opaques (then_header new_layer_ctx (file (codes ".wh..wh..opq"))))
      (file (codes "etc/x"))).1
    ≡ ok true
unfolding program
top_opaque_hides_nothing = refl

abbrev link_x : Header
link_x = record { name = codes "etc/l"; is_link = true; linkname = codes "etc/x" }

deferred_link :
    (then_header new_layer_ctx link_x).hardlinks
    ≡ record { old = codes "/r/etc/x"; new = codes "/r/etc/l" } ∷ []
unfolding program
deferred_link = refl

Later-AllSafe_example : AllSafe cwd root (then_header new_layer_ctx link_x)
Later-AllSafe_example = Later-AllSafe cwd root (next here (entry new_layer_ctx link_x))
