-- ===== src/Extractor/Confined/Images.antt =====
-- The paths of `ExtractImage` as a whole, over layers without names that climb.
use mysnapshotter.Prelude.{
  Bool, true, ◌&&◌, Option, none, some, List, [], ◌∷◌, All, reverse, ◌≡◌, refl, if◌then◌else◌,
  by_if, Text, wrap, Result, ok, err,
}
use mysnapshotter.Paths.{is_abs, clean}
use mysnapshotter.Paths.Below.{IsClimbless}
use mysnapshotter.Paths.Parents.{All-reverse}
use mysnapshotter.Chunked.Data.{Toc}
use mysnapshotter.FileDb.{root_exists}
use mysnapshotter.Store.Registry.{Descriptor}
use mysnapshotter.Extractor.Layer.{
  Hardlink, LayerCtx, Header, new_layer_ctx, apply_opaques, filter_func,
}
use mysnapshotter.Extractor.System.{Syscall, Reply, Os, M, pure, fail, ◌>>◌, named, attempt, issue}
use mysnapshotter.Extractor.Maintaining.{
  IfOk, Whatever, Ends, Maintains, pure-Maintains, fail-Maintains, lift-Maintains, then-Maintains,
  bind-Maintains, named-Maintains, settled-Maintains, if-Maintains, for_each-Maintains,
}
use mysnapshotter.Extractor.Image.{
  Env, World, Db, Run, apply_header, apply_headers, fetch_and_apply_layer, create_hard_link,
  create_hard_links, layer_toc, extract_layer, ran, extract_layers, linked, finish_links, cleaned,
  extract_image,
}
use mysnapshotter.Extractor.Confined.{
  IsNamed, IsInside, Respects, any_ok, issue-Maintains, told-Maintains,
}
use mysnapshotter.Extractor.Confined.Contents.{tried-Maintains}
use mysnapshotter.Extractor.Confined.Layers.{
  IsLinked, fetch_and_apply_delta_layer-Maintains, filter_func-IsLinked,
}

-- The calls that are confined to the directory keep the invariant, and so does containerd's extraction of
-- an entry, which goes to that directory.
pub record IsTame (E : Env) (root : Text) (I : World E → Type 0) : Type 0 where
  pub calls : Respects E.os root I
  pub entries : (h : Header) (w : World E) → I w → I (E.extract_entry h w).1

-- The names of a layer, in its table of contents and in its tar stream, do not climb.
abbrev pub IsNamedHeader : Header → Type 0
IsNamedHeader h = IsClimbless (clean h.name)

pub record IsNamedLayer (E : Env) (delta : Bool) (d : Descriptor) : Type 0 where
  pub toc_names : (toc : Toc) → layer_toc E delta d ≡ some toc → All IsNamed toc.entries
  pub tar_names : (hs : List Header) → E.headers d ≡ ok hs → All IsNamedHeader hs

module _ (E : Env) (root : Text) (I : World E → Type 0) (rooted : is_abs root ≡ true)
    (K : IsTame E root I) where
  abbrev Linked : LayerCtx → Type 0
  Linked = IsLinked E root I K.calls rooted

  extract_entry-Maintains : (h : Header) → Maintains I Whatever (E.extract_entry h)
  extract_entry-Maintains h = record {
    run = λ w i. (K.entries h w i, any_ok (E.extract_entry h w).0);
  }

  apply_header-Maintains :
      (lc : LayerCtx) (h : Header)
      → IsNamedHeader h
      → Linked lc
      → Maintains I Linked (apply_header E root lc h)
  unfolding apply_header
  apply_header-Maintains lc h c a =
      let x : LayerCtx × Result Bool = filter_func E.cwd root lc h in
      bind-Maintains I Whatever (lift-Maintains I x.1 (any_ok x.1)) (λ accepted _.
        then-Maintains I
          (if-Maintains I accepted (extract_entry-Maintains h) (pure-Maintains I tt tt))
          (pure-Maintains I x.0 (filter_func-IsLinked E root I K.calls rooted lc h c a)))

  apply_headers-Maintains :
      (hs : List Header) (lc : LayerCtx)
      → All IsNamedHeader hs
      → Linked lc
      → Maintains I Linked (apply_headers E root lc hs)
  unfolding apply_headers
  apply_headers-Maintains [] lc c a = pure-Maintains I lc a
  apply_headers-Maintains (h ∷ hs) lc c a =
      bind-Maintains I Linked (apply_header-Maintains lc h c.0 a)
        (λ lc' a'. apply_headers-Maintains hs lc' c.1 a')

  given :
      (d : Descriptor) (r : Result (List Header))
      → ((hs : List Header) → r ≡ ok hs → All IsNamedHeader hs)
      → IfOk (All IsNamedHeader) r
  given d (ok hs) h = h hs refl
  given d (err e) h = tt

  fetch_and_apply_layer-Maintains :
      (d : Descriptor) (lc : LayerCtx)
      → ((hs : List Header) → E.headers d ≡ ok hs → All IsNamedHeader hs)
      → Linked lc
      → Maintains I Linked (fetch_and_apply_layer E root d lc)
  unfolding fetch_and_apply_layer apply_opaques
  fetch_and_apply_layer-Maintains d lc c a =
      bind-Maintains I (All IsNamedHeader)
        (named-Maintains I _ (lift-Maintains I (E.headers d) (given d (E.headers d) c)))
        (λ hs q.
          bind-Maintains I Linked (named-Maintains I _ (apply_headers-Maintains hs lc q a))
            (λ lc' a'. pure-Maintains I (apply_opaques lc') a'))

  abbrev replaced : Hardlink → Result Reply → M (World E) (Unit {0})
  replaced l r = elim r [
    | ok _ ↦ pure tt
    | err e ↦
        if Os.is_exist E.os e
        then (do
          attempt (issue E.os (Syscall.remove l.new))
          named "creating hardlink" (issue E.os (Syscall.link l.old l.new))
          pure tt)
        else fail (wrap "creating hardlink" e)
  ]

  create_hard_link-Maintains :
      (l : Hardlink) → IsInside root l → Maintains I Whatever (create_hard_link E l)
  unfolding create_hard_link
  create_hard_link-Maintains l b =
      settled-Maintains I Whatever (replaced l)
        (issue-Maintains E.os root I K.calls (Syscall.link l.old l.new) b)
        (λ _ _. pure-Maintains I tt tt)
        (λ e.
          if-Maintains I (Os.is_exist E.os e)
            (then-Maintains I
              (tried-Maintains E.os E.decode_base64 root I K.calls (Syscall.remove l.new)
                (issue-Maintains E.os root I K.calls (Syscall.remove l.new) b.1))
              (then-Maintains I (told-Maintains E.os root I K.calls _ (Syscall.link l.old l.new) b)
                (pure-Maintains I tt tt)))
            (fail-Maintains I _))

  extract_layer-Maintains :
      (delta : Bool) (db : Db E) (lc : LayerCtx) (d : Descriptor)
      → IsNamedLayer E delta d
      → Linked lc
      → (o : Option Toc) → layer_toc E delta d ≡ o
      → Maintains I (λ r. Linked r.1) (extract_layer E root db lc d o)
  unfolding extract_layer
  extract_layer-Maintains delta db lc d c a none e =
      bind-Maintains I Linked (fetch_and_apply_layer-Maintains d lc c.tar_names a)
        (λ lc' a'. pure-Maintains I (db, lc') a')
  extract_layer-Maintains delta db lc d c a (some toc) e =
      fetch_and_apply_delta_layer-Maintains E root I K.calls rooted db toc d lc (c.toc_names toc e)
        a

  -- What a run keeps.
  abbrev IsKept : Run E → Type 0
  IsKept r = I r.1 × IfOk Linked r.0.1

  ran-IsKept :
      (db : Db E) (x : Result (Db E × LayerCtx) × World E)
      → Ends I (λ r. Linked r.1) x
      → IsKept (ran E db x)
  ran-IsKept db (ok (db', lc), w) h = h
  ran-IsKept db (err e, w) h = (h.0, tt)

  extract_layers-IsKept :
      (delta : Bool) (ls : List Descriptor) (r : Run E)
      → All (IsNamedLayer E delta) ls
      → IsKept r
      → IsKept (extract_layers E delta root ls r)
  unfolding extract_layers
  extract_layers-IsKept delta [] r c k = k
  extract_layers-IsKept delta (l ∷ ls) ((db, err e), w) c k = k
  extract_layers-IsKept delta (l ∷ ls) ((db, ok lc), w) c k = extract_layers-IsKept delta ls _ c.1 (
      ran-IsKept db (extract_layer E root db lc l (layer_toc E delta l) w)
        ((extract_layer-Maintains delta db lc l c.0 k.1 (layer_toc E delta l) refl).run w k.0))

  finished : (delta : Bool) (r : Run E) → IsKept r → I (cleaned E delta root (finish_links E r)).1
  unfolding finish_links create_hard_links
  finished delta ((db, err e), w) k = k.0
  finished delta ((db, ok lc), w) k =
      after_links (create_hard_links E lc.hardlinks w)
        ((for_each-Maintains I (IsInside root) lc.hardlinks k.1 create_hard_link-Maintains).run w
          k.0).0
    where
      after_links :
          (x : Result (Unit {0}) × World E) → I x.1 → I (cleaned E delta root (linked E db x)).1
      after_links (ok _, w') i = i
      after_links (err e, w') i = i

  -- An extraction into a rooted destination, with deltas or without, keeps every invariant that the calls
  -- confined to the destination and containerd's extraction of an entry keep, also where it fails, if no
  -- name in the layers climbs. A call is confined if what it changes is named by a path below the
  -- destination, or it makes directories above it; links that the system follows are not looked at.
  pub extract_image_confined :
      (delta : Bool) (layers : List Descriptor) (db : Db E) (w : World E)
      → All (IsNamedLayer E delta) layers
      → I w
      → I (extract_image E delta root layers db w).1
  unfolding extract_image
  extract_image_confined delta layers db w c i =
      by_if {A = (Db E × Result (Unit {0})) × World E} (λ r. I r.1)
        (delta && root_exists E.bolt db root) i
        (finished delta _ (
          extract_layers-IsKept delta (reverse layers) ((db, ok new_layer_ctx), w)
            (All-reverse _ layers c) (i, tt)))
