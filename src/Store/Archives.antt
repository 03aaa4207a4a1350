-- ===== src/Store/Archives.antt =====
-- The options of pkg/ocistore/import.go, and what the code calls to read an archive: the reading into
-- the content store and the walk over its descriptors are parameters.
use mysnapshotter.Prelude.{
  Bool, true, false, Option, none, some, List, [], ◌++◌, Text, Error, Result, ok,
}
use mysnapshotter.Extractor.System.{M}
use mysnapshotter.Chunked.Toc.{Annotations}
use mysnapshotter.Store.Registry.{Descriptor}
use mysnapshotter.Store.Containerd.{Labels, Containerd, Image}
use mysnapshotter.Store.Options.{ApplyCommitOpt}

-- A file that is read, `archive.ImportIndex`, `images.Children`, and `images.WalkNotEmpty` over the
-- handler with `FilterPlatforms`, `SetReferrers` and `SetChildrenLabels` around it, and the images
-- that the handler collects as its state; and the annotations that the code looks up.
pub record Archive (World : Type 0) : Type 1 where
  pub Reader : Type 0
  pub open_file : Text → World → Result Reader × World
  pub close_file : Reader → World → Result (Unit {0}) × World
  pub import_index : Bool → Reader → World → Result Descriptor × World
  pub children : Descriptor → World → Result (List Descriptor) × World
  pub Matcher : Type 0
  pub all_platforms : Matcher
  pub store_platform : Matcher
  pub Referrers : Type 0
  pub walk_not_empty :
      Matcher
      → Option Referrers
      → Bool
      → (Descriptor → M (World × List Image) (List Descriptor))
      → Descriptor
      → M (World × List Image) (Unit {0})
  pub skip_desc : Error
  pub annotation_image_name : Text
  pub annotation_ref_name : Text
  pub annotation_manifest_subject : Text

-- `annotations[k]`.
abbrev pub annotation : Annotations → Text → Text
annotation a k = elim (a k) [ none ↦ [] | some v ↦ v ]

module _ (C : Containerd) (A : Archive C.World) where
  -- `importConfig`.
  pub record ImportConfig : Type 0 where
    pub index_name : Text
    pub image_ref_t : Option (Text → Text)
    pub dgst_ref_t : Option (Text → Text)
    pub skip_dgst_ref : Option (Text → Bool)
    pub all_platforms : Bool
    pub platform_matcher : Option A.Matcher
    pub compress : Bool
    pub discard_layers : Bool
    pub skip_missing : Bool
    pub image_labels : Option Labels
    pub referrers : Option A.Referrers

  -- `ImportOpts`, with the functions that set it.
  pub record ImportOpts : Type 0 where
    pub cfg : ImportConfig
    pub a_opts : List (ApplyCommitOpt C)
    pub unpack : Bool

  abbrev pub no_import_opts : ImportOpts
  no_import_opts = record {
    cfg = record {
      index_name = [];
      image_ref_t = none;
      dgst_ref_t = none;
      skip_dgst_ref = none;
      all_platforms = false;
      platform_matcher = none;
      compress = false;
      discard_layers = false;
      skip_missing = false;
      image_labels = none;
      referrers = none;
    };
    a_opts = [];
    unpack = false;
  }

  abbrev pub ImportOpt : Type 0
  ImportOpt = ImportOpts → Result ImportOpts

  abbrev pub with_import_unpack : ImportOpt
  with_import_unpack o = ok (record o { unpack = true })

  abbrev pub with_import_apply_commit_opts : List (ApplyCommitOpt C) → ImportOpt
  with_import_apply_commit_opts opts o = ok (record o { a_opts = o.a_opts ++ opts })

  -- A function that sets a part of the configuration.
  abbrev pub configured : (ImportConfig → ImportConfig) → ImportOpt
  configured f o = ok (record o { cfg = f o.cfg })

  abbrev pub with_import_index_name : Text → ImportOpt
  with_import_index_name name = configured (λ c. record c { index_name = name })

  abbrev pub with_import_image_ref_translator : (Text → Text) → ImportOpt
  with_import_image_ref_translator f = configured (λ c. record c { image_ref_t = some f })

  abbrev pub with_import_digest_ref : (Text → Text) → ImportOpt
  with_import_digest_ref f = configured (λ c. record c { dgst_ref_t = some f })

  abbrev pub with_import_skip_digest_ref : (Text → Bool) → ImportOpt
  with_import_skip_digest_ref f = configured (λ c. record c { skip_dgst_ref = some f })

  abbrev pub with_import_all_platforms : Bool → ImportOpt
  with_import_all_platforms all = configured (λ c. record c { all_platforms = all })

  abbrev pub with_import_platform : A.Matcher → ImportOpt
  with_import_platform pm = configured (λ c. record c { platform_matcher = some pm })

  abbrev pub with_import_compression : ImportOpt
  with_import_compression = configured (λ c. record c { compress = true })

  abbrev pub with_import_discard_layers : ImportOpt
  with_import_discard_layers = configured (λ c. record c { discard_layers = true })

  abbrev pub with_import_skip_missing : ImportOpt
  with_import_skip_missing = configured (λ c. record c { skip_missing = true })

  abbrev pub with_import_labels : Labels → ImportOpt
  with_import_labels labels = configured (λ c. record c { image_labels = some labels })

  abbrev pub with_import_referrers : A.Referrers → ImportOpt
  with_import_referrers r = configured (λ c. record c { referrers = some r })
