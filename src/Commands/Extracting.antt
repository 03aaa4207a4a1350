-- ===== src/Commands/Extracting.antt =====
-- The `extract` command of cmd/extract.go, with `NewExtractor` and its options of
-- pkg/extractor/extractor.go. The opening of a database at a path is a parameter.
use mysnapshotter.Prelude.{
  Bool, false, not, Option, List, [], ◌∷◌, ◌++◌, Text, codes, Error, Result,
}
use mysnapshotter.Store.Content.{MediaTypes, Json}
use mysnapshotter.Extractor.Image.{Env, World, Db}
use mysnapshotter.Extractor.Reference.{Resolver, extract_reference}

-- The fields of `Extractor` that its options set.
pub record Extractor : Type 0 where
  pub file_db_path : Text
  pub delta : Bool

-- `ocistore.DefaultRoot` and `DefaultDBPath`.
abbrev pub default_root : Text
default_root = codes "/tmp/ocistore"

abbrev pub default_db_path : Text
default_db_path = default_root ++ codes "/files.db"

abbrev pub ExtractorOpt : Type 0
ExtractorOpt = Extractor → Extractor

abbrev pub with_db_path : Text → ExtractorOpt
with_db_path path e = record e { file_db_path = path }

abbrev pub with_delta : Bool → ExtractorOpt
with_delta delta e = record e { delta = delta }

unfoldable pub apply_extractor_opts : List ExtractorOpt → ExtractorOpt
apply_extractor_opts [] e = e
apply_extractor_opts (o ∷ os) e = apply_extractor_opts os (o e)

-- `NewExtractor`.
unfoldable pub new_extractor : List ExtractorOpt → Extractor
unfolding apply_extractor_opts
new_extractor opts =
    apply_extractor_opts opts (record { file_db_path = default_db_path; delta = false })

-- The flags of `extract`.
pub record ExtractFlags : Type 0 where
  pub filedb : Text
  pub skip_tls : Bool
  pub delta : Bool

module _ (E : Env) (R : Resolver) (T : MediaTypes) (J : Json) (open_db : Text → Option Error) where
  -- `RunE` of `extractCmd`.
  unfoldable pub run_extract :
      ExtractFlags → Text → Text → Db E → World E → (Db E × Result Text) × World E
  unfolding new_extractor extract_reference
  run_extract f ref dst db w =
      let x = new_extractor (with_db_path f.filedb ∷ with_delta f.delta ∷ []) in
      extract_reference E R T J x.delta (open_db x.file_db_path) (not f.skip_tls) ref dst db w
