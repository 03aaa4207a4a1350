-- ===== src/Store/Commits.antt =====
-- The configuration and the labels of pkg/ocistore/commit.go, and its options. The platform of the
-- program and the time are arguments.
pub mod Decimals
pub mod References
use mysnapshotter.Prelude.{
  ℕ, zero, suc, ◌+◌, ◌/◌, ◌%◌, String, Bool, Option, none, some, List, [], ◌∷◌, ◌++◌, ltb,
  if◌then◌else◌, Text, codes, ◌==◌, length, message, is_not_found, is_already_exists, Result, ok,
  err, ◌>>=◌,
}
use mysnapshotter.Prelude.Int.{ℤ, pos}
use mysnapshotter.Store.Registry.{Descriptor}
use mysnapshotter.Store.Containerd.{Labels, Containerd, Image, driver, label_snapshot_img_ref}
use mysnapshotter.Store.Content.{
  Manifest, RunConfig, History, ImageConfig, MediaTypes, Json, ContentStore, read_image_config,
  read_manifest,
}
use mysnapshotter.Store.Snapshots.{set_label, label_of}
use mysnapshotter.Store.Unpacking.{Unpacker, leased_strictly, unpack}
use mysnapshotter.Store.Mounts.{Clock}
use mysnapshotter.Store.Options.{
  ApplyCommitOpts, ApplyCommitOpt, no_apply_commit_opts, apply_options,
}

-- `Changes` and `ImgOpts`.
pub record ImgOpts : Type 0 where
  pub author : Text
  pub message : Text
  pub ref : Text
  pub cmd : Option (List Text)
  pub entrypoint : Option (List Text)
  pub labels : Labels

-- `emptyGZLayer`.
abbrev pub empty_gz_layer : Text
empty_gz_layer = codes "sha256:4f4fb700ef54461cfa02571ae0db9a0dc1e0cdb5577484a6d75e68dc38e8acc1"

-- The zero `ocispec.Image`.
abbrev pub no_config : ImageConfig
no_config = record {
  architecture = [];
  os = [];
  variant = [];
  os_version = [];
  created = none;
  author = [];
  config = record { cmd = none; entrypoint = none; other = [] };
  rootfs_type = [];
  diff_ids = [];
  history = [];
}

-- A value, or the default where it is empty.
abbrev pub or_default : Text → Text → Text
or_default v d = if v == [] then d else v

abbrev pub changed : Option (List Text) → Option (List Text) → Option (List Text)
changed none old = old
changed (some new) old = some new

-- `generateCommitImageConfig`, with the architecture and the system of the program.
unfoldable pub generate_commit_image_config :
    Text → Text → ℤ → ImageConfig → Text → ImgOpts → ImageConfig
generate_commit_image_config goarch goos now base diff_id opts =
    let author = or_default opts.author base.author in
    record {
      architecture = or_default base.architecture goarch;
      os = or_default base.os goos;
      variant = [];
      os_version = [];
      created = some now;
      author = author;
      config = record base.config {
        cmd = changed opts.cmd base.config.cmd;
        entrypoint = changed opts.entrypoint base.config.entrypoint;
      };
      rootfs_type = codes "layers";
      diff_ids = base.diff_ids ++ (diff_id ∷ []);
      history =
          base.history
          ++ (record {
            created = some now;
            created_by = [];
            author = author;
            comment = opts.message;
            empty_layer = diff_id == empty_gz_layer;
          }
              ∷ []);
    }

-- `%d` of a number, of at most `rounds` digits.
unfoldable pub show_digits : ℕ → ℕ → Text
show_digits zero n = []
show_digits (suc rounds) n =
    let rest = show_digits rounds (n / 10) in
    (if ltb n 10 then [] else rest) ++ ((48 + n % 10) ∷ [])

-- A number has at most as many digits as one more than it is.
abbrev pub show_decimal : ℕ → Text
show_decimal n = show_digits (suc n) n

abbrev pub content_label : ℕ → Text
content_label i = codes "containerd.io/gc.ref.content." ++ show_decimal i

-- The labels of the layers, from a number on.
unfoldable pub label_layers : Labels → ℕ → List Descriptor → Labels
unfolding set_label show_digits
label_layers labels i [] = labels
label_layers labels i (l ∷ ls) =
    label_layers (set_label labels (content_label i) l.digest) (suc i) ls

unfoldable pub manifest_labels : Text → List Descriptor → Labels
unfolding label_layers
manifest_labels config layers = label_layers ((content_label 0, config) ∷ []) 1 layers

-- The layers of the new manifest.
abbrev pub commit_layers : Option Manifest → Descriptor → List Descriptor
commit_layers none layer = layer ∷ []
commit_layers (some m) layer = m.layers ++ (layer ∷ [])

-- `CommitImgOpts`, with the functions that set it. `Commit` reads only the options of the image.
pub record CommitImgOpts (C : Containerd) : Type 0 where
  pub apply_commit_opts : ApplyCommitOpts C
  pub i_opts : ImgOpts

abbrev pub CommitImgOpt : Containerd → Type 0
CommitImgOpt C = CommitImgOpts C → Result (CommitImgOpts C)

unfoldable pub with_img_apply_commit_opts :
    (C : Containerd) → List (ApplyCommitOpt C) → CommitImgOpt C
unfolding apply_options
with_img_apply_commit_opts C opts co = do
  a ← apply_options opts co.apply_commit_opts
  ok (record co { apply_commit_opts = a })

abbrev pub with_img_commit_opts : (C : Containerd) → ImgOpts → CommitImgOpt C
with_img_commit_opts C i_opts co = ok (record co { i_opts = i_opts })

abbrev pub no_commit_opts : (C : Containerd) → CommitImgOpts C
no_commit_opts C = record {
  apply_commit_opts = no_apply_commit_opts C;
  i_opts = record {
    author = [];
    message = [];
    ref = [];
    cmd = none;
    entrypoint = none;
    labels = [];
  };
}
