-- ===== src/Extractor/Dispatch/Once.antt =====
-- `fetchManifestAndConfig` of pkg/extractor/extractor.go keeps the first manifest and configuration.
use mysnapshotter.Prelude.{
  Bool, true, false, Option, none, some, List, [], ◌∷◌, ◌≡◌, refl, Error, message, wrap, Result, ok,
  err, if◌then◌else◌, String,
}
use mysnapshotter.Extractor.System.{M, pure, after, wrapped, ◌>>=◌, ◌>>◌, lift, named}
use mysnapshotter.Store.Registry.{Descriptor, Fetcher}
use mysnapshotter.Store.Content.{MediaTypes, Json}
use mysnapshotter.Extractor.Dispatch.{
  Metadata, set_manifest, set_config, once, blob, handle_index, handle_manifest, handle_config,
  fetch_manifest_and_config,
}

-- The value that is there, or else a new one.
abbrev pub first : {A : Type 0} → Option A → Option A → Option A
first none new = new
first (some a) new = some a

-- A value that is there is not changed.
abbrev pub Keeps : {A : Type 0} → Option A → Option A → Type 0
Keeps old new = new ≡ first old new

module _ (F : Fetcher) (T : MediaTypes) (J : Json) where
  -- What the handler leaves of the metadata.
  abbrev pub Grows : Metadata → Result (List Descriptor) × Metadata → Type 0
  Grows s (r, s') = Keeps s.mfst s'.mfst × Keeps s.conf s'.conf

  keeps_refl : {A : Type 0} (o : Option A) → Keeps o o
  keeps_refl none = refl
  keeps_refl (some a) = refl

  unmoved : (s : Metadata) (r : Result (List Descriptor)) → Grows s (r, s)
  unmoved s r = (keeps_refl s.mfst, keeps_refl s.conf)

  wrapped-Grows :
      (x : String) (s : Metadata) (r : Result (List Descriptor)) → Grows s (wrapped x (r, s))
  wrapped-Grows x s (ok ds) = unmoved s (ok ds)
  wrapped-Grows x s (err e) = unmoved s (err (wrap x e))

  -- A value that is read and that nothing but an error comes of changes nothing.
  after_read :
      {A : Type 0} (x : String) (s : Metadata) (r : Result A) (f : A → M Metadata (List Descriptor))
      → ((a : A) → r ≡ ok a → Grows s (f a s))
      → Grows s (after (wrapped x (r, s)) f)
  after_read x s (ok a) f h = h a refl
  after_read x s (err e) f h = unmoved s (err (wrap x e))

  once_then :
      {A : Type 0} (x : Error) (o : Option A) (s : Metadata) (m : M Metadata (List Descriptor))
      → (o ≡ none → Grows s (m s))
      → Grows s ((once x o >> m) s)
  once_then x none s m h = h refl
  once_then x (some a) s m h = unmoved s (err x)

  handle_index-Grows : (desc : Descriptor) (s : Metadata) → Grows s (handle_index F T J desc s)
  unfolding handle_index
  handle_index-Grows desc s =
      after_read "failed fetching index" s (blob F T J desc) _
        (λ b _. wrapped-Grows "unmarshalling index error" s (J.decode_index b))

  abbrev read_manifest_blob : Descriptor → M Metadata (List Descriptor)
  read_manifest_blob desc = do
    b ← named "failed fetching manifest" (lift (blob F T J desc))
    m ← named "unmarshalling manifest error" (lift (J.decode_manifest b))
    set_manifest m
    pure (m.config ∷ m.layers)

  read_manifest_blob-Grows :
      (desc : Descriptor) (s : Metadata) → s.mfst ≡ none → Grows s (read_manifest_blob desc s)
  read_manifest_blob-Grows desc s h =
      after_read "failed fetching manifest" s (blob F T J desc) _ (λ b _.
        after_read "unmarshalling manifest error" s (J.decode_manifest b) _
          (λ m _. (rw h refl, keeps_refl s.conf)))

  handle_manifest-Grows :
      (desc : Descriptor) (s : Metadata) → Grows s (handle_manifest F T J desc s)
  unfolding handle_manifest
  handle_manifest-Grows desc s =
      once_then (message "manifest already defined, there can only be one") s.mfst s
        (read_manifest_blob desc) (read_manifest_blob-Grows desc s)

  abbrev read_config_blob : Descriptor → M Metadata (List Descriptor)
  read_config_blob desc = do
    b ← named "failed fetching manifest" (lift (blob F T J desc))
    c ← named "unmarshalling config error" (lift (J.decode_config b))
    set_config c
    pure []

  read_config_blob-Grows :
      (desc : Descriptor) (s : Metadata) → s.conf ≡ none → Grows s (read_config_blob desc s)
  read_config_blob-Grows desc s h =
      after_read "failed fetching manifest" s (blob F T J desc) _ (λ b _.
        after_read "unmarshalling config error" s (J.decode_config b) _
          (λ c _. (keeps_refl s.mfst, rw h refl)))

  handle_config-Grows : (desc : Descriptor) (s : Metadata) → Grows s (handle_config F T J desc s)
  unfolding handle_config
  handle_config-Grows desc s =
      once_then (message "config is not zero, there can only be one") s.conf s
        (read_config_blob desc) (read_config_blob-Grows desc s)

  if-Grows :
      (b : Bool) (m k : M Metadata (List Descriptor)) (s : Metadata)
      → Grows s (m s)
      → Grows s (k s)
      → Grows s ((if b then m else k) s)
  if-Grows true m k s a b = a
  if-Grows false m k s a b = b

  -- Whatever descriptor it gets, the handler changes no manifest and no configuration that was found
  -- before.
  pub fetch_manifest_and_config-first :
      (desc : Descriptor) (s : Metadata)
      → ((fetch_manifest_and_config F T J desc s).1.mfst
          ≡ first s.mfst (fetch_manifest_and_config F T J desc s).1.mfst)
        × ((fetch_manifest_and_config F T J desc s).1.conf
            ≡ first s.conf (fetch_manifest_and_config F T J desc s).1.conf)
  unfolding fetch_manifest_and_config
  fetch_manifest_and_config-first desc s =
      if-Grows (T.is_docker desc.media_type) _ _ s
        (unmoved s (err (message "media type not supported")))
        (if-Grows (T.is_index desc.media_type) _ _ s (handle_index-Grows desc s) (
          if-Grows (T.is_manifest desc.media_type) _ _ s (handle_manifest-Grows desc s) (
            if-Grows (T.is_config desc.media_type) _ _ s (handle_config-Grows desc s)
              (unmoved s (ok [])))))
