-- ===== src/Extractor/Reference/Untracked.antt =====
-- What `ExtractImage` of pkg/extractor/extractor.go leaves in the file database after an error, from the
-- image's reference on.
use mysnapshotter.Prelude.{
  Bool, true, false, Option, none, some, ◌≡◌, refl, sym, ap, ◌∙◌, Text, Error, wrap, Result, ok,
  err, if◌then◌else◌,
}
use mysnapshotter.Paths.{abs}
use mysnapshotter.FileDb.Buckets.{Bolt, IsLawful}
use mysnapshotter.FileDb.{root_exists}
use mysnapshotter.Store.Registry.{Fetcher}
use mysnapshotter.Store.Content.{Manifest, MediaTypes, Json}
use mysnapshotter.Extractor.System.{Syscall, M, pure, fail, after, lift, named, issue}
use mysnapshotter.Extractor.Image.{Env, World, Db, extract_image}
use mysnapshotter.Extractor.Image.Rollback.{extract_image-untracked}
use mysnapshotter.Extractor.Reference.{
  Resolver, find_image_manifest, prepare_image, with_digest, extract_prepared, extract_reference,
}

module _ (E : Env) (R : Resolver) (T : MediaTypes) (J : Json) where
  -- What is prepared is for this root.
  abbrev Rooted : Text → Result (Text × Fetcher × Manifest) × World E → Type 0
  Rooted root (ok p, w) = p.0 ≡ root
  Rooted root (err e, w) = Unit

  bind-Rooted :
      {A : Type 0} (root : Text) (x : Result A × World E)
      (f : A → M (World E) (Text × Fetcher × Manifest))
      → ((a : A) (w : World E) → Rooted root (f a w))
      → Rooted root (after x f)
  bind-Rooted root (ok a, w) f h = h a w
  bind-Rooted root (err e, w) f h = tt

  prepare_image-Rooted :
      (delta : Bool) (opened : Option Error) (verify : Bool) (ref destination root : Text)
      (w : World E)
      → abs E.cwd destination ≡ ok root
      → Rooted root (prepare_image E R T J delta opened verify ref destination w)
  unfolding prepare_image
  prepare_image-Rooted delta opened verify ref destination root w h = rw h (
      bind-Rooted root
        (named "creating destination directory" (issue E.os (Syscall.mkdir_all root 493)) w) _
        (λ _ w1.
          bind-Rooted root (R.resolve verify ref, w1) _
            (λ p w2.
              bind-Rooted root
                (named "initiating fetcher for image" (lift (R.new_fetcher verify p.0)) w2) _
                (λ F w3.
                  bind-Rooted root (find_image_manifest E R T J F p.1, w3) _
                    (λ m w4.
                      bind-Rooted root
                        ((if delta
                            then (elim opened [
                              | none ↦ pure tt
                              | some e ↦ fail (wrap "opening file database" e)
                            ])
                            else pure tt)
                          w4)
                        _ (λ _ w5. refl))))))

  with_digest-err :
      (digest : Text) (x : (Db E × Result (Unit {0})) × World E) {e : Error}
      → (with_digest E R T J digest x).0.1 ≡ err e
      → x.0.1 ≡ err e
  with_digest-err digest ((db, ok _), w) h = absurd (cc)
  with_digest-err digest ((db, err x), w) h = cc

  with_digest-db :
      (digest : Text) (x : (Db E × Result (Unit {0})) × World E)
      → (with_digest E R T J digest x).0.0 ≡ x.0.0
  with_digest-db digest ((db, ok _), w) = refl
  with_digest-db digest ((db, err x), w) = refl

  prepared-untracked :
      IsLawful E.bolt
      → ((x : Db E) → Bolt.commit E.bolt x ≡ none)
      → (root : Text) (db : Db E) (x : Result (Text × Fetcher × Manifest) × World E) {e : Error}
      → root_exists E.bolt db root ≡ false
      → Rooted root x
      → (extract_prepared E R T J true db x).0.1 ≡ err e
      → root_exists E.bolt (extract_prepared E R T J true db x).0.0 root ≡ false
  prepared-untracked L safe root db (err x, w) new r h = new
  prepared-untracked L safe root db (ok (root', F, m), w) {e} new r h =
      let E' : Env = record E { fetcher = F } in
      let run = extract_image E' true root' m.layers db w in
      ap (λ d. root_exists E.bolt d root) (with_digest-db m.config.digest run)
      ∙ ap (λ t. root_exists E.bolt run.0.0 t) (sym r)
      ∙ extract_image-untracked E' L safe root' m.layers db w {e = e}
          (ap (λ t. root_exists E.bolt db t) r ∙ new)
          (with_digest-err m.config.digest run {e = e} h)

  -- If a delta extraction of an image ends in an error, at any step from the resolution of its
  -- reference on, and the destination was not tracked before, then it is not tracked afterwards, if the
  -- database can commit.
  pub extract_reference-untracked :
      IsLawful E.bolt
      → ((x : Db E) → Bolt.commit E.bolt x ≡ none)
      → (opened : Option Error) (verify : Bool) (ref destination root : Text) (db : Db E)
        (w : World E) {e : Error}
      → abs E.cwd destination ≡ ok root
      → root_exists E.bolt db root ≡ false
      → (extract_reference E R T J true opened verify ref destination db w).0.1 ≡ err e
      → root_exists E.bolt
          (extract_reference E R T J true opened verify ref destination db w).0.0
          root
        ≡ false
  unfolding extract_reference
  extract_reference-untracked L safe opened verify ref destination root db w {e} a new h =
      prepared-untracked L safe root db (prepare_image E R T J true opened verify ref destination w)
        {e = e} new (prepare_image-Rooted true opened verify ref destination root w a) h
