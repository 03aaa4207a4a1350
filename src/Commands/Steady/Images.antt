-- ===== src/Commands/Steady/Images.antt =====
-- The operations on leases, snapshots and images keep an invariant that the libraries keep.
use mysnapshotter.Prelude.{
  ℕ, zero, suc, String, Bool, true, false, Option, none, some, List, [], if◌then◌else◌, Text, ◌==◌,
  wrap, is_not_found, is_failed_precondition, Result, ok, err,
}
use mysnapshotter.Extractor.System.{M, pure, fail, ◌>>=◌, ◌>>◌, lift, attempt}
use mysnapshotter.Extractor.Maintaining.{
  IfOk, Whatever, Maintains, pure-Maintains, fail-Maintains, lift-Maintains, bind-Maintains,
  then-Maintains, named-Maintains, attempt-Maintains, settled-Maintains, if-Maintains,
}
use mysnapshotter.Store.Containerd.{Labels, Containerd, Image, Info}
use mysnapshotter.Store.Unpacking.{end_strictly, leased_strictly}
use mysnapshotter.Store.Snapshots.{
  not_initiated, checked, with_lease, end_lease, leased, list_snapshots, deeper, after_parent,
  after_remove, after_stat, chain_round, remove_snapshots_chain,
}
use mysnapshotter.Store.Images.{get_image, is_unpacked, list_images, delete_leased, delete_image}
use mysnapshotter.Commands.{Host, World}
use mysnapshotter.Commands.Steady.{IsSteady}

module _ (H : Host) (Names Refs : Text → Type 0) (I : World H → Type 0)
    (S : IsSteady H Names Refs I) (initiated : Bool) where
  abbrev C : Containerd
  C = H.containerd

  pub checked-Maintains :
      {A : Type 0} {Q : A → Type 0} {m : M (World H) A}
      → Maintains I Q m
      → Maintains I Q (checked C initiated m)
  checked-Maintains a = if-Maintains I initiated a (fail-Maintains I not_initiated)

  pub with_lease-Maintains :
      (id : Option Text) (l : Labels) → Maintains I Whatever (with_lease C initiated id l)
  unfolding with_lease
  with_lease-Maintains id l =
      if-Maintains I C.leased_context (pure-Maintains I none tt)
        (bind-Maintains I Whatever (S.lease_create id l) (λ k _. pure-Maintains I (some k) tt))

  pub end_lease-Maintains : (l : Option Text) → Maintains I Whatever (end_lease C initiated l)
  unfolding end_lease
  end_lease-Maintains none = pure-Maintains I tt tt
  end_lease-Maintains (some l) = S.lease_delete l

  -- The result of an action does not matter.
  pub tried-Maintains :
      {A : Type 0} {Q : A → Type 0} (m : M (World H) A)
      → Maintains I Q m
      → Maintains I Whatever (attempt m)
  tried-Maintains m a = record { run = λ w i. ((a.run w i).0, tt) }

  pub leased-Maintains :
      {A : Type 0} {Q : A → Type 0} {body : M (World H) A}
      → Maintains I Q body
      → Maintains I Q (leased C initiated body)
  unfolding leased
  leased-Maintains {Q = Q} {body = body} a = checked-Maintains (
      bind-Maintains I Whatever
        {f = λ l. attempt body >>= λ r. attempt (end_lease C initiated l) >> lift r}
        (with_lease-Maintains none [])
        (λ l _.
          bind-Maintains I (IfOk Q) {f = λ r. attempt (end_lease C initiated l) >> lift r}
            (attempt-Maintains I a)
            (λ r q.
              then-Maintains I (tried-Maintains _ (end_lease-Maintains l)) (lift-Maintains I r q))))

  end_strictly-Maintains :
      {A : Type 0} {Q : A → Type 0} (l : Option Text) (r : Result A)
      → IfOk Q r
      → Maintains I Q (end_strictly C initiated l r)
  unfolding end_strictly
  end_strictly-Maintains l (err e) q =
      then-Maintains I (tried-Maintains _ (end_lease-Maintains l)) (fail-Maintains I e)
  end_strictly-Maintains l (ok a) q =
      then-Maintains I (end_lease-Maintains l) (pure-Maintains I a q)

  pub leased_strictly-Maintains :
      {A : Type 0} {Q : A → Type 0} (s : String) {body : M (World H) A}
      → Maintains I Q body
      → Maintains I Q (leased_strictly C initiated s body)
  unfolding leased_strictly
  leased_strictly-Maintains {Q = Q} s {body = body} a = checked-Maintains (
      bind-Maintains I Whatever {f = λ l. attempt body >>= end_strictly C initiated l}
        (named-Maintains I s (with_lease-Maintains none []))
        (λ l _.
          bind-Maintains I (IfOk Q) {f = end_strictly C initiated l} (attempt-Maintains I a)
            (λ r q. end_strictly-Maintains l r q)))

  abbrev listed : Result (List Info) → M (World H) (List Info)
  listed r = elim r [ ok infos ↦ pure infos | err e ↦ if is_not_found e then pure [] else fail e ]

  pub list_snapshots-Maintains : Maintains I Whatever (list_snapshots C initiated)
  unfolding list_snapshots
  list_snapshots-Maintains = leased-Maintains (
      settled-Maintains I Whatever listed S.snapshot_walk (λ infos _. pure-Maintains I infos tt)
        (λ e. if-Maintains I (is_not_found e) (pure-Maintains I [] tt) (fail-Maintains I e)))

  pub get_image-Maintains : (n : Text) → Maintains I Whatever (get_image C initiated n)
  unfolding get_image
  get_image-Maintains n = checked-Maintains (named-Maintains I _ (S.image_get n))

  pub list_images-Maintains : Maintains I Whatever (list_images C initiated)
  unfolding list_images
  list_images-Maintains = checked-Maintains S.image_list

  abbrev looked : Result Info → M (World H) Bool
  looked found = elim found [
    | ok _ ↦ pure true
    | err e ↦
        if is_not_found e then pure false else fail (wrap "looking for image in snapshotter" e)
  ]

  pub is_unpacked-Maintains : (img : Image) → Maintains I Whatever (is_unpacked C initiated img)
  unfolding is_unpacked
  is_unpacked-Maintains img = checked-Maintains (
      bind-Maintains I Whatever {f = λ ids. attempt (C.snapshot_stat (C.chain_id ids)) >>= looked}
        (named-Maintains I "getting image rootfs" (S.root_fs img))
        (λ ids _.
          settled-Maintains I Whatever looked (S.snapshot_stat (C.chain_id ids))
            (λ _ _. pure-Maintains I true tt)
            (λ e.
              if-Maintains I (is_not_found e) (pure-Maintains I false tt) (fail-Maintains I _))))

  abbrev Walk : Type 0
  Walk = Text → Option ℕ → M (World H) (Unit {0})

  after_parent-Maintains :
      (go : Walk) (parent : Text) (d : Option (Option ℕ))
      → ((k : Text) (d : Option ℕ) → Maintains I Whatever (go k d))
      → Maintains I Whatever (after_parent C initiated go parent d)
  after_parent-Maintains go parent none a = pure-Maintains I tt tt
  after_parent-Maintains go parent (some d) a =
      if-Maintains I (parent == []) (pure-Maintains I tt tt) (a parent d)

  chain_round-Maintains :
      (go : Walk) (key : Text) (depth : Option ℕ)
      → ((k : Text) (d : Option ℕ) → Maintains I Whatever (go k d))
      → Maintains I Whatever (chain_round C initiated go key depth)
  unfolding chain_round
  chain_round-Maintains go key depth a =
      settled-Maintains I Whatever (after_stat C initiated go key depth) (S.snapshot_stat key)
        (λ info _.
          settled-Maintains I Whatever
            (after_remove C initiated
              (after_parent C initiated go info.parent (deeper C initiated depth)))
            (S.snapshot_remove key)
            (λ _ _. after_parent-Maintains go info.parent (deeper C initiated depth) a)
            (λ e.
              if-Maintains I (is_failed_precondition e) (pure-Maintains I tt tt)
                (fail-Maintains I _)))
        (λ e. if-Maintains I (is_not_found e) (pure-Maintains I tt tt) (fail-Maintains I e))

  pub remove_snapshots_chain-Maintains :
      (rounds : ℕ) (key : Text) (depth : Option ℕ)
      → Maintains I Whatever (remove_snapshots_chain C initiated rounds key depth)
  unfolding remove_snapshots_chain
  remove_snapshots_chain-Maintains zero key depth = fail-Maintains I _
  remove_snapshots_chain-Maintains (suc rounds) key depth =
      chain_round-Maintains _ key depth (λ k d. remove_snapshots_chain-Maintains rounds k d)

  pub delete_image-Maintains :
      (rounds : ℕ) (n : Text) → Names n → Maintains I Whatever (delete_image C initiated rounds n)
  unfolding delete_image delete_leased
  delete_image-Maintains rounds n p = leased-Maintains (
      bind-Maintains I Whatever (get_image-Maintains n) (λ img _.
        bind-Maintains I Whatever (is_unpacked-Maintains img) (λ u _.
          then-Maintains I
            (if-Maintains I u
              (bind-Maintains I Whatever (S.root_fs img)
                (λ ids _. remove_snapshots_chain-Maintains rounds (C.chain_id ids) none))
              (pure-Maintains I tt tt))
            (S.image_delete n p))))
