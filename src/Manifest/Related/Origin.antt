-- ===== src/Manifest/Related/Origin.antt =====
-- The images of a catalog come from its bundles.
use mathlib.Core.List.{Memᴰ}
use golang_fb_mirror.Base.{
  ◌≡◌, ◌≢◌, refl, ap, sym, ◌∙◌, subst, ◌⊎◌, inl, inr, true, false, List, [], ◌∷◌, some, ◌==◌,
  ==_iff, List_eq, ℕ_eq, if◌then◌else◌, Bool-cases, arith, All, Result, ok, index,
}
use golang_fb_mirror.Base.Text.{Str}
use golang_fb_mirror.Base.Maps.{Map, lookup, has, put, lookup-put}
use golang_fb_mirror.Semver.{Semver}
use golang_fb_mirror.Api.{DeclarativeConfig, ChannelEntry, RelatedImage, IscPackage}
use golang_fb_mirror.Manifest.Versions.{semver_find_max, semver_find_range}
use golang_fb_mirror.Manifest.Versions.Settles.{
  Settles, semver_find_max-Settles, semver_find_range-Settles,
}
use golang_fb_mirror.Manifest.Related.{
  Scan, Schema, channel_object, bundle_object, package_object, other_object, schema_of, mark_all,
  mark_max, keep_bundle, or_logged, default_object, default_objects,
  get_related_image_by_default_channel, no_scan, filter_object, filter_objects,
  get_related_image_by_filter,
}

-- A channel of the catalog has an entry.
abbrev pub HasEntries : DeclarativeConfig → Type 0
HasEntries obj = schema_of obj.schema ≡ channel_object → obj.entries ≢ []

-- The images are those of a bundle of the catalog with that name.
abbrev pub FromBundle : List DeclarativeConfig → Str → List RelatedImage → Type 0
FromBundle olm k images =
    (obj : DeclarativeConfig) × Memᴰ obj olm
    × (schema_of obj.schema ≡ bundle_object)
    × (obj.name ≡ k)
    × (obj.related_images ≡ images)

abbrev pub AllFrom : List DeclarativeConfig → Map Str (List RelatedImage) → Type 0
AllFrom olm m =
    (k : Str) (images : List RelatedImage) → lookup k m ≡ some images → FromBundle olm k images

-- What one object does to the images: nothing, or it is a bundle and adds its own.
abbrev pub Adds : Schema → DeclarativeConfig → Scan → Result Scan → Type 0
Adds sch obj s r =
    (s' : Scan) × (r ≡ ok s')
    × ((s'.related_images ≡ s.related_images)
        ⊎ ((sch ≡ bundle_object)
            × (s'.related_images ≡ put obj.name obj.related_images s.related_images)))

some-inj : (a b : List RelatedImage) → some a ≡ some b → a ≡ b
some-inj a b h = ground arith

AllFrom-put :
    (olm : List DeclarativeConfig) (obj : DeclarativeConfig) (m : Map Str (List RelatedImage))
    → Memᴰ obj olm
    → schema_of obj.schema ≡ bundle_object
    → AllFrom olm m
    → AllFrom olm (put obj.name obj.related_images m)
AllFrom-put olm obj m i b h k images e = elim (Bool-cases (obj.name == k)) [
  | inl same ↦
      let e' =
        sym (
          lookup-put obj.name k obj.related_images m
          ∙ ap (λ t. if t then some obj.related_images else lookup k m) same)
        ∙ e in
      (obj, i, b, (==_iff obj.name k).0 same, some-inj obj.related_images images e')
  | inr other ↦ h k images (
      sym (
        lookup-put obj.name k obj.related_images m
        ∙ ap (λ t. if t then some obj.related_images else lookup k m) other)
      ∙ e)
]

or_logged-ok {ℓ} :
    {A : Type ℓ} (a : A) (r : Result A) → Settles r → (b : A) × (or_logged a r ≡ ok b)
or_logged-ok a r (inl (b, e)) = (b, rw e refl)
or_logged-ok a r (inr (x, e)) = (a, rw e refl)

module _ (sv : Semver) where
  mark_max-name :
      (obj : DeclarativeConfig) (s : Scan) (name : Str)
      → or_logged [] (semver_find_max sv obj.entries) ≡ ok name
      → mark_max sv obj s ≡ ok (record s { bundles = put name true s.bundles })
  unfolding mark_max
  mark_max-name obj s name e = rw e refl

  mark_max-Adds :
      (obj : DeclarativeConfig) (s : Scan)
      → obj.entries ≢ []
      → (s' : Scan) × (mark_max sv obj s ≡ ok s') × (s'.related_images ≡ s.related_images)
  mark_max-Adds obj s h = for_entries obj.entries refl
    where
      for_entries :
          (es : List ChannelEntry)
          → obj.entries ≡ es
          → (s' : Scan) × (mark_max sv obj s ≡ ok s') × (s'.related_images ≡ s.related_images)
      for_entries [] e = absurd (h e)
      for_entries (first ∷ es) e =
          let (name, e') =
            or_logged-ok [] (semver_find_max sv obj.entries)
              (rw e (semver_find_max-Settles sv first es)) in
          (record s { bundles = put name true s.bundles }, mark_max-name obj s name e', refl)

  filter-Adds :
      (pkg : IscPackage) (sch : Schema) (obj : DeclarativeConfig) (s : Scan)
      → (sch ≡ channel_object → obj.entries ≢ [])
      → Adds sch obj s (filter_object sv pkg sch obj s)
  unfolding filter_object keep_bundle
  filter-Adds pkg channel_object obj s h = elim (Bool-cases (pkg.channel == [])) [
    | inl e ↦ let (s', e', same) = mark_max-Adds obj s (h refl) in (s', rw e e', inl same)
    | inr e ↦ elim (Bool-cases (pkg.channel == obj.name)) [
      | inl e' ↦
          let (names, en) =
            or_logged-ok [] (semver_find_range sv obj.entries pkg.min_version pkg.max_version)
              (semver_find_range-Settles sv obj.entries pkg.min_version pkg.max_version) in
          (record s { bundles = mark_all names s.bundles }, rw (e, e', en) refl, inl refl)
      | inr e' ↦ (s, rw (e, e') refl, inl refl)
    ]
  ]
  filter-Adds pkg bundle_object obj s h =
      elim pkg.full
        as (λ f. Adds bundle_object obj s (
          ok (
            if f
            then keep_bundle sv obj s
            else if has obj.name s.bundles
            then keep_bundle sv obj s
            else s))) [
              | true ↦ (keep_bundle sv obj s, refl, inr (refl, refl))
              | false ↦
                  elim (has obj.name s.bundles)
                    as (λ b.
                      Adds bundle_object obj s (ok (if b then keep_bundle sv obj s else s))) [
                        | true ↦ (keep_bundle sv obj s, refl, inr (refl, refl))
                        | false ↦ (s, refl, inl refl)
                      ]
            ]
  filter-Adds pkg package_object obj s h =
      (record s { bundles = put obj.default_channel true s.bundles }, refl, inl refl)
  filter-Adds pkg other_object obj s h = (s, refl, inl refl)

  Adds-AllFrom :
      (olm : List DeclarativeConfig) (obj : DeclarativeConfig) (s s' : Scan)
      → Memᴰ obj olm
      → (s'.related_images ≡ s.related_images)
        ⊎ ((schema_of obj.schema ≡ bundle_object)
            × (s'.related_images ≡ put obj.name obj.related_images s.related_images))
      → AllFrom olm s.related_images
      → AllFrom olm s'.related_images
  Adds-AllFrom olm obj s s' i (inl e) h = subst (AllFrom olm) (sym e) h
  Adds-AllFrom olm obj s s' i (inr (b, e)) h =
      subst (AllFrom olm) (sym e) (AllFrom-put olm obj s.related_images i b h)

  filter_objects-cons :
      (pkg : IscPackage) (obj : DeclarativeConfig) (olm : List DeclarativeConfig) (s s' : Scan)
      → filter_object sv pkg (schema_of obj.schema) obj s ≡ ok s'
      → filter_objects sv pkg (obj ∷ olm) s ≡ filter_objects sv pkg olm s'
  unfolding filter_objects
  filter_objects-cons pkg obj olm s s' e = rw e refl

  filter-AllFrom :
      (pkg : IscPackage) (all olm : List DeclarativeConfig) (s : Scan)
      → ((obj : DeclarativeConfig) → Memᴰ obj olm → Memᴰ obj all)
      → All HasEntries olm
      → AllFrom all s.related_images
      → (s' : Scan) × (filter_objects sv pkg olm s ≡ ok s') × AllFrom all s'.related_images
  filter-AllFrom pkg all [] s sub h a = (s, (unfold filter_objects in refl), a)
  filter-AllFrom pkg all (obj ∷ olm) s sub (h, hs) a =
      let (s1, e, adds) = filter-Adds pkg (schema_of obj.schema) obj s h in
      let a1 = Adds-AllFrom all obj s s1 (sub obj (Memᴰ.head refl)) adds a in
      let (s', e', a') = filter-AllFrom pkg all olm s1 (λ o i. sub o (Memᴰ.tail i)) hs a1 in
      (s', filter_objects-cons pkg obj olm s s1 e ∙ e', a')

  none-AllFrom : (olm : List DeclarativeConfig) → AllFrom olm []
  unfolding lookup
  none-AllFrom olm k images e = absurd (ground (arith, e))

  by_filter-ok :
      (pkg : IscPackage) (olm : List DeclarativeConfig) (s : Scan)
      → filter_objects sv pkg olm (no_scan sv) ≡ ok s
      → get_related_image_by_filter sv pkg olm ≡ ok s.related_images
  unfolding get_related_image_by_filter
  by_filter-ok pkg olm s e = rw e refl

  -- For a catalog each of whose channels has an entry, `getRelatedImageByFilter` returns without an
  -- error or a panic, whatever the package asks for and whatever the names of the entries are; the
  -- images that it returns under a name are those of a bundle of the catalog with that name.
  pub get_related_image_by_filter-FromBundle :
      (pkg : IscPackage) (olm : List DeclarativeConfig)
      → All HasEntries olm
      → (m : Map Str (List RelatedImage)) × (get_related_image_by_filter sv pkg olm ≡ ok m)
        × ((k : Str) (images : List RelatedImage)
            → lookup k m ≡ some images
            → FromBundle olm k images)
  get_related_image_by_filter-FromBundle pkg olm h =
      let (s, e, a) = filter-AllFrom pkg olm olm (no_scan sv) (λ o i. i) h (none-AllFrom olm) in
      (s.related_images, by_filter-ok pkg olm s e, a)

  -- The debug message reads the first entry.
  first_entry : (es : List ChannelEntry) → es ≢ [] → (e : ChannelEntry) × (index es 0 ≡ ok e)
  unfolding index
  first_entry [] h = absurd (h refl)
  first_entry (e ∷ es) h = (e, refl)

  default-Adds :
      (sch : Schema) (obj : DeclarativeConfig) (s : Scan)
      → (sch ≡ channel_object → obj.entries ≢ [])
      → Adds sch obj s (default_object sv sch obj s)
  unfolding default_object keep_bundle
  default-Adds channel_object obj s h = elim (Bool-cases (s.default_channel == obj.name)) [
    | inl e ↦
        let (s', e', same) = mark_max-Adds obj s (h refl) in
        let (first, e1) = first_entry obj.entries (h refl) in (s', rw (e, e1) e', inl same)
    | inr e ↦ (s, rw e refl, inl refl)
  ]
  default-Adds bundle_object obj s h =
      elim (has obj.name s.bundles)
        as (λ b. Adds bundle_object obj s (ok (if b then keep_bundle sv obj s else s))) [
          | true ↦ (keep_bundle sv obj s, refl, inr (refl, refl))
          | false ↦ (s, refl, inl refl)
        ]
  default-Adds package_object obj s h =
      (record s { default_channel = obj.default_channel }, refl, inl refl)
  default-Adds other_object obj s h = (s, refl, inl refl)

  default_objects-cons :
      (obj : DeclarativeConfig) (olm : List DeclarativeConfig) (s s' : Scan)
      → default_object sv (schema_of obj.schema) obj s ≡ ok s'
      → default_objects sv (obj ∷ olm) s ≡ default_objects sv olm s'
  unfolding default_objects
  default_objects-cons obj olm s s' e = rw e refl

  default-AllFrom :
      (all olm : List DeclarativeConfig) (s : Scan)
      → ((obj : DeclarativeConfig) → Memᴰ obj olm → Memᴰ obj all)
      → All HasEntries olm
      → AllFrom all s.related_images
      → (s' : Scan) × (default_objects sv olm s ≡ ok s') × AllFrom all s'.related_images
  default-AllFrom all [] s sub h a = (s, (unfold default_objects in refl), a)
  default-AllFrom all (obj ∷ olm) s sub (h, hs) a =
      let (s1, e, adds) = default-Adds (schema_of obj.schema) obj s h in
      let a1 = Adds-AllFrom all obj s s1 (sub obj (Memᴰ.head refl)) adds a in
      let (s', e', a') = default-AllFrom all olm s1 (λ o i. sub o (Memᴰ.tail i)) hs a1 in
      (s', default_objects-cons obj olm s s1 e ∙ e', a')

  by_default-ok :
      (olm : List DeclarativeConfig) (s : Scan)
      → default_objects sv olm (no_scan sv) ≡ ok s
      → get_related_image_by_default_channel sv olm ≡ ok s.related_images
  unfolding get_related_image_by_default_channel
  by_default-ok olm s e = rw e refl

  -- For a catalog each of whose channels has an entry, `getRelatedImageByDefaultChannel` returns
  -- without an error or a panic, and the images that it returns under a name are those of a bundle
  -- of the catalog with that name.
  pub get_related_image_by_default_channel-FromBundle :
      (olm : List DeclarativeConfig)
      → All HasEntries olm
      → (m : Map Str (List RelatedImage)) × (get_related_image_by_default_channel sv olm ≡ ok m)
        × ((k : Str) (images : List RelatedImage)
            → lookup k m ≡ some images
            → FromBundle olm k images)
  get_related_image_by_default_channel-FromBundle olm h =
      let (s, e, a) = default-AllFrom olm olm (no_scan sv) (λ o i. i) h (none-AllFrom olm) in
      (s.related_images, by_default-ok olm s e, a)
