-- ===== src/Release/Downloads/Filling.antt =====
-- The queries for the bounds of a channel, and for its downloads.
use golang_fb_mirror.Base.{
  ℕ, ◌≡◌, inl, inr, Bool, true, false, ◌||◌, Option, [], ◌==◌, List_eq, ℕ_eq, Result-cases,
  is_value, is_error, is_panic, is_out_of_fuel, Bool-cases, arith,
}
use golang_fb_mirror.Base.Text.{Str}
use golang_fb_mirror.Semver.{Semver}
use golang_fb_mirror.Api.{ReleaseChannel}
use golang_fb_mirror.Release.Client.{Client, Upstream}
use golang_fb_mirror.Release.Client.Asking.{
  Asks, AsksFirst, Asks-lift, Asks-if, Asks-bind, AsksFirst-bind, AsksFirst-Asks,
}
use golang_fb_mirror.Release.Channels.{VersionFilter}
use golang_fb_mirror.Release.Downloads.{
  get_channel_downloads, fill_max, fill_min, fill_bounds, add_downloads, Progress, parse_or_fail,
  range_of,
}
use golang_fb_mirror.Release.Upgrades.Asking.{upgrades-Asks, min_or_max-AsksFirst, range-Asks}

-- A bound of the channel is missing.
abbrev pub needs_bound : ReleaseChannel → Bool
needs_bound ch = (ch.max_version == []) || (ch.min_version == [])

module _ (sv : Semver) (up : Upstream sv) (vf : VersionFilter)
    (parse_range : Str → Option (sv.Version → Bool)) (new_ocp_client : Option Client) (fails : Bool)
    (fuel : ℕ) where
  downloads-Asks :
      (ch : ReleaseChannel) (arch : Str)
      → Asks (get_channel_downloads sv up vf parse_range new_ocp_client fails fuel ch arch)
  unfolding get_channel_downloads
  downloads-Asks ch arch = Asks-bind _ _ (Asks-lift (parse_or_fail sv ch.min_version)) (λ first.
      Asks-bind _ _ (Asks-lift (parse_or_fail sv ch.max_version)) (λ last.
        Asks-if ch.shortest_path _ _
          (Asks-bind _ _ (upgrades-Asks sv up vf arch ch.name last fuel ch.name first)
            (λ found. Asks-lift _))
          (Asks-bind _ _
            (Asks-lift (range_of sv up vf parse_range new_ocp_client fails fuel first last))
            (λ range.
              Asks-bind _ _ (range-Asks sv up ch.name arch range) (λ versions. Asks-lift _)))))

  fill_max-AsksFirst :
      (arch : Str) (ch : ReleaseChannel)
      → (ch.max_version == []) ≡ true
      → AsksFirst
          (arch, ch.name, [])
          (fill_max sv up vf parse_range new_ocp_client fails fuel arch ch)
  unfolding fill_max
  fill_max-AsksFirst arch ch h =
      rw (fill_max, h)
        (AsksFirst-bind _ _ _ (min_or_max-AsksFirst sv up vf arch ch.name false) (λ v. Asks-lift _))

  fill_min-AsksFirst :
      (arch : Str) (ch : ReleaseChannel)
      → (ch.min_version == []) ≡ true
      → AsksFirst
          (arch, ch.name, [])
          (fill_min sv up vf parse_range new_ocp_client fails fuel arch ch)
  unfolding fill_min
  fill_min-AsksFirst arch ch h =
      rw (fill_min, h)
        (AsksFirst-bind _ _ _ (min_or_max-AsksFirst sv up vf arch ch.name true) (λ v. Asks-lift _))

  fill_max-Asks :
      (arch : Str) (ch : ReleaseChannel)
      → Asks (fill_max sv up vf parse_range new_ocp_client fails fuel arch ch)
  unfolding fill_max
  fill_max-Asks arch ch =
      Asks-if (ch.max_version == []) _ _
        (Asks-bind _ _ (AsksFirst-Asks _ _ (min_or_max-AsksFirst sv up vf arch ch.name false))
          (λ v. Asks-lift _))
        (Asks-lift _)

  fill_min-Asks :
      (arch : Str) (ch : ReleaseChannel)
      → Asks (fill_min sv up vf parse_range new_ocp_client fails fuel arch ch)
  unfolding fill_min
  fill_min-Asks arch ch =
      Asks-if (ch.min_version == []) _ _
        (Asks-bind _ _ (AsksFirst-Asks _ _ (min_or_max-AsksFirst sv up vf arch ch.name true))
          (λ v. Asks-lift _))
        (Asks-lift _)

  pub fill_bounds-Asks :
      (arch : Str) (ch : ReleaseChannel)
      → Asks (fill_bounds sv up vf parse_range new_ocp_client fails fuel arch ch)
  unfolding fill_bounds
  fill_bounds-Asks arch ch =
      Asks-if (needs_bound ch) _ _
        (Asks-bind _ _ (fill_max-Asks arch ch) (λ ch'. fill_min-Asks arch ch')) (Asks-lift _)

  pub fill_bounds-AsksFirst :
      (arch : Str) (ch : ReleaseChannel)
      → needs_bound ch ≡ true
      → AsksFirst
          (arch, ch.name, [])
          (fill_bounds sv up vf parse_range new_ocp_client fails fuel arch ch)
  unfolding fill_bounds
  fill_bounds-AsksFirst arch ch h = elim (Bool-cases (ch.max_version == [])) [
    | inl m ↦
        rw (fill_bounds, h)
          (AsksFirst-bind _ _ _ (fill_max-AsksFirst arch ch m) (λ ch'. fill_min-Asks arch ch'))
    | inr m ↦
        rw (fill_bounds, h)
          (unfold fill_max in rw (fill_max, m) (fill_min-AsksFirst arch ch (ground (arith, h, m))))
  ]

  pub add_downloads-Asks :
      (arch : Str) (ch : ReleaseChannel)
      (p : Progress sv up vf parse_range new_ocp_client fails fuel)
      → Asks (add_downloads sv up vf parse_range new_ocp_client fails fuel arch ch p)
  unfolding add_downloads
  add_downloads-Asks arch ch (versions, images, errors) =
      let m = get_channel_downloads sv up vf parse_range new_ocp_client fails fuel ch arch in
      let h = downloads-Asks ch arch in
      record {
        asked = λ c. elim (Result-cases (m c).0) [
          | is_value a e ↦ rw (add_downloads, e) (h.asked c)
          | is_error x e ↦ rw (add_downloads, e) (h.asked c)
          | is_panic e ↦ rw (add_downloads, e) (h.asked c)
          | is_out_of_fuel e ↦ rw (add_downloads, e) (h.asked c)
        ];
      }
