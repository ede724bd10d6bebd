-- ===== src/Release/Upgrades/Asking.antt =====
-- The queries of `CalculateUpgrades` and of what it calls.
use golang_fb_mirror.Base.{
  ℕ, zero, suc, Bool, false, [], ◌==◌, List_eq, ℕ_eq, Result-cases, is_value, is_error, is_panic,
  is_out_of_fuel,
}
use golang_fb_mirror.Base.Text.{Str}
use golang_fb_mirror.Semver.{Semver, eq_version}
use golang_fb_mirror.Release.Client.{Upstream, M, query_graph}
use golang_fb_mirror.Release.Client.Asking.{
  Asks, AsksFirst, Asks-lift, Asks-if, Asks-bind, AsksFirst-bind, AsksFirst-Asks,
  query_graph-AsksFirst,
}
use golang_fb_mirror.Release.Updates.{get_updates}
use golang_fb_mirror.Release.Channels.{
  VersionFilter, get_channel_min_or_max, get_versions, get_updates_in_range, handle_blocked_edges,
}
use golang_fb_mirror.Release.Upgrades.{in_channel, next_step, calculate, calculate_upgrades}

in_channel-Asks {ℓ} : {A : Type ℓ} (m : M A) → Asks m → Asks (in_channel m)
unfolding in_channel
in_channel-Asks m h = record {
  asked = λ c. elim (Result-cases (m c).0) [
    | is_value a e ↦ rw (in_channel, e) (h.asked c)
    | is_error x e ↦ rw (in_channel, e) (h.asked c)
    | is_panic e ↦ rw (in_channel, e) (h.asked c)
    | is_out_of_fuel e ↦ rw (in_channel, e) (h.asked c)
  ];
}

module _ (sv : Semver) (up : Upstream sv) where
  pub min_or_max-AsksFirst :
      (vf : VersionFilter) (arch channel : Str) (min : Bool)
      → AsksFirst (arch, channel, []) (get_channel_min_or_max sv up vf arch channel min)
  unfolding get_channel_min_or_max
  min_or_max-AsksFirst vf arch channel min =
      AsksFirst-bind (arch, channel, []) (query_graph sv up arch channel []) _
        (query_graph-AsksFirst sv up arch channel []) (λ g. Asks-lift _)

  updates-Asks : (arch channel : Str) (v w : sv.Version) → Asks (get_updates sv up arch channel v w)
  unfolding get_updates
  updates-Asks arch channel v w =
      Asks-bind (query_graph sv up arch channel (sv.to_string v)) _
        (AsksFirst-Asks (arch, channel, sv.to_string v) _
          (query_graph-AsksFirst sv up arch channel (sv.to_string v)))
        (λ g. Asks-lift _)

  pub range-Asks :
      (channel arch : Str) (range : sv.Version → Bool)
      → Asks (get_updates_in_range sv up channel arch range)
  unfolding get_updates_in_range
  range-Asks channel arch range =
      Asks-bind (query_graph sv up arch channel []) _
        (AsksFirst-Asks (arch, channel, []) _ (query_graph-AsksFirst sv up arch channel []))
        (λ g. Asks-lift _)

  blocked-Asks :
      (arch channel : Str) (v : sv.Version) → Asks (handle_blocked_edges sv up arch channel v)
  unfolding handle_blocked_edges get_versions
  blocked-Asks arch channel v =
      Asks-bind (get_versions sv up arch channel) _
        (Asks-bind (query_graph sv up arch channel []) _
          (AsksFirst-Asks (arch, channel, []) _ (query_graph-AsksFirst sv up arch channel []))
          (λ g. Asks-lift _))
        (λ vs. Asks-lift _)

  module _ (vf : VersionFilter) (arch target : Str) (requested : sv.Version) where
    step-Asks :
        (prefix : Str) (v w : sv.Version)
        → Asks (next_step sv up vf arch target requested prefix v w)
    unfolding next_step
    step-Asks prefix v w = Asks-if (eq_version sv v w) _ _ (Asks-lift _) (
        Asks-bind _ _ (AsksFirst-Asks _ _ (min_or_max-AsksFirst vf arch _ false))
          (λ x. Asks-lift _))

    calculate-Asks :
        (fuel : ℕ) (channel : Str) (start : sv.Version)
        → Asks (calculate sv up vf arch target requested fuel channel start)
    unfolding calculate
    calculate-Asks zero channel start = Asks-lift _
    calculate-Asks (suc fuel) channel start = Asks-bind _ _ (Asks-lift _) (λ versions.
        Asks-bind _ _ (step-Asks _ _ _) (λ step.
          Asks-bind _ _ (blocked-Asks arch _ start) (λ blocked.
            Asks-if blocked _ _
              (Asks-bind _ _ (updates-Asks arch target _ _) (λ found. Asks-lift _))
              (Asks-bind _ _ (updates-Asks arch _ start _) (λ found.
                Asks-if step.2 _ _ (Asks-lift _)
                  (Asks-bind _ _ (calculate-Asks fuel _ _) (λ later. Asks-lift _)))))))

    pub upgrades-Asks :
        (fuel : ℕ) (channel : Str) (start : sv.Version)
        → Asks (calculate_upgrades sv up vf arch target requested fuel channel start)
    unfolding calculate_upgrades
    upgrades-Asks fuel channel start =
        Asks-if (channel == target) _ _ (updates-Asks arch target start requested) (
          Asks-bind _ _ (Asks-lift _) (λ versions.
            Asks-if (eq_version sv versions.0 versions.1) _ _
              (Asks-bind _ _ (blocked-Asks arch target start) (λ blocked.
                Asks-if blocked _ _ (updates-Asks arch target requested requested)
                  (updates-Asks arch target start requested)))
              (Asks-bind _ _
                (in_channel-Asks _
                  (AsksFirst-Asks _ _ (min_or_max-AsksFirst vf arch channel false)))
                (λ latest.
                  Asks-bind _ _ (in_channel-Asks _ (updates-Asks arch channel start latest))
                    (λ found.
                      Asks-bind _ _ (calculate-Asks fuel channel latest) (λ later. Asks-lift _))))))
