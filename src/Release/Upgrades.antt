-- ===== src/Release/Upgrades.antt =====
-- `CalculateUpgrades` (pkg/release/core-cincinnati.go): the updates from a version of one channel
-- to a version of another, through the channels between them.
pub mod Distinct
pub mod Asking
pub mod Steps
pub mod Rounds
use golang_fb_mirror.Base.{
  ℕ, zero, suc, ◌+◌, Bool, true, false, Option, none, some, List, [], ◌∷◌, ◌++◌, ◌==◌, List_eq,
  ℕ_eq, if◌then◌else◌, Result, ok, err, panic, out_of_fuel, invalid_channel_name, channel_info,
  foreign,
}
use golang_fb_mirror.Base.Text.{Str, codes}
use golang_fb_mirror.Semver.{Semver, eq_version}
use golang_fb_mirror.Release.Graph.{Node, Update}
use golang_fb_mirror.Release.Client
use golang_fb_mirror.Release.Client.{Upstream, M, ◌>>=◌, lift}
use golang_fb_mirror.Release.Updates.{get_updates}
use golang_fb_mirror.Release.Names.{get_semver_from_channels}
use golang_fb_mirror.Release.Channels.{VersionFilter, get_channel_min_or_max, handle_blocked_edges}

-- `fmt.Errorf(ChannelInfo, channel, err)`
unfoldable pub in_channel {ℓ} : {A : Type ℓ} → M A → M A
in_channel m c =
    let (r, c') = m c in
    elim r [
      | ok a ↦ (ok a, c')
      | err e ↦ (err (channel_info e), c')
      | panic ↦ (panic, c')
      | out_of_fuel ↦ (out_of_fuel, c')
    ]

-- Whether `seen[image]` is there.
unfoldable pub is_seen : Str → List Str → Bool
is_seen image [] = false
is_seen image (s ∷ seen) = if s == image then true else is_seen image seen

module _ (sv : Semver) where
  open sv use {Version, major, minor, with_minor}

  -- The loop that keeps the first upgrade of each image; `seen` is the map of that name.
  unfoldable pub keep_first : List Str → List (Update sv) → List (Update sv)
  unfolding is_seen
  keep_first seen [] = []
  keep_first seen (u ∷ us) = elim (is_seen u.image seen) [
    | true ↦ keep_first seen us
    | false ↦ u ∷ keep_first (u.image ∷ seen) us
  ]

  -- The zero value of `Update`
  abbrev pub no_update : Update sv
  no_update = record { version = sv.zero_version; image = []; metadata = [] }

  module _ (up : Upstream sv) (vf : VersionFilter) (arch : Str) (target_channel : Str)
      (requested : Version) where
    -- Where `calculate` goes next: the channel, the version to reach there, and whether it is the
    -- channel of the target.
    unfoldable pub next_step : Str → Version → Version → M (Str × Version × Bool)
    unfolding get_channel_min_or_max
    next_step prefix source target =
        let channel =
          prefix
          ++ (codes "-"
              ++ (sv.show_nat (major source) ++ (codes "." ++ sv.show_nat (minor source)))) in
        if eq_version sv source target
        then lift (ok (target_channel, requested, true))
        else get_channel_min_or_max sv up vf arch channel false >>= λ v.
            lift (ok (channel, v, false))

    -- `calculate`: from `start` of the source channel, one minor version after the other.
    unfoldable pub calculate : ℕ → Str → Version → M (Update sv × List (Update sv))
    unfolding get_semver_from_channels next_step handle_blocked_edges get_updates
    calculate zero source_channel start = lift out_of_fuel
    calculate (suc fuel) source_channel start =
        lift (get_semver_from_channels sv source_channel target_channel) >>= λ versions.
        let bumped = with_minor versions.0 (minor versions.0 + 1) in
        next_step versions.2 bumped versions.1 >>= λ step.
        handle_blocked_edges sv up arch step.0 start >>= λ blocked.
        if blocked
        then (get_updates sv up arch target_channel step.1 step.1 >>= λ found.
            lift (ok (found.1, [])))
        else (get_updates sv up arch step.0 start step.1 >>= λ found.
            if step.2
            then lift (ok (found.1, found.2))
            else (calculate fuel step.0 step.1 >>= λ later.
                lift (ok (later.0, found.2 ++ later.1))))

    -- `CalculateUpgrades`
    unfoldable pub calculate_upgrades :
        ℕ → Str → Version → M (Update sv × Update sv × List (Update sv))
    unfolding get_updates get_semver_from_channels handle_blocked_edges in_channel calculate
        keep_first get_channel_min_or_max
    calculate_upgrades fuel source_channel start =
        if source_channel == target_channel
        then get_updates sv up arch target_channel start requested
        else (lift (get_semver_from_channels sv source_channel target_channel) >>= λ versions.
            if eq_version sv versions.0 versions.1
            then (handle_blocked_edges sv up arch target_channel start >>= λ blocked.
                if blocked
                then get_updates sv up arch target_channel requested requested
                else get_updates sv up arch target_channel start requested)
            else (in_channel (get_channel_min_or_max sv up vf arch source_channel false)
                >>= λ latest.
                    in_channel (get_updates sv up arch source_channel start latest) >>= λ found.
                    calculate fuel source_channel latest >>= λ later.
                    lift (ok (found.0, later.0, keep_first [] (found.2 ++ later.1)))))
