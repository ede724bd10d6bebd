-- ===== src/Release/Downloads.antt =====
-- The release images of a configuration (pkg/release/cincinnati.go). The signatures are fetched by
-- another object behind the interface `SignatureInterface`, and do not stand here.
pub mod Filling
pub mod Shared
use golang_fb_mirror.Base.{
  ℕ, Bool, true, false, ◌&&◌, ◌||◌, Option, none, some, List, [], ◌∷◌, ◌++◌, map, ◌==◌, List_eq,
  ℕ_eq, if◌then◌else◌, length, ltb, Result, Error, ok, err, panic, out_of_fuel, foreign,
}
use golang_fb_mirror.Base.Text.{Str, codes}
use golang_fb_mirror.Base.Maps.{Map, lookup, put}
use golang_fb_mirror.Semver.{Semver}
use golang_fb_mirror.Api.{ReleaseChannel, PlatformConfig, is_channel_heads_only}
use golang_fb_mirror.Batch.{CopyImage}
use golang_fb_mirror.Release.Graph.{Update}
use golang_fb_mirror.Release.Client.{Platform, ocp, okd, Client, Upstream, M, ◌>>=◌, lift}
use golang_fb_mirror.Release.Channels.{VersionFilter, get_channel_min_or_max, get_updates_in_range}
use golang_fb_mirror.Release.Upgrades.{calculate_upgrades, no_update}
use golang_fb_mirror.Release.Find.{find_release}

abbrev pub source_only : Str → CopyImage
source_only image = record { source = image; destination = [] }

-- `if u.Image != "" { … }`
abbrev pub image_of : Str → List CopyImage
image_of image = if image == [] then [] else source_only image ∷ []

-- The channels of type OCP
unfoldable pub ocp_channels : List ReleaseChannel → List ReleaseChannel
ocp_channels [] = []
ocp_channels (ch ∷ channels) = elim ch.platform_type [
  | ocp ↦ ch ∷ ocp_channels channels
  | okd ↦ ocp_channels channels
]

-- The channels of the configuration with those of `versionsByChannel` in their place
unfoldable pub update_channels : Map Str ReleaseChannel → List ReleaseChannel → List ReleaseChannel
unfolding lookup
update_channels versions [] = []
update_channels versions (ch ∷ channels) =
    (elim (lookup ch.name versions) [ none ↦ ch | some c ↦ c ]) ∷ update_channels versions channels

module _ (sv : Semver) where
  open sv use {Version, parse, to_string}

  -- `gatherUpdates`
  unfoldable pub gather_updates : Update sv → Update sv → List (Update sv) → List CopyImage
  gather_updates current newest updates =
      map (λ (u : Update sv). source_only u.image) updates
      ++ (image_of current.image ++ image_of newest.image)

  abbrev pub parse_or_fail : Str → Result Version
  parse_or_fail s = elim (parse s) [ none ↦ err (foreign 5) | some v ↦ ok v ]

  -- What the program gets from elsewhere: the server, the environment, `semver.ParseRange`, and the
  -- client that `NewOCPClient` of pkg/release/client.go makes, whose URL or TLS set-up may fail.
  -- `fails` is the field `Fail`. The field `Client` is the state of `M`: one client for all
  -- channels and architectures, whose query grows. The fuel is for the channels between two minor
  -- versions.
  module _ (up : Upstream sv) (vf : VersionFilter) (parse_range : Str → Option (Version → Bool))
      (new_ocp_client : Option Client) (fails : Bool) (fuel : ℕ) where
    -- The range between the two bounds of a channel
    unfoldable pub range_of : Version → Version → Result (Version → Bool)
    range_of first last = elim (parse_range (codes ">=" ++ to_string first)) [
      | none ↦ err (foreign 6)
      | some low ↦ elim (parse_range (codes "<=" ++ to_string last)) [
        | none ↦ err (foreign 6)
        | some high ↦ ok (λ v. high v && low v)
      ]
    ]

    -- `getChannelDownloads`
    unfoldable pub get_channel_downloads : ReleaseChannel → Str → M (List CopyImage)
    unfolding calculate_upgrades get_updates_in_range gather_updates range_of
    get_channel_downloads channel arch = lift (parse_or_fail channel.min_version) >>= λ first.
        lift (parse_or_fail channel.max_version) >>= λ last.
        if channel.shortest_path
        then (calculate_upgrades sv up vf arch channel.name last fuel channel.name first
            >>= λ found. lift (ok (gather_updates found.0 found.1 found.2)))
        else (lift (range_of first last) >>= λ range.
            get_updates_in_range sv up channel.name arch range >>= λ versions.
            lift (ok (gather_updates (no_update sv) (no_update sv) versions)))

    -- `getCrossChannelDownloads`
    unfoldable pub get_cross_channel_downloads : Str → List ReleaseChannel → M (List CopyImage)
    unfolding ocp_channels find_release calculate_upgrades gather_updates
    get_cross_channel_downloads arch channels = elim (ocp_channels channels) [
      | [] ↦ lift (ok [])
      | ch ∷ chs ↦ lift (find_release sv (ch ∷ chs) true) >>= λ first.
          lift (find_release sv (ch ∷ chs) false) >>= λ last.
          calculate_upgrades sv up vf arch last.0 last.1 fuel first.0 first.1 >>= λ found.
          lift (ok (gather_updates found.0 found.1 found.2))
    ]

    -- The largest version of the channel for a missing upper bound, and for a missing lower bound
    -- too where only the head is wanted.
    unfoldable pub fill_max : Str → ReleaseChannel → M ReleaseChannel
    unfolding get_channel_min_or_max is_channel_heads_only
    fill_max arch ch =
        if ch.max_version == []
        then (get_channel_min_or_max sv up vf arch ch.name false >>= λ latest. lift (
            ok (
              if (ch.min_version == []) && is_channel_heads_only ch
              then record ch { max_version = to_string latest; min_version = to_string latest }
              else record ch { max_version = to_string latest })))
        else lift (ok ch)

    -- The smallest version for a lower bound that is still missing.
    unfoldable pub fill_min : Str → ReleaseChannel → M ReleaseChannel
    unfolding get_channel_min_or_max
    fill_min arch ch =
        if ch.min_version == []
        then (get_channel_min_or_max sv up vf arch ch.name true >>= λ first.
            lift (ok (record ch { min_version = to_string first })))
        else lift (ok ch)

    unfoldable pub fill_bounds : Str → ReleaseChannel → M ReleaseChannel
    unfolding fill_max fill_min
    fill_bounds arch ch =
        if (ch.max_version == []) || (ch.min_version == [])
        then (fill_max arch ch >>= λ ch'. fill_min arch ch')
        else lift (ok (record ch { full = true }))

    -- `versionsByChannel`, `allImages` and `errs`
    abbrev pub Progress : Type 0
    Progress = Map Str ReleaseChannel × List CopyImage × List Error

    -- The error of the methods `NewOCPClient` and `NewOKDClient`, which both return the client of
    -- the object
    unfoldable pub client_fails : Platform → Bool
    client_fails ocp = fails
    client_fails okd = false

    -- The downloads of a channel whose bounds are filled
    unfoldable pub add_downloads : Str → ReleaseChannel → Progress → M Progress
    unfolding get_channel_downloads
    add_downloads arch ch (versions, images, errors) client =
        let (downloads, client') = get_channel_downloads ch arch client in
        elim downloads [
          | err e ↦ (ok (versions, images, errors ++ e ∷ []), client')
          | panic ↦ (panic, client')
          | out_of_fuel ↦ (out_of_fuel, client')
          | ok found ↦ (ok (versions, images ++ found, errors), client')
        ]

    -- One channel of the loop of `GetReleaseReferenceImages`. An error of the client is recorded
    -- twice.
    unfoldable pub one_channel : Str → ReleaseChannel → Progress → M Progress
    unfolding client_fails fill_bounds add_downloads put
    one_channel arch ch (versions, images, errors) client =
        if client_fails ch.platform_type
        then (ok (versions, images, errors ++ foreign 7 ∷ foreign 7 ∷ []), client)
        else (let (filled, client') = fill_bounds arch ch client in
            elim filled [
              | err e ↦ (ok (versions, images, errors ++ e ∷ []), client')
              | panic ↦ (panic, client')
              | out_of_fuel ↦ (out_of_fuel, client')
              | ok ch' ↦ add_downloads arch ch' (put ch.name ch' versions, images, errors) client'
            ])

    unfoldable pub all_channels : Str → List ReleaseChannel → Progress → M Progress
    unfolding one_channel
    all_channels arch [] p = lift (ok p)
    all_channels arch (ch ∷ channels) p =
        one_channel arch ch p >>= λ p'. all_channels arch channels p'

    -- The downloads across the channels, if there are several, with a client of their own.
    unfoldable pub cross_channels :
        Str
        → List ReleaseChannel
        → List CopyImage × List Error
        → Result (List CopyImage × List Error)
    unfolding get_cross_channel_downloads
    cross_channels arch channels (images, errors) =
        if ltb 1 (length channels)
        then elim new_ocp_client [
          | none ↦ ok (images, errors ++ foreign 7 ∷ [])
          | some client ↦
              let (downloads, _) = get_cross_channel_downloads arch channels client in
              elim downloads [
                | err e ↦ ok (images, errors ++ e ∷ [])
                | panic ↦ panic
                | out_of_fuel ↦ out_of_fuel
                | ok found ↦ ok (images ++ found, errors)
              ]
        ]
        else ok (images, errors)

    -- The loop over the architectures; the channels of the configuration are changed on the way.
    unfoldable pub all_architectures :
        List Str
        → List ReleaseChannel
        → List CopyImage × List Error
        → M (List CopyImage × List Error)
    unfolding all_channels update_channels cross_channels
    all_architectures [] channels (images, errors) = lift (ok (images, errors))
    all_architectures (arch ∷ archs) channels (images, errors) =
        all_channels arch channels ([], images, errors) >>= λ p.
        let channels' = update_channels p.0 channels in
        lift (cross_channels arch channels' (p.1, p.2)) >>= λ r. all_architectures archs channels' r

    -- `GetReleaseReferenceImages` up to the signatures: the images and the errors it logs.
    unfoldable pub get_release_reference_images : PlatformConfig → M (List CopyImage × List Error)
    unfolding all_architectures
    get_release_reference_images p = all_architectures p.architectures p.channels ([], [])
