-- ===== src/Release/Downloads/Shared.antt =====
-- The one client that `GetReleaseReferenceImages` uses for all channels and architectures.
use golang_fb_mirror.Base.{
  ℕ, ◌≡◌, refl, sym, ap, ◌∙◌, inl, inr, Bool, true, false, ◌&&◌, not, Option, List, [], ◌∷◌, ◌++◌,
  List_eq, ℕ_eq, Result, ok, err, panic, out_of_fuel, Result-cases, is_value, is_error, is_panic,
  is_out_of_fuel, Error, Bool-cases, arith, All, Memᴰ-cons,
}
use mathlib.Core.List.{Memᴰ}
use mathlib.Core.List.Memᴰ
use golang_fb_mirror.Base.Text.{Str}
use golang_fb_mirror.Base.Maps.{put}
use golang_fb_mirror.Semver.{Semver}
use golang_fb_mirror.Api.{ReleaseChannel, PlatformConfig}
use golang_fb_mirror.Batch.{CopyImage}
use golang_fb_mirror.Release.Client.{Client, Upstream, M, continue}
use golang_fb_mirror.Release.Client.Queries.{Call, set_all}
use golang_fb_mirror.Release.Client.Asking.{Made, Made-trans, Asks, AsksFirst, Asks-lift, Asks-bind}
use golang_fb_mirror.Release.Channels.{VersionFilter}
use golang_fb_mirror.Release.Downloads.{
  fill_bounds, client_fails, one_channel, all_channels, all_architectures,
  get_release_reference_images, Progress, update_channels, cross_channels,
}
use golang_fb_mirror.Release.Downloads.Filling.{
  needs_bound, fill_bounds-Asks, fill_bounds-AsksFirst, add_downloads-Asks,
}

-- An action that goes on with a value has been given one.
continued_ok {ℓ κ} :
    {A : Type ℓ} {B : Type κ} (r : Result A) (f : A → M B) (c : Client) (b : B)
    → (continue r f c).0 ≡ ok b
    → (a : A) × (r ≡ ok a) × (continue r f c ≡ f a c)
continued_ok (ok a) f c b h = (a, refl, refl)
continued_ok (err e) f c b h = absurd (ground (arith, h))
continued_ok panic f c b h = absurd (ground (arith, h))
continued_ok out_of_fuel f c b h = absurd (ground (arith, h))

module _ (sv : Semver) (up : Upstream sv) (vf : VersionFilter)
    (parse_range : Str → Option (sv.Version → Bool)) (new_ocp_client : Option Client) (fails : Bool)
    (fuel : ℕ) where
  abbrev Loop : Type 0
  Loop = Progress sv up vf parse_range new_ocp_client fails fuel

  abbrev one : Str → ReleaseChannel → Loop → M Loop
  one = one_channel sv up vf parse_range new_ocp_client fails fuel

  abbrev fill : Str → ReleaseChannel → M ReleaseChannel
  fill = fill_bounds sv up vf parse_range new_ocp_client fails fuel

  -- The server is asked for a bound of the channel.
  abbrev pub is_asked_for : ReleaseChannel → Bool
  is_asked_for ch =
      needs_bound ch
      && not (client_fails sv up vf parse_range new_ocp_client fails fuel ch.platform_type)

  -- Filling the bounds makes the calls; the rest of a round adds some.
  after_fill :
      (arch : Str) (ch : ReleaseChannel) (p : Loop) (c : Client) (calls : List Call)
      → client_fails sv up vf parse_range new_ocp_client fails fuel ch.platform_type ≡ false
      → Made calls c (fill arch ch c).1
      → (more : List Call) × Made (calls ++ more) c (one arch ch p c).1
  unfolding one_channel
  after_fill arch ch (versions, images, errors) c calls h m =
      elim (Result-cases (fill arch ch c).0) [
        | is_error x e ↦ ([], rw (one_channel, h, e) (only calls (fill arch ch c).1 m))
        | is_panic e ↦ ([], rw (one_channel, h, e) (only calls (fill arch ch c).1 m))
        | is_out_of_fuel e ↦ ([], rw (one_channel, h, e) (only calls (fill arch ch c).1 m))
        | is_value ch' e ↦
            let (more, k) =
              (add_downloads-Asks sv up vf parse_range new_ocp_client fails fuel arch ch'
                  (put ch.name ch' versions, images, errors)).asked
                (fill arch ch c).1 in
            (more, rw (one_channel, h, e) (Made-trans calls more c (fill arch ch c).1 _ m k))
      ]
    where
      only : (calls : List Call) (c' : Client) → Made calls c c' → Made (calls ++ []) c c'
      only calls c' m = Made-trans calls [] c c' c' m refl

  one-Asks : (arch : Str) (ch : ReleaseChannel) (p : Loop) → Asks (one arch ch p)
  unfolding one_channel
  one-Asks arch ch (versions, images, errors) = record {
    asked = λ c.
        elim (Bool-cases
          (client_fails sv up vf parse_range new_ocp_client fails fuel ch.platform_type)) [
            | inl f ↦ ([], rw (one_channel, f) refl)
            | inr f ↦
                let (calls, m) =
                  (fill_bounds-Asks sv up vf parse_range new_ocp_client fails fuel arch ch).asked
                    c in
                let (more, k) = after_fill arch ch (versions, images, errors) c calls f m in
                (calls ++ more, k)
          ];
  }

  one-AsksFirst :
      (arch : Str) (ch : ReleaseChannel) (p : Loop)
      → is_asked_for ch ≡ true
      → AsksFirst (arch, ch.name, []) (one arch ch p)
  one-AsksFirst arch ch p h = record {
    asked_first = λ c.
        let (calls, m) =
          (fill_bounds-AsksFirst sv up vf parse_range new_ocp_client fails fuel arch ch
              (ground (arith, h))).asked_first
            c in
        let (more, k) =
          after_fill arch ch p c ((arch, ch.name, []) ∷ calls) (ground (arith, h)) m in
        (calls ++ more, k);
  }

  -- Each channel that lacks a bound is asked for, among the calls.
  abbrev pub AreAsked : Str → List Call → List ReleaseChannel → Type 0
  AreAsked arch calls channels =
      All (λ (ch : ReleaseChannel). is_asked_for ch ≡ true → Memᴰ (arch, ch.name, []) calls)
        channels

  AreAsked-map :
      (arch : Str) (calls calls' : List Call) (channels : List ReleaseChannel)
      → ((call : Call) → Memᴰ call calls → Memᴰ call calls')
      → AreAsked arch calls channels
      → AreAsked arch calls' channels
  AreAsked-map arch calls calls' [] k h = tt
  AreAsked-map arch calls calls' (ch ∷ channels) k (a, h) =
      ((λ q. k (arch, ch.name, []) (a q)), AreAsked-map arch calls calls' channels k h)

  one-calls :
      (arch : Str) (ch : ReleaseChannel) (p : Loop) (c : Client)
      → (calls : List Call) × Made calls c (one arch ch p c).1
        × (is_asked_for ch ≡ true → Memᴰ (arch, ch.name, []) calls)
  one-calls arch ch p c = elim (Bool-cases (is_asked_for ch)) [
    | inl h ↦
        let (calls, m) = (one-AsksFirst arch ch p h).asked_first c in
        ((arch, ch.name, []) ∷ calls, m, λ _. (Memᴰ-cons (arch, ch.name, []) _ calls).1 (inl refl))
    | inr h ↦
        let (calls, m) = (one-Asks arch ch p).asked c in
        (calls, m, λ q. absurd (ground (arith, q, h)))
  ]

  all_channels-AreAsked :
      (arch : Str) (channels : List ReleaseChannel) (p r : Loop) (c : Client)
      → (all_channels sv up vf parse_range new_ocp_client fails fuel arch channels p c).0 ≡ ok r
      → (calls : List Call) × Made calls c
          (all_channels sv up vf parse_range new_ocp_client fails fuel arch channels p c).1
        × AreAsked arch calls channels
  unfolding all_channels
  all_channels-AreAsked arch [] p r c h = ([], refl, tt)
  all_channels-AreAsked arch (ch ∷ channels) p r c h =
      let (p', o, e) =
        continued_ok (one arch ch p c).0
          (λ p'. all_channels sv up vf parse_range new_ocp_client fails fuel arch channels p')
          (one arch ch p c).1 r h in
      let (calls, m, k) = one-calls arch ch p c in
      let (more, m', a) =
        all_channels-AreAsked arch channels p' r (one arch ch p c).1 (ap (λ x. x.0) (sym e) ∙ h) in
      (
        calls ++ more,
        ap (λ x. x.1) e ∙ Made-trans calls more c (one arch ch p c).1 _ m m',
        (
          (λ q. Memᴰ.append_left more (k q)),
          AreAsked-map arch more (calls ++ more) channels (λ call i. Memᴰ.append_right calls i) a,
        ),
      )

  all_channels-Asks :
      (arch : Str) (channels : List ReleaseChannel) (p : Loop)
      → Asks (all_channels sv up vf parse_range new_ocp_client fails fuel arch channels p)
  unfolding all_channels
  all_channels-Asks arch [] p = Asks-lift (ok p)
  all_channels-Asks arch (ch ∷ channels) p =
      Asks-bind _ _ (one-Asks arch ch p) (λ p'. all_channels-Asks arch channels p')

  all_architectures-Asks :
      (archs : List Str) (channels : List ReleaseChannel) (r : List CopyImage × List Error)
      → Asks (all_architectures sv up vf parse_range new_ocp_client fails fuel archs channels r)
  unfolding all_architectures
  all_architectures-Asks [] channels (images, errors) = Asks-lift (ok (images, errors))
  all_architectures-Asks (arch ∷ archs) channels (images, errors) =
      Asks-bind _ _ (all_channels-Asks arch channels ([], images, errors)) (λ p.
        let channels' = update_channels p.0 channels in
        Asks-bind _ _
          (Asks-lift (
            cross_channels sv up vf parse_range new_ocp_client fails fuel arch channels'
              (p.1, p.2)))
          (λ r. all_architectures-Asks archs channels' r))

  architectures-AreAsked :
      (arch : Str) (archs : List Str) (channels : List ReleaseChannel)
      (r : List CopyImage × List Error) (c : Client)
      → (all_architectures sv up vf parse_range new_ocp_client fails fuel
          (arch ∷ archs)
          channels
          ([], [])
          c).0
        ≡ ok r
      → (calls : List Call) × Made calls c
          (all_architectures sv up vf parse_range new_ocp_client fails fuel
            (arch ∷ archs)
            channels
            ([], [])
            c).1
        × AreAsked arch calls channels
  unfolding all_architectures
  architectures-AreAsked arch archs channels r c h =
      let m =
        all_channels sv up vf parse_range new_ocp_client fails fuel arch channels ([], [], []) in
      let (p, o, e) = continued_ok (m c).0 _ (m c).1 r h in
      let (calls, k, a) = all_channels-AreAsked arch channels ([], [], []) p c o in
      let channels' = update_channels p.0 channels in
      let (more, k') =
        (Asks-bind _ _
            (Asks-lift (
              cross_channels sv up vf parse_range new_ocp_client fails fuel arch channels'
                (p.1, p.2)))
            (λ r. all_architectures-Asks archs channels' r)).asked
          (m c).1 in
      (
        calls ++ more,
        ap (λ x. x.1) e ∙ Made-trans calls more c (m c).1 _ k k',
        AreAsked-map arch calls (calls ++ more) channels (λ call i. Memᴰ.append_left more i) a,
      )

  -- If `GetReleaseReferenceImages` returns, for a configuration with an architecture, there is one
  -- sequence of calls of `SetQueryParams` that makes its client at the end out of its client at the
  -- start; and the sequence has, for the first architecture, a call for each channel that lacks a
  -- bound and whose client does not fail.
  pub get_release_reference_images-AreAsked :
      (p : PlatformConfig) (arch : Str) (archs : List Str) (c : Client)
      (r : List CopyImage × List Error)
      → p.architectures ≡ arch ∷ archs
      → (get_release_reference_images sv up vf parse_range new_ocp_client fails fuel p c).0 ≡ ok r
      → (calls : List Call) × ((get_release_reference_images sv up vf parse_range new_ocp_client
            fails fuel p c).1
          ≡ set_all calls c)
        × AreAsked arch calls p.channels
  unfolding get_release_reference_images
  get_release_reference_images-AreAsked p arch archs c r e h =
      let run : List Str → Result (List CopyImage × List Error) × Client = λ list.
        all_architectures sv up vf parse_range new_ocp_client fails fuel list p.channels ([], [])
          c in
      let (calls, m, a) =
        architectures-AreAsked arch archs p.channels r c (ap (λ list. (run list).0) (sym e) ∙ h) in
      (calls, ap (λ list. (run list).1) e ∙ m, a)
