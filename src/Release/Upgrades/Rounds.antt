-- ===== src/Release/Upgrades/Rounds.antt =====
-- How many rounds `calculate` makes: one for each minor version up to that of the target.
use golang_fb_mirror.Base.{
  ℕ, zero, suc, ◌+◌, ◌≤◌, ◌≡◌, refl, sym, ap, ◌∙◌, subst, Bool, true, false, List, [], ◌++◌, ℕ_eq,
  Result, ok, err, panic, out_of_fuel, Bool-cases, inl, inr, arith, if◌then◌else◌,
}
use golang_fb_mirror.Base.Text.{Str}
use golang_fb_mirror.Semver.{Semver, eq_version}
use golang_fb_mirror.Release.Graph.{Update}
use golang_fb_mirror.Release.Client.{Client, Upstream, M, continue, lift, ◌>>=◌}
use golang_fb_mirror.Release.Updates.{get_updates}
use golang_fb_mirror.Release.Names.{get_semver_from_channels}
use golang_fb_mirror.Release.Channels.{VersionFilter, get_channel_min_or_max, handle_blocked_edges}
use golang_fb_mirror.Release.Upgrades.{next_step, calculate}
use golang_fb_mirror.Release.Upgrades.Steps.{MinorLaws, channel_of, next-channel}

continue-ext {ℓ κ} :
    {A : Type ℓ} {B : Type κ} (r : Result A) (f g : A → M B) (c : Client)
    → ((a : A) (c' : Client) → f a c' ≡ g a c')
    → continue r f c ≡ continue r g c
continue-ext (ok a) f g c h = h a c
continue-ext (err e) f g c h = refl
continue-ext panic f g c h = refl
continue-ext out_of_fuel f g c h = refl

module _ (sv : Semver) where
  module _ (up : Upstream sv) (vf : VersionFilter) (arch : Str) (target_channel : Str)
      (requested : sv.Version) where
    -- The rest of a round, behind the choice of the next channel.
    after : ℕ → sv.Version → Str × sv.Version × Bool → M (Update sv × List (Update sv))
    after fuel start step = handle_blocked_edges sv up arch step.0 start >>= λ blocked.
        if blocked
        then (get_updates sv up arch target_channel step.1 step.1 >>= λ found.
            lift (ok (found.1, [])))
        else (get_updates sv up arch step.0 start step.1 >>= λ found.
            if step.2
            then lift (ok (found.1, found.2))
            else (calculate sv up vf arch target_channel requested fuel step.0 step.1 >>= λ later.
                lift (ok (later.0, found.2 ++ later.1))))

    bump : sv.Version → sv.Version
    bump v = sv.with_minor v (sv.minor v + 1)

    calculate-suc :
        (fuel : ℕ) (source_channel prefix : Str) (source target start : sv.Version) (c : Client)
        → get_semver_from_channels sv source_channel target_channel ≡ ok (source, target, prefix)
        → calculate sv up vf arch target_channel requested (suc fuel) source_channel start c
          ≡ (next_step sv up vf arch target_channel requested prefix (bump source) target
                >>= after fuel start)
              c
    unfolding calculate after bump
    calculate-suc fuel source_channel prefix source target start c h = rw (calculate, h) refl

    next-last :
        (prefix : Str) (v target : sv.Version) (c : Client)
        → eq_version sv v target ≡ true
        → next_step sv up vf arch target_channel requested prefix v target c
          ≡ (ok (target_channel, requested, true), c)
    unfolding next_step
    next-last prefix v target c e = rw (next_step, e) refl

    next-more :
        (prefix : Str) (v target : sv.Version) (c : Client)
        → eq_version sv v target ≡ false
        → next_step sv up vf arch target_channel requested prefix v target c
          ≡ (get_channel_min_or_max sv up vf arch
                  (channel_of sv prefix (sv.major v) (sv.minor v))
                  false
                >>= λ w. lift (ok (channel_of sv prefix (sv.major v) (sv.minor v), w, false)))
              c
    unfolding next_step channel_of
    next-more prefix v target c e = rw (next_step, e) refl

    -- More fuel for the next channel does not change a round if it does not change what comes then.
    after-more :
        (fuel more : ℕ) (start : sv.Version) (channel : Str) (v : sv.Version) (c : Client)
        → ((c' : Client)
            → calculate sv up vf arch target_channel requested (fuel + more) channel v c'
              ≡ calculate sv up vf arch target_channel requested fuel channel v c')
        → after (fuel + more) start (channel, v, false) c ≡ after fuel start (channel, v, false) c
    unfolding after
    after-more fuel more start channel v c h =
        let H = handle_blocked_edges sv up arch channel start c in
        continue-ext H.0 _ _ H.1 (λ blocked c'. branch blocked c')
      where
        go : ℕ → Update sv × Update sv × List (Update sv) → M (Update sv × List (Update sv))
        go f found = calculate sv up vf arch target_channel requested f channel v >>= λ later.
            lift (ok (later.0, found.2 ++ later.1))

        found-more :
            (found : Update sv × Update sv × List (Update sv)) (c' : Client)
            → go (fuel + more) found c' ≡ go fuel found c'
        found-more found c' =
            ap
              (λ (x : Result (Update sv × List (Update sv)) × Client).
                continue x.0 (λ later. lift (ok (later.0, found.2 ++ later.1))) x.1)
              (h c')

        branch :
            (blocked : Bool) (c' : Client)
            → (if blocked
                  then (get_updates sv up arch target_channel v v >>= λ found.
                      lift (ok (found.1, [])))
                  else (get_updates sv up arch channel start v >>= go (fuel + more)))
                c'
              ≡ (if blocked
                    then (get_updates sv up arch target_channel v v >>= λ found.
                        lift (ok (found.1, [])))
                    else (get_updates sv up arch channel start v >>= go fuel))
                  c'
        branch true c' = refl
        branch false c' =
            let G = get_updates sv up arch channel start v c' in
            continue-ext G.0 (go (fuel + more)) (go fuel) G.1 found-more

    after-last :
        (fuel more : ℕ) (start : sv.Version) (c : Client)
        → after (fuel + more) start (target_channel, requested, true) c
          ≡ after fuel start (target_channel, requested, true) c
    unfolding after
    after-last fuel more start c = refl

    -- Both fuels agree on a round that ends at the target.
    last-round :
        (fuel more : ℕ) (prefix : Str) (v target start : sv.Version) (c : Client)
        → eq_version sv v target ≡ true
        → (next_step sv up vf arch target_channel requested prefix v target
              >>= after (fuel + more) start)
            c
          ≡ (next_step sv up vf arch target_channel requested prefix v target >>= after fuel start)
              c
    last-round fuel more prefix v target start c e =
        let q = next-last prefix v target c e in
        ap (λ x. continue x.0 (after (fuel + more) start) x.1) q
        ∙ after-last fuel more start c
        ∙ sym (ap (λ x. continue x.0 (after fuel start) x.1) q)

    -- Both fuels agree on a round before that if they agree on the next channel.
    chosen-more :
        (fuel more : ℕ) (start : sv.Version) (channel : Str) (r : Result sv.Version) (c : Client)
        → ((v : sv.Version) (c' : Client)
            → calculate sv up vf arch target_channel requested (fuel + more) channel v c'
              ≡ calculate sv up vf arch target_channel requested fuel channel v c')
        → (let x : Result (Str × sv.Version × Bool) × Client =
              continue r (λ w. lift (ok (channel, w, false))) c in
            continue x.0 (after (fuel + more) start) x.1 ≡ continue x.0 (after fuel start) x.1)
    chosen-more fuel more start channel (ok v) c h = after-more fuel more start channel v c (h v)
    chosen-more fuel more start channel (err e) c h = refl
    chosen-more fuel more start channel panic c h = refl
    chosen-more fuel more start channel out_of_fuel c h = refl

    middle-round :
        (fuel more : ℕ) (prefix : Str) (v target start : sv.Version) (c : Client)
        → eq_version sv v target ≡ false
        → ((w : sv.Version) (c' : Client)
            → calculate sv up vf arch target_channel requested
                (fuel + more)
                (channel_of sv prefix (sv.major v) (sv.minor v))
                w
                c'
              ≡ calculate sv up vf arch target_channel requested fuel
                  (channel_of sv prefix (sv.major v) (sv.minor v))
                  w
                  c')
        → (next_step sv up vf arch target_channel requested prefix v target
              >>= after (fuel + more) start)
            c
          ≡ (next_step sv up vf arch target_channel requested prefix v target >>= after fuel start)
              c
    middle-round fuel more prefix v target start c e h =
        let q = next-more prefix v target c e in
        let channel = channel_of sv prefix (sv.major v) (sv.minor v) in
        let g = get_channel_min_or_max sv up vf arch channel false c in
        ap (λ x. continue x.0 (after (fuel + more) start) x.1) q
        ∙ chosen-more fuel more start channel g.0 g.1 h
        ∙ sym (ap (λ x. continue x.0 (after fuel start) x.1) q)

    round-more :
        (n more : ℕ) (source_channel prefix : Str) (source target start : sv.Version) (c : Client)
        → get_semver_from_channels sv source_channel target_channel ≡ ok (source, target, prefix)
        → (let v = sv.with_minor source (sv.minor source + 1) in
            eq_version sv v target ≡ false
            → (w : sv.Version) (c' : Client)
            → calculate sv up vf arch target_channel requested
                (n + more)
                (channel_of sv prefix (sv.major v) (sv.minor v))
                w
                c'
              ≡ calculate sv up vf arch target_channel requested n
                  (channel_of sv prefix (sv.major v) (sv.minor v))
                  w
                  c')
        → calculate sv up vf arch target_channel requested (suc n + more) source_channel start c
          ≡ calculate sv up vf arch target_channel requested (suc n) source_channel start c
    unfolding bump
    round-more n more source_channel prefix source target start c h later =
        let calc : ℕ → Result (Update sv × List (Update sv)) × Client =
          λ f. calculate sv up vf arch target_channel requested f source_channel start c in
        let v = sv.with_minor source (sv.minor source + 1) in
        let z : suc n + more ≡ suc (n + more) = omega arith in
        ap calc z
        ∙ calculate-suc (n + more) source_channel prefix source target start c h
        ∙ elim (Bool-cases (eq_version sv v target)) [
          | inl q ↦ last-round n more prefix v target start c q
          | inr q ↦ middle-round n more prefix v target start c q (later q)
        ]
        ∙ sym (calculate-suc n source_channel prefix source target start c h)

    -- With a round for each minor version from that of the source channel up to that of the target,
    -- `calculate` never asks for another one: with more fuel it does the same, whatever the server
    -- answers. The two channels have the same major version, the source channel has the lower minor
    -- version, and both are versions `x.y.0` without more.
    pub calculate-rounds :
        (a m : ℕ) (laws : MinorLaws sv a m) (rounds more : ℕ) (source_channel prefix : Str)
        (source target start : sv.Version) (c : Client)
        → get_semver_from_channels sv source_channel target_channel ≡ ok (source, target, prefix)
        → laws.IsPlain source
        → laws.IsPlain target
        → sv.major source ≡ a
        → sv.major target ≡ a
        → sv.minor target ≡ m
        → sv.minor source + suc rounds ≡ m
        → calculate sv up vf arch target_channel requested
            (suc rounds + more)
            source_channel
            start
            c
          ≡ calculate sv up vf arch target_channel requested (suc rounds) source_channel start c
    calculate-rounds a m laws zero more source_channel prefix source target start c h ps pt ms mt e
          l =
        let k = sv.minor source + 1 in
        let (pb, mb, nb) = laws.plain_with source k (omega (arith, l)) ps ms in
        let last : k ≡ m = omega (arith, l) in
        let q =
          laws.plain_eq (sv.with_minor source k) target pb pt (mb ∙ sym mt) (nb ∙ last ∙ sym e) in
        round-more zero more source_channel prefix source target start c h
          (λ f. absurd (ground (arith, f, q)))
    calculate-rounds a m laws (suc n) more source_channel prefix source target start c h ps pt ms mt
          e l =
        let k = sv.minor source + 1 in
        let below : k ≤ m = omega (arith, l) in
        let (pb, mb, nb) = laws.plain_with source k below ps ms in
        let (v, p, pv, ma, mi) = laws.parse_shown k below in
        let d = laws.dash_free k below in
        let next = next-channel sv source_channel target_channel prefix source target v a k h d p in
        let same : channel_of sv prefix a k
            ≡ channel_of sv prefix (sv.major (sv.with_minor source k))
                (sv.minor (sv.with_minor source k)) =
          λ i. channel_of sv prefix (sym mb i) (sym nb i) in
        round-more (suc n) more source_channel prefix source target start c h (λ f w c'.
          subst
            (λ ch.
              calculate sv up vf arch target_channel requested (suc n + more) ch w c'
              ≡ calculate sv up vf arch target_channel requested (suc n) ch w c')
            same
            (calculate-rounds a m laws n more (channel_of sv prefix a k) prefix v target w c' next
              pv pt ma mt e (omega (arith, l, mi))))
