-- ===== src/Config/Validate/Unique.antt =====
-- What `Validate` accepts: configurations in which no channel and no catalog comes twice.
use mathlib.Core.List.{Memᴰ}
use mathlib.Core.List.Memᴰ
use golang_fb_mirror.Base.{
  ◌≡◌, refl, ◌∙◌, ◌↔◌, ◌⊎◌, inl, inr, true, false, List, [], ◌∷◌, ◌++◌, ◌==◌, ==_iff, ℕ_eq, List_eq,
  if◌then◌else◌, Bool-cases, Memᴰ-cons, arith, map, Result, ok, err, duplicate_channel,
  duplicate_catalog, invalid_configuration,
}
use golang_fb_mirror.Base.Text.{Str}
use golang_fb_mirror.Api.{Operator, ReleaseChannel, Mirror}
use golang_fb_mirror.Config.Validate.{
  References, was_seen, check_channels, check_operators, get_unique_name, errors_of, validate,
}

-- No name of the list is one of `seen`, and none comes twice.
abbrev pub Fresh : List Str → List Str → Type 0
Fresh seen [] = Unit
Fresh seen (n ∷ names) = (¬ Memᴰ n seen) × Fresh (n ∷ seen) names

abbrev pub channel_names : List ReleaseChannel → List Str
channel_names = map (λ (c : ReleaseChannel). c.name)

was_seen-cons :
    (n s : Str) (seen : List Str)
    → was_seen n (s ∷ seen) ≡ (if s == n then true else was_seen n seen)
unfolding was_seen
was_seen-cons n s seen = refl

was_seen-nil : (n : Str) → was_seen n [] ≡ false
unfolding was_seen
was_seen-nil n = refl

was_seen-Mem : (n : Str) (seen : List Str) → (was_seen n seen ≡ true) ↔ Memᴰ n seen
was_seen-Mem n [] =
    ((λ h. absurd (ground (arith, h, was_seen-nil n))), λ i. absurd (Memᴰ.not-nil i))
was_seen-Mem n (s ∷ seen) =
    ground (arith, was_seen-cons n s seen, was_seen-Mem n seen, Memᴰ-cons n s seen, ==_iff s n)

was_seen-new : (n : Str) (seen : List Str) → was_seen n seen ≡ false → ¬ Memᴰ n seen
was_seen-new n seen h i = ground (arith, h, (was_seen-Mem n seen).1 i)

check_channels-seen :
    (seen : List Str) (c : ReleaseChannel) (cs : List ReleaseChannel)
    → was_seen c.name seen ≡ true
    → check_channels seen (c ∷ cs) ≡ err duplicate_channel
unfolding check_channels
check_channels-seen seen c cs h = rw (check_channels, h) refl

check_channels-new :
    (seen : List Str) (c : ReleaseChannel) (cs : List ReleaseChannel)
    → was_seen c.name seen ≡ false
    → check_channels seen (c ∷ cs) ≡ check_channels (c.name ∷ seen) cs
unfolding check_channels
check_channels-new seen c cs h = rw (check_channels, h) refl

check_channels-Fresh :
    (seen : List Str) (cs : List ReleaseChannel)
    → ((check_channels seen cs ≡ ok tt) × Fresh seen (channel_names cs))
      ⊎ ((check_channels seen cs ≡ err duplicate_channel) × ¬ Fresh seen (channel_names cs))
unfolding check_channels
check_channels-Fresh seen [] = inl (refl, tt)
check_channels-Fresh seen (c ∷ cs) = elim (Bool-cases (was_seen c.name seen)) [
  | inl h ↦ inr (check_channels-seen seen c cs h, λ f. f.0 ((was_seen-Mem c.name seen).0 h))
  | inr h ↦ elim (check_channels-Fresh (c.name ∷ seen) cs) [
    | inl (e, f) ↦ inl (check_channels-new seen c cs h ∙ e, (was_seen-new c.name seen h, f))
    | inr (e, twice) ↦ inr (check_channels-new seen c cs h ∙ e, λ f. twice f.1)
  ]
]

module _ (refs : References) where
  -- The unique names of the catalogs, where each of them has one.
  abbrev pub HaveNames : List Operator → List Str → Type 0
  HaveNames [] [] = Unit
  HaveNames (o ∷ os) (n ∷ ns) = (get_unique_name refs o ≡ ok n) × HaveNames os ns
  HaveNames os ns = ⊥

  check_operators-seen :
      (seen : List Str) (o : Operator) (os : List Operator) (n : Str)
      → get_unique_name refs o ≡ ok n
      → was_seen n seen ≡ true
      → check_operators refs seen (o ∷ os) ≡ err duplicate_catalog
  unfolding check_operators
  check_operators-seen seen o os n e h = rw (check_operators, e, h) refl

  check_operators-new :
      (seen : List Str) (o : Operator) (os : List Operator) (n : Str)
      → get_unique_name refs o ≡ ok n
      → was_seen n seen ≡ false
      → check_operators refs seen (o ∷ os) ≡ check_operators refs (n ∷ seen) os
  unfolding check_operators
  check_operators-new seen o os n e h = rw (check_operators, e, h) refl

  check_operators-Fresh :
      (seen : List Str) (os : List Operator) (ns : List Str)
      → HaveNames os ns
      → ((check_operators refs seen os ≡ ok tt) × Fresh seen ns)
        ⊎ ((check_operators refs seen os ≡ err duplicate_catalog) × ¬ Fresh seen ns)
  unfolding check_operators
  check_operators-Fresh seen [] [] h = inl (refl, tt)
  check_operators-Fresh seen [] (n ∷ ns) h = absurd h
  check_operators-Fresh seen (o ∷ os) [] h = absurd h
  check_operators-Fresh seen (o ∷ os) (n ∷ ns) (e, hs) = elim (Bool-cases (was_seen n seen)) [
    | inl h ↦ inr (check_operators-seen seen o os n e h, λ f. f.0 ((was_seen-Mem n seen).0 h))
    | inr h ↦ elim (check_operators-Fresh (n ∷ seen) os ns hs) [
      | inl (r, f) ↦ inl (check_operators-new seen o os n e h ∙ r, (was_seen-new n seen h, f))
      | inr (r, twice) ↦ inr (check_operators-new seen o os n e h ∙ r, λ f. twice f.1)
    ]
  ]

  errors_join :
      (m : Mirror) (r r' : Result (Unit {0}))
      → check_operators refs [] m.operators ≡ r
      → check_channels [] m.platform.channels ≡ r'
      → validate refs m ≡ errors_of refs r ++ errors_of refs r'
  unfolding validate
  errors_join m r r' e e' = rw (e, e') refl

  -- Where each catalog has a unique name, `Validate` finds no error exactly when no two catalogs
  -- have the same unique name and no two channels the same name; otherwise it names each kind of
  -- duplicate that there is.
  pub validate-Fresh :
      (m : Mirror) (ns : List Str)
      → HaveNames m.operators ns
      → ((validate refs m ≡ []) × Fresh [] ns × Fresh [] (channel_names m.platform.channels))
        ⊎ ((validate refs m ≡ invalid_configuration duplicate_catalog ∷ [])
            × (¬ Fresh [] ns)
            × Fresh [] (channel_names m.platform.channels))
        ⊎ ((validate refs m ≡ invalid_configuration duplicate_channel ∷ [])
            × Fresh [] ns
            × (¬ Fresh [] (channel_names m.platform.channels)))
        ⊎ ((validate refs m
              ≡ invalid_configuration duplicate_catalog
                ∷ invalid_configuration duplicate_channel
                ∷ [])
            × (¬ Fresh [] ns)
            × (¬ Fresh [] (channel_names m.platform.channels)))
  validate-Fresh m ns h =
      let chans = check_channels-Fresh [] m.platform.channels in
      let cats = check_operators-Fresh [] m.operators ns h in
      elim cats [
        | inl (e, f) ↦ elim chans [
          | inl (e', f') ↦ inl (errors_join m (ok tt) (ok tt) e e', f, f')
          | inr (e', f') ↦
              inr (inr (inl (errors_join m (ok tt) (err duplicate_channel) e e', f, f')))
        ]
        | inr (e, f) ↦ elim chans [
          | inl (e', f') ↦ inr (inl (errors_join m (err duplicate_catalog) (ok tt) e e', f, f'))
          | inr (e', f') ↦ inr (
              inr (inr (errors_join m (err duplicate_catalog) (err duplicate_channel) e e', f, f')))
        ]
      ]
