-- ===== src/Release/Upgrades/Steps.antt =====
-- The channels that `calculate` goes through, by the names that it makes for them.
use golang_fb_mirror.Base.{
  ℕ, ◌≤◌, ◌≡◌, refl, ap, true, none, some, [], ◌∷◌, ◌++◌, ◌==◌, ℕ_eq, ok, arith, ok-inj, bind-eq-ok,
}
use golang_fb_mirror.Base.Text.{Str, codes, cut_last}
use golang_fb_mirror.Names.Parts.{Lacks}
use golang_fb_mirror.Semver.{Semver, eq_version}
use golang_fb_mirror.Release.Names.{cut_channel, parse_minor, get_semver_from_channels}

-- What is needed of the package semver for the versions `x.y.0` of a major version `a`, with a minor
-- version up to `m`: they are shown without a dash and parsed again, the field Minor can be
-- assigned, and they are equal if their fields are.
pub record MinorLaws (sv : Semver) (a m : ℕ) : Type 1 where
  pub IsPlain : sv.Version → Type 0
  pub dash_free : (n : ℕ) → n ≤ m → Lacks 45 (sv.show_nat a ++ (codes "." ++ sv.show_nat n))
  pub parse_shown :
      (n : ℕ)
      → n ≤ m
      → (v : sv.Version) × (sv.parse ((sv.show_nat a ++ (codes "." ++ sv.show_nat n)) ++ codes ".0")
          ≡ some v)
        × IsPlain v
        × (sv.major v ≡ a)
        × (sv.minor v ≡ n)
  pub plain_with :
      (v : sv.Version) (n : ℕ)
      → n ≤ m
      → IsPlain v
      → sv.major v ≡ a
      → IsPlain (sv.with_minor v n)
        × (sv.major (sv.with_minor v n) ≡ a)
        × (sv.minor (sv.with_minor v n) ≡ n)
  pub plain_eq :
      (v w : sv.Version)
      → IsPlain v
      → IsPlain w
      → sv.major v ≡ sv.major w
      → sv.minor v ≡ sv.minor w
      → eq_version sv v w ≡ true

cut_last-none : (c : ℕ) (s : Str) → Lacks c s → cut_last s c ≡ none
unfolding cut_last
cut_last-none c [] h = refl
cut_last-none c (b ∷ s) (n, h) = rw (cut_last, cut_last-none c s h, n) refl

cut_last-part :
    (c : ℕ) (before after : Str)
    → Lacks c after
    → cut_last (before ++ c ∷ after) c ≡ some (before, after)
unfolding cut_last
cut_last-part c [] after h =
    let e : (c == c) ≡ true = ground arith in rw (cut_last, cut_last-none c after h, e) refl
cut_last-part c (b ∷ before) after h = rw (cut_last, cut_last-part c before after h) refl

module _ (sv : Semver) where
  -- A channel named by the fields of a version.
  unfoldable pub channel_of : Str → ℕ → ℕ → Str
  channel_of prefix a n = prefix ++ (codes "-" ++ (sv.show_nat a ++ (codes "." ++ sv.show_nat n)))

  cut_channel_of :
      (prefix : Str) (a n : ℕ)
      → Lacks 45 (sv.show_nat a ++ (codes "." ++ sv.show_nat n))
      → cut_channel (channel_of prefix a n)
        ≡ ok (prefix, sv.show_nat a ++ (codes "." ++ sv.show_nat n))
  unfolding cut_channel channel_of
  cut_channel_of prefix a n h =
      rw (cut_channel, cut_last-part 45 prefix (sv.show_nat a ++ (codes "." ++ sv.show_nat n)) h)
        refl

  parse_minor-some :
      (n a : ℕ) (v : sv.Version)
      → sv.parse ((sv.show_nat a ++ (codes "." ++ sv.show_nat n)) ++ codes ".0") ≡ some v
      → parse_minor sv (sv.show_nat a ++ (codes "." ++ sv.show_nat n)) ≡ ok v
  unfolding parse_minor
  parse_minor-some n a v p = rw (parse_minor, p) refl

  -- The next channel has the prefix and the target of the one before it.
  pub next-channel :
      (source_channel target_channel prefix : Str) (source target v : sv.Version) (a n : ℕ)
      → get_semver_from_channels sv source_channel target_channel ≡ ok (source, target, prefix)
      → Lacks 45 (sv.show_nat a ++ (codes "." ++ sv.show_nat n))
      → sv.parse ((sv.show_nat a ++ (codes "." ++ sv.show_nat n)) ++ codes ".0") ≡ some v
      → get_semver_from_channels sv (channel_of prefix a n) target_channel ≡ ok (v, target, prefix)
  unfolding get_semver_from_channels
  next-channel source_channel target_channel prefix source target v a n h d p =
      let (x, e1, h1) = bind-eq-ok (cut_channel source_channel) _ h in
      let (y, e2, h2) = bind-eq-ok (cut_channel target_channel) _ h1 in
      let (s, e3, h3) = bind-eq-ok (parse_minor sv x.1) _ h2 in
      let (t, e4, h4) = bind-eq-ok (parse_minor sv y.1) _ h3 in
      let goal : t ≡ target = ap (λ (z : sv.Version × sv.Version × Str). z.1) (ok-inj h4) in
      rw
        (
          get_semver_from_channels,
          cut_channel_of prefix a n d,
          e2,
          parse_minor-some n a v p,
          e4,
          goal,
        )
        refl
