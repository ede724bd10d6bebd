-- ===== src/Release/Names.antt =====
-- The names of channels, such as `stable-4.12` (pkg/release/core-cincinnati.go).
use golang_fb_mirror.Base.{none, some, ◌++◌, Result, ok, err, ◌>>=◌, invalid_channel_name, foreign}
use golang_fb_mirror.Base.Text.{Str, codes, cut_last}
use golang_fb_mirror.Semver.{Semver}

-- The text after the last dash of a channel's name and the text before it.
unfoldable pub cut_channel : Str → Result (Str × Str)
unfolding cut_last
cut_channel channel = elim (cut_last channel 45) [ none ↦ err invalid_channel_name | some p ↦ ok p ]

module _ (sv : Semver) where
  open sv use {Version, parse}

  -- `semver.Parse(fmt.Sprintf("%s.0", …))`
  unfoldable pub parse_minor : Str → Result Version
  parse_minor s = elim (parse (s ++ codes ".0")) [ none ↦ err (foreign 0) | some v ↦ ok v ]

  -- `getSemverFromChannels`
  unfoldable pub get_semver_from_channels : Str → Str → Result (Version × Version × Str)
  unfolding cut_channel parse_minor
  get_semver_from_channels source_channel target_channel = do
    (prefix, source_text) ← cut_channel source_channel
    (_, target_text) ← cut_channel target_channel
    source ← parse_minor source_text
    target ← parse_minor target_text
    ok (source, target, prefix)
