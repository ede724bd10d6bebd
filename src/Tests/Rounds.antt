-- ===== src/Tests/Rounds.antt =====
-- The rounds between two channels, for versions of three digits.
use golang_fb_mirror.Base.{
  ℕ, zero, suc, ◌+◌, ◌*◌, ◌/◌, ◌%◌, ◌≤◌, ◌<◌, ◌≡◌, refl, true, false, some, none, [], ◌∷◌, arith,
}
use golang_fb_mirror.Base.Text.{codes}
use golang_fb_mirror.Names.Parts.{Lacks}
use golang_fb_mirror.Semver.{eq_version}
use golang_fb_mirror.Release.Graph.{Node}
use golang_fb_mirror.Release.Client.{ocp, Client, Upstream, body}
use golang_fb_mirror.Release.Channels.{VersionFilter}
use golang_fb_mirror.Release.Upgrades.{calculate}
use golang_fb_mirror.Release.Upgrades.Rounds.{calculate-rounds}
use golang_fb_mirror.Release.Upgrades.Steps.{MinorLaws}
use golang_fb_mirror.Release.Names.{get_semver_from_channels}
use golang_fb_mirror.Tests.Versions.{digit_versions}

abbrev IsShort : ℕ → Type 0
IsShort v = (v < 1000) × (v % 10 ≡ 0)

digits_free : (n : ℕ) → n ≤ 3 → Lacks 45 ((48 + 4) ∷ 46 ∷ (48 + n) ∷ [])
digits_free zero h = (refl, (refl, (refl, tt)))
digits_free (suc zero) h = (refl, (refl, (refl, tt)))
digits_free (suc (suc zero)) h = (refl, (refl, (refl, tt)))
digits_free (suc (suc (suc zero))) h = (refl, (refl, (refl, tt)))
digits_free (suc (suc (suc (suc n)))) h = absurd (omega arith)

digits_shown :
    (n : ℕ)
    → n ≤ 3
    → (v : ℕ) × (digit_versions.parse ((48 + 4) ∷ 46 ∷ (48 + n) ∷ codes ".0") ≡ some v)
      × IsShort v
      × (v / 100 ≡ 4)
      × (v / 10 % 10 ≡ n)
digits_shown zero h = (400, refl, (omega arith, refl), refl, refl)
digits_shown (suc zero) h = (410, refl, (omega arith, refl), refl, refl)
digits_shown (suc (suc zero)) h = (420, refl, (omega arith, refl), refl, refl)
digits_shown (suc (suc (suc zero))) h = (430, refl, (omega arith, refl), refl, refl)
digits_shown (suc (suc (suc (suc n)))) h = absurd (omega arith)

digits_with :
    (v n : ℕ)
    → n ≤ 3
    → IsShort v
    → v / 100 ≡ 4
    → IsShort (v / 100 * 100 + n * 10 + v % 10)
      × ((v / 100 * 100 + n * 10 + v % 10) / 100 ≡ 4)
      × ((v / 100 * 100 + n * 10 + v % 10) / 10 % 10 ≡ n)
digits_with v n h (small, z) m = ((omega arith, omega arith), omega arith, omega arith)

digits_eq :
    (v w : ℕ)
    → IsShort v
    → IsShort w
    → v / 100 ≡ w / 100
    → v / 10 % 10 ≡ w / 10 % 10
    → eq_version digit_versions v w ≡ true
digits_eq v w (a, b) (c, d) e f = let same : v ≡ w = omega arith in ground (arith, same)

abbrev laws : MinorLaws digit_versions 4 3
laws = record {
  IsPlain = IsShort;
  dash_free = digits_free;
  parse_shown = digits_shown;
  plain_with = digits_with;
  plain_eq = digits_eq;
}

-- A server with the versions 4.1.5, 4.2.0 and 4.3.1 in every channel, each with an edge to the next.
abbrev node : ℕ → Node digit_versions
node v = record { version = v; image = v ∷ []; metadata = [] }

abbrev server : Upstream digit_versions
server = record {
  respond = λ c. body [];
  decode = λ b. some (record {
    nodes = node 415 ∷ node 420 ∷ node 431 ∷ [];
    edges = (0 ∷ 1 ∷ []) ∷ (1 ∷ 2 ∷ []) ∷ [];
  });
}

abbrev all_versions : VersionFilter
all_versions = record {
  Regexp = Unit {0};
  filter = [];
  compile = λ s. none;
  match_string = λ r s. false;
}

abbrev client : Client
client = record {
  platform = ocp;
  id = codes "id";
  query = record { ids = []; archs = []; channels = []; versions = [] };
}

calculate-rounds_example :
    calculate digit_versions server all_versions
      (codes "amd64")
      (codes "stable-4.3")
      431
      12
      (codes "stable-4.1")
      415
      client
    ≡ calculate digit_versions server all_versions
        (codes "amd64")
        (codes "stable-4.3")
        431
        2
        (codes "stable-4.1")
        415
        client
calculate-rounds_example =
    calculate-rounds digit_versions server all_versions (codes "amd64") (codes "stable-4.3") 431 4 3
      laws 1 10 (codes "stable-4.1") (codes "stable") 410 430 415 client
      (unfold get_semver_from_channels in refl) (omega arith, refl) (omega arith, refl) refl refl
      refl refl
