-- ===== src/Cli/Program.antt =====
-- The program as a whole: `Complete` (pkg/cli/executor.go) wires the collectors of pkg/release,
-- pkg/operator and pkg/additional and the worker of pkg/batch together, over one state.
pub mod Copied
use golang_fb_mirror.Base.{
  ℕ, Bool, false, Option, none, some, List, Result, ok, err, panic, out_of_fuel, Error, foreign,
}
use golang_fb_mirror.Base.Text.{Str}
use golang_fb_mirror.Base.Action.{Action}
use golang_fb_mirror.Semver.{Semver}
use golang_fb_mirror.Api.{Mirror}
use golang_fb_mirror.Batch.{CopyImage, Exit, done, failed, panicked, blocked, no_fuel, worker}
use golang_fb_mirror.Release.Client.{Upstream, Client}
use golang_fb_mirror.Release.Channels.{VersionFilter}
use golang_fb_mirror.Release.Downloads.{get_release_reference_images}
use golang_fb_mirror.Release.Signatures.{Message, Verifier}
use golang_fb_mirror.Release.Signatures.Fetch.{signed_images}
use golang_fb_mirror.Collect.Files.{Files}
use golang_fb_mirror.Collect.Interfaces.{ManifestInterface, Copier, Tree}
use golang_fb_mirror.Collect.Releases.Loop.{release_image_collector}
use golang_fb_mirror.Collect.Catalogs.{operator_image_collector}
use golang_fb_mirror.Collect.Additional.{additional_images_collector}
use golang_fb_mirror.Cli.Run.{Executor, Parts, Collector, release, operators, additional}

-- What lies outside: the server and the versions of releases, the client that `Complete` makes, what
-- a later `NewOCPClient` returns, files, signatures, the interface of pkg/manifest, the copy of an
-- index image, and whether the copy of an image succeeds.
pub record Environment : Type 1 where
  pub sv : Semver
  pub upstream : Upstream sv
  pub version_filter : VersionFilter
  pub parse_range : Str → Option (sv.Version → Bool)
  pub client : Client
  pub new_ocp_client : Option Client
  pub files : Files
  pub manifests : ManifestInterface files.State
  pub tree : Tree files.State
  pub copier : Copier files.State
  pub read_signature : files.State → Str → Str
  pub get : Str → files.State → Option (Bool × Str) × files.State
  pub read_message : Str → Option Message
  pub decode_content : Str → Option (Option Str)
  pub write_signature : Str → Str → files.State → files.State
  pub read_config : files.State → Str → Mirror × Option Error
  pub remove_dir : Str → files.State → files.State
  pub fresh_name : Str
  pub copies : CopyImage → Bool

-- What `Worker` returns, by the way in which it ends.
unfoldable pub returned : Exit → Result (Unit {0})
returned done = ok tt
returned failed = err (foreign 16)
returned panicked = panic
returned blocked = out_of_fuel
returned no_fuel = out_of_fuel

module _ (env : Environment) (fuel : ℕ) where
  abbrev pub verifier : Verifier
  verifier = record {
    State = env.files.State;
    read_file = env.read_signature;
    get = env.get;
    read_message = env.read_message;
    decode_content = env.decode_content;
    write_file = env.write_signature;
  }

  -- `GetReleaseReferenceImages` with the client that `Complete` makes, and `Fail` false
  unfoldable pub get_releases : Executor → Action env.files.State (List CopyImage)
  unfolding signed_images get_release_reference_images
  get_releases ex = signed_images verifier ex.dir (
      (get_release_reference_images env.sv env.upstream env.version_filter env.parse_range
        env.new_ocp_client false fuel ex.config.platform env.client).0)

  -- The collectors that `Complete` makes
  unfoldable pub collect_images : Collector → Executor → Action env.files.State (List CopyImage)
  unfolding get_releases release_image_collector operator_image_collector
      additional_images_collector
  collect_images release ex =
      release_image_collector env.files env.manifests env.copier ex.dir env.tree ex.destination
        ex.mode (get_releases ex) ex.config.platform.release
  collect_images operators ex =
      operator_image_collector env.files env.manifests env.copier ex.dir env.tree ex.destination
        env.fresh_name ex.mode ex.config.operators
  collect_images additional ex =
      additional_images_collector env.files ex.dir ex.destination ex.mode
        ex.config.additional_images

  abbrev pub made_dir :
      env.files.State → Option env.files.State → Result (Unit {0}) × env.files.State
  made_dir s none = (err (foreign 17), s)
  made_dir s (some s') = (ok tt, s')

  -- The interfaces as `Complete` fills them. The worker has fuel for its two calls.
  unfoldable pub parts_of : Parts
  unfolding collect_images returned worker
  parts_of = record {
    World = env.files.State;
    read_config = env.read_config;
    collect = collect_images;
    worker = λ images ex s. (returned (worker env.copies 2 images).0, s);
    make_dir = λ dir s. made_dir s (env.files.mkdir_all s dir);
    remove_dir = env.remove_dir;
  }
