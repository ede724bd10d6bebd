-- ===== src/Cli/Run.antt =====
-- The command (pkg/cli/executor.go): `Validate`, `Complete` and `Run`, and in `Run` the directories,
-- the three collectors and the batch worker, whose calls are recorded as events.
pub mod Order
pub mod Command
use golang_fb_mirror.Base.{
  Bool, true, false, Option, none, some, List, [], ◌∷◌, ◌++◌, Result, ok, err, panic, out_of_fuel,
  Error,
}
use golang_fb_mirror.Base.Text.{Str, codes}
use golang_fb_mirror.Base.Action.{Action, Traced, ◌>>=◌, ◌>>◌, lift, call, is_ok}
use golang_fb_mirror.Api.{Mirror}
use golang_fb_mirror.Batch.{CopyImage}
use golang_fb_mirror.Collect.Files.{Mode, mirror_to_disk, disk_to_mirror, other_mode}
use golang_fb_mirror.Cli.{complete_mode, validate_destination, merge_images}

-- The constants for the directories
abbrev pub logs_dir : Str
logs_dir = codes "logs"

abbrev pub working_dir : Str
working_dir = codes "working-dir"

-- `ExecutorSchema`, without the clients that it only calls
pub record Executor : Type 0 where
  pub config : Mirror
  pub config_path : Str
  pub mode : Mode
  pub destination : Str
  pub dir : Str

pub data Collector : Type 0 where
  release operators additional : Collector

-- A directory has been removed, or made if that succeeded; a collector has returned its images, or
-- `none` for an error; the worker has been called, with whether it succeeded.
pub data Event : Type 0 where
  removed : Str → Event
  made : Str → Bool → Event
  collected : Collector → Option (List CopyImage) → Event
  worked : List CopyImage → Bool → Event

-- The interfaces of the collectors and the worker, `config.ReadConfig` with both its results, and
-- the directories. The state is abstract.
pub record Parts : Type 1 where
  pub World : Type 0
  pub read_config : World → Str → Mirror × Option Error
  pub collect : Collector → Executor → World → Result (List CopyImage) × World
  pub worker : List CopyImage → Executor → World → Result (Unit {0}) × World
  pub make_dir : Str → World → Result (Unit {0}) × World
  pub remove_dir : Str → World → World

-- What a collector's event shows of its result.
abbrev pub images_of : Result (List CopyImage) → Option (List CopyImage)
images_of (ok images) = some images
images_of _ = none

module _ (parts : Parts) where
  abbrev pub State : Type 0
  State = Traced parts.World Event

  abbrev pub remove_all : Str → State → State
  remove_all dir s = record {
    world = parts.remove_dir dir s.world;
    trace = s.trace ++ removed dir ∷ [];
  }

  -- `if err != nil { cleanUp(); return err }`
  unfoldable pub cleaning_up {ℓ} : {A : Type ℓ} → Result A × State → Result A × State
  cleaning_up (err e, s) = (err e, remove_all logs_dir s)
  cleaning_up (r, s) = (r, s)

  -- `os.MkdirAll` for one directory after the other, up to an error
  unfoldable pub make_dirs : List Str → Action State (Unit {0})
  make_dirs [] = lift (ok tt)
  make_dirs (dir ∷ dirs) = call (parts.make_dir dir) (made dir) >>= λ _. make_dirs dirs

  -- The directories below the working directory that `Run` needs in mirrorToDisk.
  unfoldable pub dirs_of : Mode → Str → List Str
  dirs_of mirror_to_disk dir =
      working_dir
      ∷ (dir ++ codes "/signatures")
      ∷ (dir ++ codes "/release-images")
      ∷ (dir ++ codes "/hold-release")
      ∷ (dir ++ codes "/hold-operator")
      ∷ []
  dirs_of _ dir = []

  unfoldable pub collect : Collector → Executor → Action State (List CopyImage)
  unfolding cleaning_up
  collect c ex s =
      let (r, w) = parts.collect c ex s.world in
      cleaning_up (r, record { world = w; trace = s.trace ++ collected c (images_of r) ∷ [] })

  unfoldable pub work : Executor → List CopyImage → Action State (Unit {0})
  unfolding cleaning_up
  work ex images s = cleaning_up (call (parts.worker images ex) (worked images) s)

  -- `Run` behind the directories
  unfoldable pub run_collectors : Executor → Action State (Unit {0})
  unfolding collect work merge_images
  run_collectors ex = do
    releases ← collect release ex
    let all = merge_images [] releases
    operator_images ← collect operators ex
    let all' = merge_images all operator_images
    additional_images ← collect additional ex
    work ex (merge_images all' additional_images)

  -- `Run`
  unfoldable pub run : Executor → Action State (Unit {0})
  unfolding make_dirs dirs_of run_collectors
  run ex s =
      (make_dirs (logs_dir ∷ dirs_of ex.mode ex.dir) >>= λ _. run_collectors ex)
        (remove_all logs_dir s)

  -- `Complete`: an error of `ReadConfig` is only logged.
  unfoldable pub complete : Str → Str → parts.World → Result Executor
  unfolding complete_mode
  complete config_path dest w = elim (complete_mode dest) [
    | ok (mode, dir) ↦ ok (record {
      config = (parts.read_config w config_path).0;
      config_path = config_path;
      mode = mode;
      destination = dest;
      dir = dir;
    })
    | err e ↦ err e
    | panic ↦ panic
    | out_of_fuel ↦ out_of_fuel
  ]

  abbrev pub checked : Mirror × Option Error → Result Mirror
  checked (m, none) = ok m
  checked (m, some e) = err e

  -- The `Run` of the cobra command; an error ends the program with the exit code 1.
  unfoldable pub mirror_command : Str → Str → Action State (Unit {0})
  unfolding validate_destination complete run
  mirror_command config_path dest s =
      (lift (
            validate_destination config_path (checked (parts.read_config s.world config_path)) dest)
          >>= λ _. lift (complete config_path dest s.world) >>= run)
        s
