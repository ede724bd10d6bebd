-- ===== src/Collect/Files.antt =====
-- The files that the collectors read and write, through `os`, `filepath` and the packages behind
-- interfaces; their state is abstract.
use golang_fb_mirror.Base.{Bool, Option, List}
use golang_fb_mirror.Base.Text.{Str}

pub record Files : Type 1 where
  pub State : Type 0
  -- errors.Is(err, os.ErrNotExist) of os.Stat
  pub missing : State → Str → Bool
  -- os.MkdirAll, `none` for an error
  pub mkdir_all : State → Str → Option State
  -- the directories of the files below a path whose names match the regular expression, in the
  -- order of filepath.Walk
  pub index_dirs : State → Str → Str → List Str

-- `mirrorToDisk` and `diskToMirror`, or another mode
pub data Mode : Type 0 where
  mirror_to_disk disk_to_mirror other_mode : Mode
