-- ===== src/Base/Text.antt =====
-- Go strings as lists of bytes, and the functions of the package `strings` that the program calls.
use Prim.Native.Char.{code}
use Prim.Native.String.{String}
use Prim.Native.Nat.{ℕ, zero, suc, ◌-◌}
use mathlib.Core.Path.{◌≡◌, refl}
use mathlib.Core.Bool.{Bool, true, false, ◌&&◌, ◌||◌}
use mathlib.Core.List.{List, [], ◌∷◌, ◌++◌, reverse}
use mathlib.Core.Option.{Option, none, some}
use golang_fb_mirror.Base.Tests.{◌==◌, if◌then◌else◌, List_eq, ℕ_eq}
use golang_fb_mirror.Base.Lists.{length, drop}

abbrev pub Str : Type 0
Str = List ℕ

-- The bytes of an ASCII literal.
abbrev pub codes : String → Str
codes String.[] = []
codes (String.◌∷◌ c s) = code c ∷ codes s

-- strings.HasPrefix(s, p)
unfoldable pub has_prefix : Str → Str → Bool
has_prefix s [] = true
has_prefix [] (c ∷ p) = false
has_prefix (d ∷ s) (c ∷ p) = d == c && has_prefix s p

-- strings.Contains(s, sub)
unfoldable pub contains : Str → Str → Bool
unfolding has_prefix
contains [] sub = has_prefix [] sub
contains (c ∷ s) sub = has_prefix (c ∷ s) sub || contains s sub

-- strings.TrimPrefix(s, p)
unfoldable pub trim_prefix : Str → Str → Str
unfolding has_prefix
trim_prefix s p = if has_prefix s p then drop (length p) s else s

-- strings.TrimSuffix(s, p)
unfoldable pub trim_suffix : Str → Str → Str
unfolding trim_prefix
trim_suffix s p = reverse (trim_prefix (reverse s) (reverse p))

-- The first piece gets one more byte.
abbrev pub cons_head : ℕ → List Str → List Str
cons_head c [] = (c ∷ []) ∷ []
cons_head c (p ∷ ps) = (c ∷ p) ∷ ps

-- `skip` counts the bytes left of a separator that has been found.
unfoldable pub split_from : ℕ → Str → Str → List Str
unfolding has_prefix
split_from skip [] sep = [] ∷ []
split_from (suc k) (c ∷ s) sep = split_from k s sep
split_from zero (c ∷ s) sep = elim (has_prefix (c ∷ s) sep) [
  | true ↦ [] ∷ split_from (length sep - 1) s sep
  | false ↦ cons_head c (split_from zero s sep)
]

-- strings.Split(s, sep) at a separator that is not empty
unfoldable pub split : Str → Str → List Str
unfolding split_from
split s sep = split_from 0 s sep

-- strings.Join(parts, sep)
unfoldable pub join : List Str → Str → Str
join [] sep = []
join (p ∷ []) sep = p
join (p ∷ q ∷ ps) sep = p ++ (sep ++ join (q ∷ ps) sep)

-- strings.Replace(s, old, new, -1) and strings.ReplaceAll at an `old` that is not empty
unfoldable pub replace_all : Str → Str → Str → Str
unfolding split join
replace_all s old new = join (split s old) new

-- strings.Replace(s, old, new, 1)
unfoldable pub replace_one : Str → Str → Str → Str
unfolding has_prefix
replace_one [] old new = []
replace_one (c ∷ s) old new =
    if has_prefix (c ∷ s) old then new ++ drop (length old) (c ∷ s) else c ∷ replace_one s old new

-- s[:i] and s[i+1:] at i = strings.LastIndex(s, c) for a one-byte `c`, `none` where that is -1
unfoldable pub cut_last : Str → ℕ → Option (Str × Str)
cut_last [] c = none
cut_last (d ∷ s) c = elim (cut_last s c) [
  | some (before, after) ↦ some (d ∷ before, after)
  | none ↦ if d == c then some ([], s) else none
]

split_lem :
    (split (codes "quay.io/a/b:v1") (codes "/") ≡ codes "quay.io" ∷ codes "a" ∷ codes "b:v1" ∷ [])
    × (split (codes "docker://x") (codes "://") ≡ codes "docker" ∷ codes "x" ∷ [])
    × (split [] (codes "/") ≡ [] ∷ [])
unfolding split
split_lem = (refl, refl, refl)
