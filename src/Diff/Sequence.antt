-- ===== src/Diff/Sequence.antt =====
-- The metadata file: one item for each run, of which one is current (pkg/diff/diff.go and
-- schema.go).
pub mod Current
use golang_fb_mirror.Base.{
  ℕ, ◌+◌, ◌≡◌, refl, ap, sym, ◌∙◌, ◌≢◌, Bool, true, false, List, [], ◌∷◌, ◌++◌, map, length, ◌==◌,
  ==_iff, List_eq, ℕ_eq, if◌then◌else◌, Bool-cases, inl, inr, Result, ok, err, no_current_isc,
  arith, All, subst,
}
use golang_fb_mirror.Base.Text.{Str, codes}

pub record Item : Type 0 where
  pub value : ℕ
  pub timestamp : ℕ
  pub imagesetconfig : Str
  pub current : Bool
  pub destination : Str

-- The loop that sets `Current` to false.
unfoldable pub retire : List Item → List Item
retire [] = []
retire (i ∷ items) = record i { current = false } ∷ retire items

-- What `WriteMetadata` writes; `show` is `strconv.Itoa`, and `now` the time.
unfoldable pub write_metadata : (ℕ → Str) → ℕ → Str → Str → List Item → List Item
unfolding retire
write_metadata show now dir dest items =
    let n = length items in
    retire items
    ++ record {
      value = n;
      timestamp = now;
      imagesetconfig = dir ++ (codes "/.imagesetconfig-" ++ (show n ++ codes ".yaml"));
      current = true;
      destination = dest;
    }
      ∷ []

-- The loop of `getPreviousISC`, with `dest` and `isc`.
unfoldable pub last_current : Str × Str → List Item → Str × Str
last_current found [] = found
last_current found (i ∷ items) =
    last_current (if i.current then (i.destination, i.imagesetconfig) else found) items

-- `getPreviousISC`
unfoldable pub get_previous_isc : List Item → Result (Str × Str)
unfolding last_current
get_previous_isc items =
    let found = last_current ([], []) items in
    if found.1 == [] then err no_current_isc else ok found
