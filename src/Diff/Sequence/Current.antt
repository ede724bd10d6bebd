-- ===== src/Diff/Sequence/Current.antt =====
-- The current item of the metadata file.
use golang_fb_mirror.Base.{
  ℕ, suc, ◌≡◌, refl, ap, ◌∙◌, true, false, List, [], ◌∷◌, ◌++◌, length, ◌==◌, List_eq, ℕ_eq,
  if◌then◌else◌, ok, arith, length-append,
}
use golang_fb_mirror.Base.Text.{Str, codes}
use golang_fb_mirror.Diff.Sequence.{Item, retire, write_metadata, last_current, get_previous_isc}

-- The items that are current.
abbrev pub currents : List Item → List Item
currents [] = []
currents (i ∷ items) = if i.current then i ∷ currents items else currents items

-- The path that `WriteMetadata` gives to the n-th configuration.
abbrev pub isc_path : (ℕ → Str) → Str → ℕ → Str
isc_path show dir n = dir ++ (codes "/.imagesetconfig-" ++ (show n ++ codes ".yaml"))

last_current-append :
    (found : Str × Str) (items : List Item) (i : Item)
    → i.current ≡ true
    → last_current found (retire items ++ i ∷ []) ≡ (i.destination, i.imagesetconfig)
unfolding last_current retire
last_current-append found [] i h = rw h refl
last_current-append found (x ∷ items) i h = last_current-append found items i h

currents-append :
    (items : List Item) (i : Item) → i.current ≡ true → currents (retire items ++ i ∷ []) ≡ i ∷ []
unfolding retire
currents-append [] i h = rw h refl
currents-append (x ∷ items) i h = currents-append items i h

path-nonempty : (dir s : Str) → ((dir ++ (codes "/.imagesetconfig-" ++ s)) == []) ≡ false
path-nonempty [] s = refl
path-nonempty (c ∷ dir) s = refl

length-retire : (items : List Item) → length (retire items) ≡ length items
unfolding retire
length-retire [] = refl
length-retire (i ∷ items) = ap suc (length-retire items)

-- After `WriteMetadata`, whatever the file said before, there is exactly one current item, and
-- `getPreviousISC` returns its destination and the path of its configuration; there is one item
-- more than before.
pub write-get :
    (show : ℕ → Str) (now : ℕ) (dir dest : Str) (items : List Item)
    → let items' = write_metadata show now dir dest items in
      (get_previous_isc items' ≡ ok (dest, isc_path show dir (length items)))
      × ((i : Item) × (currents items' ≡ i ∷ [])
          × (i.imagesetconfig ≡ isc_path show dir (length items)))
      × (length items' ≡ suc (length items))
unfolding write_metadata get_previous_isc
write-get show now dir dest items =
    let i : Item = record {
      value = length items;
      timestamp = now;
      imagesetconfig = isc_path show dir (length items);
      current = true;
      destination = dest;
    } in
    (
      rw
          (
            last_current-append ([], []) items i refl,
            path-nonempty dir (show (length items) ++ codes ".yaml"),
          )
          refl,
      (i, currents-append items i refl, refl),
      length-append (retire items) (i ∷ []) ∙ ground (arith, length-retire items),
    )
