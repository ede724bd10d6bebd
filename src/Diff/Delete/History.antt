-- ===== src/Diff/Delete/History.antt =====
-- Metadata files that the program has written, run after run.
use golang_fb_mirror.Base.{
  ℕ, suc, ◌+◌, ◌≡◌, refl, sym, ap, ◌∙◌, true, false, List, [], ◌∷◌, ◌++◌, length, arith,
}
use golang_fb_mirror.Base.Text.{Str}
use golang_fb_mirror.Diff.Sequence.{Item, retire, write_metadata}
use golang_fb_mirror.Diff.Sequence.Current.{isc_path}

module _ (show : ℕ → Str) (dir : Str) where
  -- The items after any number of runs in the same directory.
  pub data History : List Item → Type 0 where
    no_runs : History []
    one_more :
        (now : ℕ) (dest : Str) {items : List Item}
        → History items
        → History (write_metadata show now dir dest items)

  -- The items have the numbers from `n` on, each with the path of its configuration.
  abbrev pub AreNumbered : ℕ → List Item → Type 0
  AreNumbered n [] = Unit
  AreNumbered n (i ∷ items) =
      (i.value ≡ n) × (i.imagesetconfig ≡ isc_path show dir n) × AreNumbered (suc n) items

  -- The last item is current, and no other one is.
  abbrev pub LastIsCurrent : List Item → Type 0
  LastIsCurrent [] = Unit
  LastIsCurrent (i ∷ []) = i.current ≡ true
  LastIsCurrent (i ∷ j ∷ items) = (i.current ≡ false) × LastIsCurrent (j ∷ items)

  LastIsCurrent-cons :
      (x : Item) (items : List Item) (i : Item)
      → x.current ≡ false
      → LastIsCurrent (items ++ i ∷ [])
      → LastIsCurrent (x ∷ (items ++ i ∷ []))
  LastIsCurrent-cons x [] i h l = (h, l)
  LastIsCurrent-cons x (y ∷ items) i h l = (h, l)

  retire-LastIsCurrent :
      (items : List Item) (i : Item) → i.current ≡ true → LastIsCurrent (retire items ++ i ∷ [])
  unfolding retire
  retire-LastIsCurrent [] i h = h
  retire-LastIsCurrent (x ∷ items) i h =
      LastIsCurrent-cons (record x { current = false }) (retire items) i refl
        (retire-LastIsCurrent items i h)

  retire-AreNumbered :
      (n : ℕ) (items : List Item) (i : Item)
      → AreNumbered n items
      → i.value ≡ n + length items
      → i.imagesetconfig ≡ isc_path show dir (n + length items)
      → AreNumbered n (retire items ++ i ∷ [])
  unfolding retire
  retire-AreNumbered n [] i a v p =
      let z : n + 0 ≡ n = omega arith in (v ∙ z, p ∙ ap (isc_path show dir) z, tt)
  retire-AreNumbered n (x ∷ items) i (v', p', a) v p =
      let z : n + suc (length items) ≡ suc n + length items = omega arith in
      (v', p', retire-AreNumbered (suc n) items i a (v ∙ z) (p ∙ ap (isc_path show dir) z))

  -- However often the program has written its metadata file: the items are numbered from 0 on, each
  -- has the path that belongs to its number, and the last one, which is that of the last run, is
  -- current, and no other.
  pub History-AreNumbered :
      (items : List Item) → History items → AreNumbered 0 items × LastIsCurrent items
  unfolding write_metadata
  History-AreNumbered _ no_runs = (tt, tt)
  History-AreNumbered _ (one_more now dest {items} h) =
      let (a, l) = History-AreNumbered items h in
      let z : 0 + length items ≡ length items = omega arith in
      (
        retire-AreNumbered 0 items _ a (sym z) (ap (isc_path show dir) (sym z)),
        retire-LastIsCurrent items _ refl,
      )
