-- ===== src/Diff/Changes/Deleted.antt =====
-- Which images `batchWorkerConverter` (pkg/diff/diff.go) gives for deletion, and when it fails.
use golang_fb_mirror.Base.{
  ◌≡◌, refl, sym, ◌∙◌, subst, ◌↔◌, true, false, List, [], ◌∷◌, ◌++◌, ok, ◌>>=◌, Bool-cases, inl,
  inr, bind-eq-ok, ok-inj,
}
use golang_fb_mirror.Base.Text.{Str, codes}
use golang_fb_mirror.Api.{ImageRef}
use golang_fb_mirror.Names.{custom_image_parser}
use golang_fb_mirror.Diff.Changes.{DiffEntry, Images, is_gone, to_delete}

-- The image of a key that is parsed as an image's name
abbrev pub image_at : Str → ImageRef → Str
image_at destination i = destination ++ (i.namespace ++ (codes "/" ++ i.component))

-- One image for each key that is gone, in the order of the keys, each of which parses.
pub data Deleted (destination : Str) : Images → List Str → Type 0 where
  nothing : Deleted destination [] []
  kept :
      {k : Str} {e : DiffEntry} {images : Images} {deleted : List Str}
      → is_gone e ≡ false
      → Deleted destination images deleted
      → Deleted destination ((k, e) ∷ images) deleted
  gone :
      {k : Str} {e : DiffEntry} {i : ImageRef} {images : Images} {deleted : List Str}
      → is_gone e ≡ true
      → custom_image_parser k ≡ ok i
      → Deleted destination images deleted
      → Deleted destination ((k, e) ∷ images) (image_at destination i ∷ deleted)

to_delete-kept :
    (destination k : Str) (e : DiffEntry) (images : Images)
    → is_gone e ≡ false
    → to_delete destination ((k, e) ∷ images) ≡ to_delete destination images
unfolding to_delete
to_delete-kept destination k e images g = rw (to_delete, g) refl

to_delete-gone :
    (destination k : Str) (e : DiffEntry) (images : Images)
    → is_gone e ≡ true
    → to_delete destination ((k, e) ∷ images) ≡ (
        custom_image_parser k >>= λ i.
        to_delete destination images >>= λ rest. ok (image_at destination i ∷ rest))
unfolding to_delete
to_delete-gone destination k e images g = rw (to_delete, g) refl

to_delete-Deleted :
    (destination : Str) (images : Images) (deleted : List Str)
    → to_delete destination images ≡ ok deleted
    → Deleted destination images deleted
unfolding to_delete
to_delete-Deleted destination [] deleted h = subst (Deleted destination []) (ok-inj h) nothing
to_delete-Deleted destination ((k, e) ∷ images) deleted h = elim (Bool-cases (is_gone e)) [
  | inr g ↦ kept g (
      to_delete-Deleted destination images deleted
        (sym (to_delete-kept destination k e images g) ∙ h))
  | inl g ↦
      let (i, p, h1) =
        bind-eq-ok (custom_image_parser k)
          (λ i. to_delete destination images >>= λ rest. ok (image_at destination i ∷ rest))
          (sym (to_delete-gone destination k e images g) ∙ h) in
      let (rest, r, h2) =
        bind-eq-ok (to_delete destination images) (λ rest. ok (image_at destination i ∷ rest)) h1 in
      subst (Deleted destination ((k, e) ∷ images)) (ok-inj h2)
        (gone g p (to_delete-Deleted destination images rest r))
]

Deleted-to_delete :
    (destination : Str) (images : Images) (deleted : List Str)
    → Deleted destination images deleted
    → to_delete destination images ≡ ok deleted
Deleted-to_delete destination _ _ nothing = (unfold to_delete in refl)
Deleted-to_delete destination _ _ (kept {k} {e} {images} {deleted} g d) =
    to_delete-kept destination k e images g ∙ Deleted-to_delete destination images deleted d
Deleted-to_delete destination _ _ (gone {k} {e} {i} {images} {deleted} g p d) =
    to_delete-gone destination k e images g
    ∙ rw (p, Deleted-to_delete destination images deleted d) refl

-- `batchWorkerConverter` gives images to delete exactly if every key of the comparison that is gone,
-- the name of a channel or a package as well as that of an image, parses as the name of an image;
-- and then it gives one for each such key.
pub to_delete_iff-Deleted :
    (destination : Str) (images : Images) (deleted : List Str)
    → (to_delete destination images ≡ ok deleted) ↔ Deleted destination images deleted
to_delete_iff-Deleted destination images deleted =
    (to_delete-Deleted destination images deleted, Deleted-to_delete destination images deleted)
