-- ===== src/Collect/Releases/Walk.antt =====
-- The images that the release collector finds in diskToMirror.
use golang_fb_mirror.Base.{
  ℕ, ◌==◌, if◌then◌else◌, ◌≡◌, refl, ap, ◌∙◌, ◌⊎◌, inl, inr, true, false, none, some, Option, List,
  [], ◌∷◌, ◌++◌, Result, ok, Bool-cases, List_eq, ℕ_eq,
}
use golang_fb_mirror.Base.Text.{Str, codes}
use mathlib.Core.List.{append_assoc}
use golang_fb_mirror.Base.Action.Logs.{append_nil}
use golang_fb_mirror.Api.{RelatedImage}
use golang_fb_mirror.Batch.{CopyImage}
use golang_fb_mirror.Collect.Files.{Files}
use golang_fb_mirror.Collect.Interfaces.{ManifestInterface, Copier, Tree}
use golang_fb_mirror.Collect.Releases.Loop.{
  component_of, copy_of_component, visit_components, add_some,
}
use golang_fb_mirror.Collect.Releases.{find_related_image}
use golang_fb_mirror.Collect.Releases.Related.{
  PathIn, find_related_image-PathIn, LastPart, component_of-LastPart,
}

module _ (files : Files) (mfi : ManifestInterface files.State) (copier : Copier files.State)
    (global_dir : Str) (tree : Tree files.State) (destination : Str) where
  -- The copy of a path is that of its directory.
  abbrev pub copy_at : List RelatedImage → Str → Str → Option CopyImage
  copy_at related path component =
      copy_of_component files mfi copier global_dir tree destination related (tree.dir_of path)
        component

  -- From a directory to the path of an image below the destination
  abbrev pub copy_to : Str → Str → CopyImage
  copy_to dir image = record {
    source = codes "dir:" ++ dir;
    destination = destination ++ (codes "/" ++ image);
  }

  -- Whether the component of a directory is in the release
  data Copied (related : List RelatedImage) (dir component : Str) : Option CopyImage → Type 0 where
    is_unknown : PathIn component related [] → Copied related dir component none
    is_found :
        {b : ℕ} {rest : Str}
        → PathIn component related (b ∷ rest)
        → Copied related dir component (some (copy_to dir (b ∷ rest)))

  copy_of_component-Copied :
      (related : List RelatedImage) (dir component : Str)
      → Copied related dir component
          (copy_of_component files mfi copier global_dir tree destination related dir component)
  unfolding copy_of_component
  copy_of_component-Copied related dir component =
      by_path (find_related_image component related) (find_related_image-PathIn component related)
    where
      by_path :
          (image : Str)
          → PathIn component related image
          → Copied related dir component (if image == [] then none else some (copy_to dir image))
      by_path [] i = is_unknown i
      by_path (b ∷ rest) i = is_found i

  -- The copies of the paths that a walk visits, in their order. The component of a directory is what
  -- stands behind its last slash; it is found if the first image of its name has a path behind its
  -- registry.
  pub data Walked (related : List RelatedImage) : List (Option Str) → List CopyImage → Type 0 where
    ended : Walked related [] []
    passed :
        {path : Str} {paths : List (Option Str)} {copies : List CopyImage}
        → tree.matches (codes "manifest.json") path ≡ false
        → Walked related paths copies
        → Walked related (some path ∷ paths) copies
    unknown :
        {path component : Str} {paths : List (Option Str)} {copies : List CopyImage}
        → tree.matches (codes "manifest.json") path ≡ true
        → LastPart (tree.dir_of path) component
        → PathIn component related []
        → Walked related paths copies
        → Walked related (some path ∷ paths) copies
    found :
        {path component : Str} {b : ℕ} {rest : Str} {paths : List (Option Str)}
        {copies : List CopyImage}
        → tree.matches (codes "manifest.json") path ≡ true
        → LastPart (tree.dir_of path) component
        → PathIn component related (b ∷ rest)
        → Walked related paths copies
        → Walked related (some path ∷ paths) (copy_to (tree.dir_of path) (b ∷ rest) ∷ copies)

  -- Some path cannot be read.
  abbrev pub Unreadable : List (Option Str) → Type 0
  Unreadable [] = ⊥
  Unreadable (none ∷ paths) = Unit
  Unreadable (some path ∷ paths) = Unreadable paths

  abbrev visit : List RelatedImage → List (Option Str) → List CopyImage → Result (List CopyImage)
  visit = visit_components files mfi copier global_dir tree destination

  visit-pass :
      (related : List RelatedImage) (path : Str) (paths : List (Option Str))
      (result : List CopyImage)
      → tree.matches (codes "manifest.json") path ≡ false
      → visit related (some path ∷ paths) result ≡ visit related paths result
  unfolding visit_components
  visit-pass related path paths result m = rw (visit_components, m) refl

  visit-match :
      (related : List RelatedImage) (path component : Str) (paths : List (Option Str))
      (result : List CopyImage)
      → tree.matches (codes "manifest.json") path ≡ true
      → component_of (tree.dir_of path) ≡ ok component
      → visit related (some path ∷ paths) result
        ≡ visit related paths (
            add_some files mfi copier global_dir tree destination result
              (copy_at related path component))
  unfolding visit_components
  visit-match related path component paths result m c = rw (visit_components, m, c) refl

  abbrev Visited : List RelatedImage → List (Option Str) → List CopyImage → Type 0
  Visited related paths result =
      ((new : List CopyImage) × (visit related paths result ≡ ok (result ++ new))
        × Walked related paths new)
      ⊎ (Unreadable paths × (visit related paths result ≡ ok []))

  visit-Copied :
      (related : List RelatedImage) (path component : Str) (paths : List (Option Str))
      (result : List CopyImage)
      → ((r : List CopyImage) → Visited related paths r)
      → tree.matches (codes "manifest.json") path ≡ true
      → LastPart (tree.dir_of path) component
      → (o : Option CopyImage)
      → visit related (some path ∷ paths) result
        ≡ visit related paths (add_some files mfi copier global_dir tree destination result o)
      → Copied related (tree.dir_of path) component o
      → Visited related (some path ∷ paths) result
  visit-Copied related path component paths result ih m l _ q (is_unknown i) = elim (ih result) [
    | inl (new, e, w) ↦ inl (new, q ∙ e, unknown m l i w)
    | inr (u, e) ↦ inr (u, q ∙ e)
  ]
  visit-Copied related path component paths result ih m l _ q (is_found {b} {rest} i) =
      let copy = copy_to (tree.dir_of path) (b ∷ rest) in
      elim (ih (result ++ copy ∷ [])) [
        | inl (new, e, w) ↦
            inl (copy ∷ new, q ∙ e ∙ ap ok (append_assoc result (copy ∷ []) new), found m l i w)
        | inr (u, e) ↦ inr (u, q ∙ e)
      ]

  visit-Visited :
      (related : List RelatedImage) (paths : List (Option Str)) (result : List CopyImage)
      → Visited related paths result
  visit-Visited related [] result =
      inl ([], (unfold visit_components in ap ok (append_nil result)), ended)
  visit-Visited related (none ∷ paths) result = inr (tt, (unfold visit_components in refl))
  visit-Visited related (some path ∷ paths) result =
      elim (Bool-cases (tree.matches (codes "manifest.json") path)) [
        | inr m ↦
            let q = visit-pass related path paths result m in
            elim (visit-Visited related paths result) [
              | inl (new, e, w) ↦ inl (new, q ∙ e, passed m w)
              | inr (u, e) ↦ inr (u, q ∙ e)
            ]
        | inl m ↦
            let (component, c, l) = component_of-LastPart (tree.dir_of path) in
            let q = visit-match related path component paths result m c in
            visit-Copied related path component paths result (visit-Visited related paths) m l _ q
              (copy_of_component-Copied related (tree.dir_of path) component)
      ]

  -- The walk over the images of a release always returns without an error. If all paths can be
  -- read, it copies, in the order of the walk, the directories of manifests whose last part is the
  -- name of an image of the release: each to the path of the first such image, behind its registry,
  -- below the destination, and a directory whose image has no such path is left out. If a path
  -- cannot be read, there are no copies.
  pub visit_components-Walked :
      (related : List RelatedImage) (paths : List (Option Str))
      → ((copies : List CopyImage) × (visit_components files mfi copier global_dir tree destination
              related paths []
            ≡ ok copies)
          × Walked related paths copies)
        ⊎ (Unreadable paths
            × (visit_components files mfi copier global_dir tree destination related paths []
                ≡ ok []))
  visit_components-Walked related paths = visit-Visited related paths []
