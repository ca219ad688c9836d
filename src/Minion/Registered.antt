-- ===== src/Minion/Registered.antt =====
-- minion/registry/registry.go: what syncImages leaves.
use mathlib.Core.HLevel.{hedberg}
use mathlib.Core.List.Perm
use Prim.Native.String.{◌++◌ as append}
use mathlib.Core.List.{Nodup-cons, mem-cons, mem-cons_self, perm_middle}
use mathlib.Core.Logic.Or
use quilt.Prelude.{
  if◌then◌else◌, ℕ, Bool, Bool-cases, inl, inr, ◌≡◌, refl, sym, ap, ◌∙◌, subst, true, false, not,
  Option, none, some, String, List, [], ◌∷◌, ◌++◌, All, Mem, Nodup, Perm, filter, map, arith, ◌==◌,
  string_eq, eq_iff,
}
use quilt.Prelude.Tests.{and-true, true-and}
use quilt.Prelude.Perms.{kept, gone, filter-perm, perm-one, perm-cons_middle}
use quilt.Prelude.Filters.{filter_none}
use quilt.Maps.{Order}
use quilt.Db.Table.{View, IsValid, select, commit}
use quilt.Db.Changes.{ids, commit_lem}
use quilt.Db.Loops.{IsValid-ids}
use quilt.Db.MinionRows.{Image, Image-discrete, image_row}
use quilt.Minion.Registry.{
  building, same_image, write_handle, write_image, image_with_status, unbuilt, update_registry,
  answered, sync_image, sync_each, sync_images,
}

-- The name and the Dockerfile.
abbrev pub image_key : Image → String × String
image_key img = (img.dockerfile, img.name)

same_key : (ref img : Image) → same_image ref img ≡ true → image_key img ≡ image_key ref
same_key ref img e =
    let (d, n) = and-true (img.dockerfile == ref.dockerfile) (img.name == ref.name) e in
    ap (λ x. (x, img.name)) ((eq_iff img.dockerfile ref.dockerfile).0 d)
    ∙ ap (λ y. (ref.dockerfile, y)) ((eq_iff img.name ref.name).0 n)

same_self : (ref img : Image) → image_key img ≡ image_key ref → same_image ref img ≡ true
same_self ref img e =
    true-and (img.dockerfile == ref.dockerfile) (img.name == ref.name)
      ((eq_iff img.dockerfile ref.dockerfile).1 (ap (λ k. k.0) e))
      ((eq_iff img.name ref.name).1 (ap (λ k. k.1) e))

others-differ :
    (ref : Image) (rest : List Image)
    → ¬ Mem (image_key ref) (map image_key rest)
    → All (λ x. same_image ref x ≡ false) rest
others-differ ref [] h = tt
others-differ ref (x ∷ rest) h = (
  elim (Bool-cases (same_image ref x)) [
    | inl e ↦ absurd (h (mem-cons.1 (Or.inl (sym (same_key ref x e)))))
    | inr e ↦ e
  ],
  others-differ ref rest (λ m. h (mem-cons.1 (Or.inr m))),
)

-- writeImage puts the image in the place of the only row with its key.
write_image-lem :
    (o : Order) (v : View Image) (img r : Image) (rest : List Image)
    → Nodup (ids image_row v.rows)
    → Nodup (map image_key (r ∷ rest))
    → Perm v.rows (r ∷ rest)
    → image_key img ≡ image_key r
    → img.id ≡ r.id
    → (w : View Image) × (write_image o img v ≡ some w)
      × (w.cur_id ≡ v.cur_id)
      × Perm w.rows (img ∷ rest)
unfolding write_image select
write_image-lem o v img r rest d keys p k n =
    let (w, e, c, q) = commit_lem image_row v r img ((Perm.mem_iff p).1 mem-cons_self) d n in
    (
      w,
      ap (λ is. write_handle img is v) found
          ∙ (ap (λ i. commit image_row (record img { id = i }) v) (sym n) ∙ e),
      c,
      Perm.cons_inv (Perm.trans q (Perm.trans (Perm.cons img p) (Perm.swap r img rest))),
    )
  where
    apart : All (λ x. same_image img x ≡ false) rest
    apart =
        others-differ img rest
          (subst (λ k. ¬ Mem k (map image_key rest)) (sym k) (Nodup-cons.0 keys).0)

    alone : filter (same_image img) (r ∷ rest) ≡ r ∷ []
    alone =
        kept (same_image img) r rest (same_self img r (sym k))
        ∙ ap (◌∷◌ r) (filter_none (same_image img) rest apart)

    found : filter (same_image img) (o.range Image v.rows) ≡ r ∷ []
    found = perm-one (hedberg Image-discrete) r _ (
        subst (Perm (filter (same_image img) (o.range Image v.rows))) alone
          (filter-perm (same_image img) (Perm.trans (o.range-perm Image v.rows) p)))

module _ (build : String → String → Option String) (push : String → String → Bool) where
  -- An image is built, with docker's identifier, if docker builds and pushes it, and has no status if not.
  abbrev pub outcome : Image → Image
  outcome img = elim (build (append "localhost:5000/" img.name) img.dockerfile) [
    | none ↦ record img { status = "" }
    | some id ↦
        if push "localhost:5000" (append "localhost:5000/" img.name)
        then record img { docker_id = id; status = "built" }
        else record img { status = "" }
  ]

  answered-outcome :
      (img : Image)
      → answered build push
          (update_registry build push (image_with_status building img))
          (image_with_status building img)
        ≡ outcome img
  unfolding update_registry
  answered-outcome img = ground arith

  outcome-key :
      (img : Image) → (image_key (outcome img) ≡ image_key img) × ((outcome img).id ≡ img.id)
  outcome-key img = ground arith

  -- One round of the loop.
  sync_image-lem :
      (o : Order) (v : View Image) (img : Image) (rest : List Image)
      → Nodup (ids image_row v.rows)
      → Nodup (map image_key (img ∷ rest))
      → Perm v.rows (img ∷ rest)
      → (w : View Image) × (sync_image build push o img v ≡ some w)
        × (w.cur_id ≡ v.cur_id)
        × Perm w.rows (outcome img ∷ rest)
  unfolding sync_image
  sync_image-lem o v img rest d keys p =
      let (w, e, n, q) =
        write_image-lem o v (image_with_status building img) img rest d keys p refl refl in
      let (key, id) = outcome-key img in
      let (u, e', n', q') =
        write_image-lem o w (outcome img) (image_with_status building img) rest
          (Perm.nodup
            (Perm.trans (Perm.map image_row.get_id p) (Perm.symm (Perm.map image_row.get_id q))) d)
          keys q key id in
      (u, rw (e, sync_image, answered-outcome img) e', n' ∙ n, q')

  -- The loop of syncImages.
  sync_each-lem :
      (o : Order) (imgs : List Image) (v : View Image) (done : List Image)
      → Nodup (ids image_row v.rows)
      → Nodup (map image_key (imgs ++ done))
      → Perm v.rows (imgs ++ done)
      → (w : View Image) × (sync_each build push o imgs v ≡ some w)
        × (w.cur_id ≡ v.cur_id)
        × Perm w.rows (map outcome imgs ++ done)
        × Perm (ids image_row v.rows) (ids image_row w.rows)
  unfolding sync_each
  sync_each-lem o [] v done d keys p = (v, refl, refl, p, Perm.refl _)
  sync_each-lem o (img ∷ imgs) v done d keys p =
      let (w, e, n, q) = sync_image-lem o v img (imgs ++ done) d keys p in
      let (key, id) = outcome-key img in
      let placed : Perm w.rows (imgs ++ outcome img ∷ done) =
        Perm.trans q (perm-cons_middle (outcome img) done imgs (Perm.refl _)) in
      let same : Perm (ids image_row v.rows) (ids image_row w.rows) =
        Perm.trans (Perm.map image_row.get_id p) (
          subst (λ (i : ℕ). Perm (i ∷ ids image_row (imgs ++ done)) (ids image_row w.rows)) id
            (Perm.symm (Perm.map image_row.get_id q))) in
      let (u, e', n', q', same') =
        sync_each-lem o imgs w (outcome img ∷ done) (Perm.nodup same d)
          (Perm.nodup (Perm.map image_key (perm-cons_middle (outcome img) done imgs (Perm.refl _)))
            (subst (λ k. Nodup (k ∷ map image_key (imgs ++ done))) (sym key) keys))
          placed in
      (u, rw (e, sync_each) e', n' ∙ n, Perm.trans q' (perm_middle _ _), Perm.trans same same')

empty_split : Perm [] (filter unbuilt [] ++ filter (λ i. not (unbuilt i)) [])
unfolding filter
empty_split = Perm.refl []

filter_split : (xs : List Image) → Perm xs (filter unbuilt xs ++ filter (λ i. not (unbuilt i)) xs)
filter_split [] = empty_split
filter_split (x ∷ xs) = elim (Bool-cases (unbuilt x)) [
  | inl e ↦
      rw (kept unbuilt x xs e, gone (λ i. not (unbuilt i)) x xs (ap not e))
        (Perm.cons x (filter_split xs))
  | inr e ↦
      rw (gone unbuilt x xs e, kept (λ i. not (unbuilt i)) x xs (ap not e))
        (perm-cons_middle x (filter (λ i. not (unbuilt i)) xs) (filter unbuilt xs)
          (filter_split xs))
]

-- If the table is valid and no two images have the same name and Dockerfile, then syncImages does not panic
-- and leaves a valid table, in which the built images are as they were and each other one is what docker's
-- answer makes of it: built, with docker's identifier, or without a status if the build or the push fails.
pub sync_images-built :
    (build : String → String → Option String) (push : String → String → Bool) (o : Order)
    (v : View Image)
    → IsValid image_row v
    → Nodup (map image_key v.rows)
    → (w : View Image) × (sync_images build push o v ≡ some w)
      × IsValid image_row w
      × Perm w.rows
          (map (outcome build push) (filter unbuilt v.rows) ++ filter (λ i. not (unbuilt i)) v.rows)
unfolding sync_images select
sync_images-built build push o v h keys =
    let to_build = filter unbuilt (o.range Image v.rows) in
    let done = filter (λ i. not (unbuilt i)) v.rows in
    let q : Perm to_build (filter unbuilt v.rows) =
      filter-perm unbuilt (o.range-perm Image v.rows) in
    let all : Perm v.rows (to_build ++ done) =
      Perm.trans (filter_split v.rows) (Perm.append_right done (Perm.symm q)) in
    let (w, e, n, p, same) =
      sync_each-lem build push o to_build v done h.distinct
        (Perm.nodup (Perm.map image_key all) keys) all in
    (
      w,
      e,
      IsValid-ids image_row v w h same (omega (arith, n)),
      Perm.trans p (Perm.append_right done (Perm.map (outcome build push) q)),
    )
