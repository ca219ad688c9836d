-- ===== src/Minion/Registry.antt =====
-- minion/registry/registry.go: the building of images. What docker answers is an argument: `build` an
-- identifier for a name and a Dockerfile, or an error, and `push` whether it has pushed an image.
use Prim.Native.String.{◌++◌ as append}
use quilt.Prelude.{
  Bool, ◌&&◌, Option, none, some, String, List, [], ◌∷◌, if◌then◌else◌, ◌==◌, ◌!=◌, string_eq,
}
use quilt.Maps.{Order}
use quilt.Db.Table.{View, select, commit}
use quilt.Db.MinionRows.{Image, image_row}

abbrev pub building : String
building = "building"

abbrev pub built : String
built = "built"

-- The check of getImageHandle.
abbrev pub same_image : Image → Image → Bool
same_image ref img = img.dockerfile == ref.dockerfile && img.name == ref.name

-- writeImage on the rows that getImageHandle finds; an error is only logged, and `none` is a panic.
abbrev pub write_handle : Image → List Image → View Image → Option (View Image)
write_handle img [] v = some v
write_handle img (db_img ∷ []) v = commit image_row (record img { id = db_img.id }) v
write_handle img (i ∷ j ∷ is) v = some v

unfoldable pub write_image : Order → Image → View Image → Option (View Image)
write_image o img v = write_handle img (select image_row o (same_image img) v) v

abbrev pub image_with_status : String → Image → Image
image_with_status status img = record img { status = status }

abbrev pub unbuilt : Image → Bool
unbuilt img = img.status != built

module _ (build : String → String → Option String) (push : String → String → Bool) where
  unfoldable pub update_registry : Image → Option String
  update_registry img =
      let registry_img = append "localhost:5000/" img.name in
      elim (build registry_img img.dockerfile) [
        | none ↦ none
        | some id ↦ if push "localhost:5000" registry_img then some id else none
      ]

  -- What is written when docker has answered.
  abbrev pub answered : Option String → Image → Image
  answered none img = record img { status = "" }
  answered (some id) img = record img { docker_id = id; status = built }

  -- The body of the loop of syncImages.
  unfoldable pub sync_image : Order → Image → View Image → Option (View Image)
  unfolding write_image update_registry
  sync_image o img v = elim (write_image o (image_with_status building img) v) [
    | none ↦ none
    | some w ↦
        let building_img = image_with_status building img in
        write_image o (answered (update_registry building_img) building_img) w
  ]

  unfoldable pub sync_each : Order → List Image → View Image → Option (View Image)
  unfolding sync_image
  sync_each o [] v = some v
  sync_each o (img ∷ imgs) v = elim (sync_image o img v) [
    | none ↦ none
    | some w ↦ sync_each o imgs w
  ]

  unfoldable pub sync_images : Order → View Image → Option (View Image)
  unfolding sync_each
  sync_images o v = sync_each o (select image_row o unbuilt v) v
