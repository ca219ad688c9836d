-- ===== src/Minion/RegistryExamples.antt =====
-- minion/registry/registry.go: a table with an image that is built and one that is not.
use mathlib.Core.HLevel.{⊥_prop}
use mathlib.Core.List.{Nodup-cons, Nodup-nil, mem-cons, not-mem-nil}
use mathlib.Core.Logic.Or
use quilt.Prelude.{
  filter, true≢false, sym, ◌≡◌, ap, true, false, some, [], ◌∷◌, Perm, Nodup, map, arith, ◌==◌,
  string_eq,
}
use quilt.Maps.{in_order}
use quilt.Db.Table.{View, IsValid}
use quilt.Db.MinionRows.{Image, image_row}
use quilt.Minion.Registry.{built, building, update_registry, sync_images}
use quilt.Minion.Registered.{image_key, sync_images-built}

abbrev web : Image
web = record { id = 1; name = "web"; dockerfile = "FROM nginx"; docker_id = "d"; status = built }

abbrev db_image : Image
db_image = record {
  id = 2;
  name = "db";
  dockerfile = "FROM redis";
  docker_id = "";
  status = building;
}

abbrev images : View Image
images = record { cur_id = 2; rows = web ∷ db_image ∷ []; should_alert = false }

images-IsValid : IsValid image_row images
images-IsValid = record {
  distinct = Nodup-cons.1 (
    λ m. Or.elim ⊥_prop (mem-cons.0 m) (λ e. omega (arith, e)) not-mem-nil,
    Nodup-cons.1 (not-mem-nil, Nodup-nil),
  );
  allocated = (omega arith, (omega arith, tt));
}

images-distinct : Nodup (map image_key images.rows)
images-distinct = Nodup-cons.1 (
  λ m. Or.elim ⊥_prop (mem-cons.0 m) (λ e. true≢false (sym (ap (λ k. k.1 == "db") e))) not-mem-nil,
  Nodup-cons.1 (not-mem-nil, Nodup-nil),
)

sync_images-built_example :
    (w : View Image) × (sync_images
        (λ name dockerfile. some "5")
        (λ registry name. true)
        in_order
        images
      ≡ some w)
    × IsValid image_row w
    × Perm w.rows (record db_image { docker_id = "5"; status = built } ∷ web ∷ [])
unfolding filter update_registry
sync_images-built_example =
    sync_images-built (λ name dockerfile. some "5") (λ registry name. true) in_order images
      images-IsValid images-distinct
