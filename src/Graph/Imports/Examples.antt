-- ===== src/Graph/Imports/Examples.antt =====
-- A small tree, and the resolution of an import of crates/gitpixel-graph in it.
use gitpixel.Base.{List, [], ◌∷◌, some, ◌≡◌, refl, String}
use gitpixel.Graph.Imports.{
  resolve_import, lang_of, lang_of_extension, resolve_js, try_each, normalize, dir_of,
  push_segments, push_segment, pop,
}
use gitpixel.Graph.Text.{after_last, before_last, split, join}
use gitpixel.Graph.Imports.Listed.{Listed, resolve_import-Listed}

abbrev paths : List String
paths = "src/main.rs" ∷ "src/lib.rs" ∷ "web/util/index.ts" ∷ []

resolve_import-Listed_example : Listed paths (resolve_import "./util" "web/app.ts" paths)
resolve_import-Listed_example = resolve_import-Listed paths "./util" "web/app.ts"

util_found : resolve_import "./util" "web/app.ts" paths ≡ some "web/util/index.ts"
unfolding resolve_import lang_of lang_of_extension resolve_js try_each normalize dir_of
    push_segments push_segment pop after_last before_last split join
util_found = refl
