-- ===== src/Graph/Build/Publish.antt =====
-- What crates/gitpixel-graph/src/build.rs publishes as fresh.
use gitpixel.Base.{
  ℕ, Bool, true, false, List, [], Option, none, some, ◌≡◌, refl, sym, ap, ◌∙◌, inl, inr, Bool-cases,
}
use gitpixel.Base.{String, str_eq, if◌then◌else◌, All, find, find-insert}
use gitpixel.Graph.Store.{GraphStore, meta_get, meta_set}
use gitpixel.Graph.Resolve.{build}
use gitpixel.Graph.Resolve.Calls.{resolve_calls, no_calls}
use gitpixel.Graph.Build.{
  Extracted, FileExtraction, Tree, remove_stale, paths_of, extract_tree, store_files, publish,
  write_graph, build_graph, is_fresh, freshness_key,
}
use gitpixel.Graph.Build.Fresh.{remove_stale_meta, store_files_meta, resolve_pending_meta}
use gitpixel.Graph.Build.Total.{
  IsIndexed, link_files-some, store_files-Ready, extract_tree-IsIndexed,
}

write_graph-some :
    (new_id : List ℕ → ℕ) (es : List Extracted) (g : GraphStore)
    → All (λ e. IsIndexed e.fx) es
    → (h : GraphStore) × (write_graph new_id es g ≡ some h) × (h.meta ≡ g.meta)
unfolding write_graph resolve_calls
write_graph-some new_id es g a =
    let cleared : GraphStore = remove_stale (paths_of es) g.files g in
    let (r, l, same) =
      link_files-some new_id (paths_of es) (store_files new_id es [] cleared).0 es
        (store_files new_id es [] cleared).1 (store_files new_id es [] cleared).2
        (store_files-Ready new_id es [] cleared a) in
    (
      (resolve_calls new_id r.0 r.1).1,
      rw (write_graph, l) refl,
      resolve_pending_meta new_id (build r.1) r.0 (no_calls, r.1)
          ∙ same
          ∙ store_files_meta new_id es [] cleared
          ∙ remove_stale_meta (paths_of es) g.files g,
    )

is_fresh-meta_set :
    (s signature : String) (h : GraphStore)
    → is_fresh s (meta_set freshness_key signature h) ≡ str_eq signature s
unfolding is_fresh meta_get meta_set
is_fresh-meta_set s signature h =
    rw (is_fresh, find-insert freshness_key freshness_key signature h.meta) refl

is_fresh_same : (s : String) (g h : GraphStore) → h.meta ≡ g.meta → is_fresh s h ≡ is_fresh s g
unfolding is_fresh meta_get
is_fresh_same s g h same =
    ap (λ m. elim (find freshness_key m) [ none ↦ false | some stored ↦ str_eq stored s ]) same

-- A build does not panic if the calls that the extraction finds stand in symbols that it finds. It
-- publishes the graph exactly if the signature of the tree after the build is that of the tree that was
-- parsed. A published graph is fresh for this signature and for no other. A build that is not
-- published changes no answer of `is_fresh`.
pub build_graph_fresh :
    (new_id : List ℕ → ℕ) (signature : Tree → String)
    (extract : String → List ℕ → Option FileExtraction) (blob_oid : List ℕ → String)
    (inputs after : Tree) (g : GraphStore)
    → ((rel : String) (content : List ℕ) (fx : FileExtraction)
        → extract rel content ≡ some fx
        → IsIndexed fx)
    → (r : Bool × GraphStore) × (build_graph new_id signature extract blob_oid inputs after g
        ≡ some r)
      × (r.0 ≡ str_eq (signature after) (signature inputs))
      × ((s : String)
          → is_fresh s r.1 ≡ (if r.0 then str_eq (signature inputs) s else is_fresh s g))
unfolding build_graph publish
build_graph_fresh new_id signature extract blob_oid inputs after g sound =
    let (h, w, same) =
      write_graph-some new_id (extract_tree extract blob_oid inputs) g
        (extract_tree-IsIndexed extract blob_oid inputs sound) in
    elim (Bool-cases (str_eq (signature after) (signature inputs))) [
      | inl e ↦ (
        (true, meta_set freshness_key (signature inputs) h),
        rw (build_graph, w, publish, e) refl,
        sym e,
        λ s. is_fresh-meta_set s (signature inputs) h,
      )
      | inr e ↦
          ((false, h), rw (build_graph, w, publish, e) refl, sym e, λ s. is_fresh_same s g h same)
    ]
