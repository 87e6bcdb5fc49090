-- ===== src/Lakehouse/Tests.antt =====
-- A small lakehouse, and the theorems at it.
use ailending_hub.Prelude.{◌≡◌, refl, true, none, List, [], ◌∷◌, String, IsIn, lookup, insert}
use ailending_hub.Lakehouse.Layers.{
  Layer, bronze, silver, gold, TableSpec, table_spec, register_table, check_upstreams,
  check_upstream, may_read, done, search, total_reads, lineage,
}
use ailending_hub.Lakehouse.Reads.{IsLayered, run, run-IsLayered}
use ailending_hub.Lakehouse.Lineage.{Upstream, HasNoTwins, lineage_iff}

abbrev table : String → Layer → List String → TableSpec
table name layer reads = record {
  name = name;
  layer = layer;
  source_id = "cbs";
  reads_from = reads;
  partition_by = [];
  time_travel = true;
  contains_pii = none;
  description = "";
}

-- The last one would read bronze from gold, and is refused.
abbrev specs : List TableSpec
specs =
    table "raw" bronze []
    ∷ table "loans" silver ("raw" ∷ [])
    ∷ table "cases" silver ("raw" ∷ "loans" ∷ [])
    ∷ table "features" gold ("cases" ∷ "loans" ∷ [])
    ∷ table "shortcut" gold ("raw" ∷ [])
    ∷ []

steps : Unit {0}
unfolding run table_spec register_table check_upstreams check_upstream may_read lookup insert search
    total_reads lineage
steps = tt

shortcut_refused : lookup "shortcut" (run specs []) ≡ none
unfolding steps
shortcut_refused = refl

features_lineage : lineage (run specs []) "features" ≡ done ("cases" ∷ "loans" ∷ "raw" ∷ [])
unfolding steps
features_lineage = refl

run-IsLayered_example : IsLayered (run specs [])
run-IsLayered_example = run-IsLayered specs

lineage_iff_example :
    (found : List String) × (lineage (run specs []) "features" ≡ done found)
    × HasNoTwins found
    × ((v : String)
        → (IsIn v found → Upstream (run specs []) "features" v)
          × (Upstream (run specs []) "features" v → IsIn v found))
unfolding steps
lineage_iff_example =
    lineage_iff (run specs []) (run-IsLayered specs) "features"
      (table "features" gold ("cases" ∷ "loans" ∷ [])) refl
