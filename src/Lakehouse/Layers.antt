-- ===== src/Lakehouse/Layers.antt =====
-- lakehouse/layers.py: TableSpec and Lakehouse.
use ailending_hub.Prelude.{
  ℕ, zero, suc, ◌+◌, Bool, true, false, not, ◌&&◌, Option, none, some, List, [], ◌∷◌, ◌++◌, String,
  is_nil, length, Result, ok, err, ◌>>◌, raise_if, Dict, lookup, insert, contains, member,
}

pub data Layer : Type 0 where
  bronze silver gold : Layer

-- `source in ALLOWED_SOURCES[reader]`
unfoldable pub may_read : Layer → Layer → Bool
may_read bronze source = false
may_read silver gold = false
may_read silver source = true
may_read gold bronze = false
may_read gold source = true

pub record TableSpec : Type 0 where
  pub name : String
  pub layer : Layer
  pub source_id : String
  pub reads_from : List String
  pub partition_by : List String
  pub time_travel : Bool
  pub contains_pii : Option Bool
  pub description : String

pub data LayerViolation : Type 0 where
  time_travel_disabled bronze_reads already_registered : (name : String) → LayerViolation
  not_registered : (name upstream : String) → LayerViolation
  skips_layer :
      (name : String) (reader : Layer) (upstream : String) (source : Layer) → LayerViolation

abbrev pub is_bronze : Layer → Bool
is_bronze bronze = true
is_bronze _ = false

-- `TableSpec.__post_init__`
unfoldable pub table_spec : TableSpec → Result LayerViolation TableSpec
table_spec s = do
  raise_if (not s.time_travel) (time_travel_disabled s.name)
  raise_if (is_bronze s.layer && not (is_nil s.reads_from)) (bronze_reads s.name)
  ok s

abbrev pub Lakehouse : Type 0
Lakehouse = Dict TableSpec

-- The body of the loop over `spec.reads_from`.
unfoldable pub check_upstream : TableSpec → Lakehouse → String → Result LayerViolation Unit
check_upstream s tables u = elim (lookup u tables) [
  | none ↦ err (not_registered s.name u)
  | some t ↦ raise_if (not (may_read s.layer t.layer)) (skips_layer s.name s.layer u t.layer)
]

unfoldable pub check_upstreams : TableSpec → Lakehouse → List String → Result LayerViolation Unit
unfolding check_upstream
check_upstreams s tables [] = ok tt
check_upstreams s tables (u ∷ us) = do check_upstream s tables u; check_upstreams s tables us

unfoldable pub register_table : TableSpec → Lakehouse → Result LayerViolation Lakehouse
unfolding check_upstreams
register_table s tables = do
  raise_if (contains s.name tables) (already_registered s.name)
  check_upstreams s tables s.reads_from
  ok (insert s.name s tables)

-- What the `while` loop of `lineage` ends with: the list, or the KeyError of a name that is not a
-- table. `unfinished` is no result of the code: it says that the fuel of the model ran out.
pub data Search : Type 0 where
  done : List String → Search
  key_error : String → Search
  unfinished : Search

-- The loop: `seen` and `queue` are its variables.
unfoldable pub search : ℕ → Lakehouse → List String → List String → Search
search fuel tables seen [] = done seen
search zero tables seen (current ∷ queue) = unfinished
search (suc fuel) tables seen (current ∷ queue) = elim (member current seen) [
  | true ↦ search fuel tables seen queue
  | false ↦ elim (lookup current tables) [
    | none ↦ key_error current
    | some t ↦ search fuel tables (seen ++ current ∷ []) (queue ++ t.reads_from)
  ]
]

-- How often tables are read, which bounds the rounds of the loop.
unfoldable pub total_reads : Lakehouse → ℕ
total_reads [] = 0
total_reads ((k, t) ∷ tables) = length t.reads_from + total_reads tables

unfoldable pub lineage : Lakehouse → String → Search
unfolding search total_reads
lineage tables name = elim (lookup name tables) [
  | none ↦ key_error name
  | some t ↦ search (length t.reads_from + total_reads tables) tables [] t.reads_from
]
