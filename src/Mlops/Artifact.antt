-- ===== src/Mlops/Artifact.antt =====
-- mlops/artifact.py: Stage, Triplet and ModelArtifact. An instant is a number of microseconds.
use ailending_hub.Prelude.{
  ℕ, Bool, true, false, Option, none, some, String, Result, ok, ◌>>◌, raise_if, is_empty,
}

pub data Stage : Type 0 where
  none_stage staging production archived : Stage

unfoldable pub same_stage : Stage → Stage → Bool
same_stage none_stage none_stage = true
same_stage staging staging = true
same_stage production production = true
same_stage archived archived = true
same_stage _ _ = false

pub record Triplet : Type 0 where
  pub code_commit : String
  pub data_snapshot : String
  pub config_hash : String

pub data TripletError : Type 0 where
  no_code_commit no_data_snapshot no_config_hash : TripletError

-- `Triplet.__post_init__`: the first missing part is named.
unfoldable pub triplet : Triplet → Result TripletError Triplet
triplet t = do
  raise_if (is_empty t.code_commit) no_code_commit
  raise_if (is_empty t.data_snapshot) no_data_snapshot
  raise_if (is_empty t.config_hash) no_config_hash
  ok t

pub record ModelArtifact : Type 0 where
  pub name : String
  pub version : String
  pub origin : Triplet
  pub definitions_fingerprint : String
  pub stage : Stage
  pub model_card_path : Option String
  pub validation_report_path : Option String
  pub shadow_started_at : Option ℕ

-- `not path`: None, or the empty text.
abbrev pub is_unset : Option String → Bool
is_unset none = true
is_unset (some s) = is_empty s
