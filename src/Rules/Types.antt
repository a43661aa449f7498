-- ===== src/Rules/Types.antt =====
-- internal/rules/types.go. A pointer that may be nil is an option. Numbers with a fraction are
-- only carried, so a number stands for a `float64`.
use promptshield_beta.Base.{ℕ, Bool, Option, List}
use promptshield_beta.Base.Int.{ℤ}
use promptshield_beta.Base.Text.{Str}
use promptshield_beta.Base.Map.{Map}

pub record Metadata : Type 0 where
  pub name : Str
  pub version : Str
  pub description : Str
  pub author : Str
  pub license : Str
  pub homepage : Str
  pub repository : Str
  pub tags : List Str

pub record Options : Type 0 where
  pub case_sensitive : Bool
  pub whole_word : Bool

pub record Pattern : Type 0 where
  pub name : Str
  pub regex : Str
  pub flags : List Str
  pub verifier : Str

-- OR within a key, AND across keys.
pub record Condition : Type 0 where
  pub match : Map (List Str)

pub record Semantic : Type 0 where
  pub model : Str
  pub temperature : ℕ
  pub max_tokens : ℤ
  pub analysis_prompt : Str
  pub confidence_threshold : ℕ
  pub fallback_on_error : Bool

pub record Fallback : Type 0 where
  pub patterns : List Pattern
  pub action : Str

pub record Response : Type 0 where
  pub action : Str
  pub message : Str
  pub replacement : Str

pub record Cache : Type 0 where
  pub enabled : Bool
  pub ttl : Str
  pub max_entries : ℤ

pub record Rule : Type 0 where
  pub id : Str
  pub name : Str
  pub level : ℤ
  pub severity : Str
  pub category : Str
  pub enabled : Option Bool
  pub verifier : Str
  pub keywords : List Str
  pub patterns : List Pattern
  pub semantic : Option Semantic
  pub fallback : Option Fallback
  pub logic : Str
  pub options : Options
  pub response : Option Response
  pub cache : Option Cache
  pub when : Option Condition
  pub unless : Option Condition
  pub timeout : Str

pub record Composition : Type 0 where
  pub strategy : Str
  pub priority : ℤ

pub record Gate : Type 0 where
  pub enabled : Bool
  pub min_token_len : ℤ

pub record Performance : Type 0 where
  pub max_length : ℤ
  pub timeout : Str
  pub per_rule_timeout : Str
  pub total_scan_timeout : Str
  pub gate : Gate

pub record Override : Type 0 where
  pub rule_id : Str
  pub severity : Str
  pub enabled : Option Bool

pub record RulePack : Type 0 where
  pub api_version : Str
  pub kind : Str
  pub metadata : Metadata
  pub rules : List Rule
  pub extends : List Str
  pub imports : List Str
  pub composition : Option Composition
  pub performance : Option Performance
  pub overrides : List Override
  pub context : Map Str
  pub source_path : Str
