-- ===== src/Environment.antt =====
-- backend/app/core/environment.py: the labels of the environments, and the cascade of signals that
-- finds one for a VM.
pub mod Labels
pub mod Cascade
use virtvalidation.Base.{
  ℕ, ◌-◌, ◌/◌, Bool, not, ◌&&◌, ◌||◌, Option, none, some, List, [], ◌∷◌, leb, if◌then◌else◌, Eq,
  nat_Eq, option_Eq, list_Eq, length, filter_by,
}
use virtvalidation.Base.Dicts.{Dict, get}
use virtvalidation.Base.Texts.{starts_with, Text, codes, lower}
use virtvalidation.Base.Sorting.{sorted}

pub data Environment : Type 0 where
  production development test staging dr infrastructure db_only non_prod unknown : Environment

-- The values of the enumeration.
abbrev pub environment_value : Environment → Text
environment_value Environment.production = codes "production"
environment_value Environment.development = codes "development"
environment_value Environment.test = codes "test"
environment_value Environment.staging = codes "staging"
environment_value Environment.dr = codes "dr"
environment_value Environment.infrastructure = codes "infrastructure"
environment_value Environment.db_only = codes "db_only"
environment_value Environment.non_prod = codes "non_prod"
environment_value Environment.unknown = codes "unknown"

-- `_ALIASES`
abbrev pub aliases : Dict Text Environment
aliases =
    (codes "prod", Environment.production)
    ∷ (codes "prd", Environment.production)
    ∷ (codes "production", Environment.production)
    ∷ (codes "live", Environment.production)
    ∷ (codes "dev", Environment.development)
    ∷ (codes "develop", Environment.development)
    ∷ (codes "development", Environment.development)
    ∷ (codes "sandbox", Environment.development)
    ∷ (codes "san", Environment.development)
    ∷ (codes "test", Environment.test)
    ∷ (codes "tst", Environment.test)
    ∷ (codes "qa", Environment.test)
    ∷ (codes "uat", Environment.test)
    ∷ (codes "stg", Environment.staging)
    ∷ (codes "stage", Environment.staging)
    ∷ (codes "staging", Environment.staging)
    ∷ (codes "preprod", Environment.staging)
    ∷ (codes "pre-prod", Environment.staging)
    ∷ (codes "dr", Environment.dr)
    ∷ (codes "disaster", Environment.dr)
    ∷ (codes "disasterrecovery", Environment.dr)
    ∷ (codes "disaster-recovery", Environment.dr)
    ∷ (codes "failover", Environment.dr)
    ∷ (codes "infra", Environment.infrastructure)
    ∷ (codes "infrastructure", Environment.infrastructure)
    ∷ (codes "shared", Environment.infrastructure)
    ∷ (codes "ad", Environment.infrastructure)
    ∷ (codes "dc", Environment.infrastructure)
    ∷ (codes "identity", Environment.infrastructure)
    ∷ (codes "db", Environment.db_only)
    ∷ (codes "database", Environment.db_only)
    ∷ (codes "data", Environment.db_only)
    ∷ (codes "nonprod", Environment.non_prod)
    ∷ (codes "non-prod", Environment.non_prod)
    ∷ (codes "non_prod", Environment.non_prod)
    ∷ (codes "lower", Environment.non_prod)
    ∷ (codes "unknown", Environment.unknown)
    ∷ ([], Environment.unknown)
    ∷ []

abbrev pub is_space : ℕ → Bool
is_space c = leb 9 c && leb c 13 || leb 28 c && leb c 32

-- `re.sub(r"\s+", "", value.strip().lower())`
unfoldable pub alias_key : Text → Text
alias_key value = lower (filter_by (λ c. not (is_space c)) value)

-- `sorted(_ALIASES, key=len, reverse=True)`
abbrev pub longer_first : Text × Environment → Text × Environment → Bool
longer_first a b = leb (length b.0) (length a.0)

unfoldable pub aliases_by_length : Dict Text Environment
unfolding sorted
aliases_by_length = sorted longer_first aliases

-- The loop of the looser prefix match.
unfoldable pub first_prefix : Dict Text Environment → Text → Environment
first_prefix [] key = Environment.unknown
first_prefix (([], env) ∷ rest) key = first_prefix rest key
first_prefix ((c ∷ alias, env) ∷ rest) key =
    let later = first_prefix rest key in if starts_with (c ∷ alias) key then env else later

unfoldable pub lookup_alias : Text → Environment
unfolding first_prefix aliases_by_length
lookup_alias [] = Environment.unknown
lookup_alias (c ∷ key) = elim (get (c ∷ key) aliases) [
  | some env ↦ env
  | none ↦ first_prefix aliases_by_length (c ∷ key)
]

unfoldable pub normalize : Option Text → Environment
unfolding lookup_alias alias_key
normalize none = Environment.unknown
normalize (some []) = Environment.unknown
normalize (some (c ∷ s)) = lookup_alias (alias_key (c ∷ s))

pub record DetectionResult : Type 0 where
  pub environment : Environment
  pub confidence : Text
  pub signal : Text

abbrev pub folder_rules : Dict Text Environment
folder_rules =
    (codes "/preprod", Environment.staging)
    ∷ (codes "/staging", Environment.staging)
    ∷ (codes "/production", Environment.production)
    ∷ (codes "/disaster", Environment.dr)
    ∷ (codes "/identity", Environment.infrastructure)
    ∷ (codes "/develop", Environment.development)
    ∷ (codes "/infra", Environment.infrastructure)
    ∷ (codes "/shared", Environment.infrastructure)
    ∷ (codes "/prod", Environment.production)
    ∷ (codes "/stg", Environment.staging)
    ∷ (codes "/dev", Environment.development)
    ∷ (codes "/test", Environment.test)
    ∷ (codes "/uat", Environment.test)
    ∷ (codes "/qa", Environment.test)
    ∷ (codes "/dr", Environment.dr)
    ∷ []

abbrev pub cluster_rules : Dict Text Environment
cluster_rules =
    (codes "prod", Environment.production)
    ∷ (codes "dev", Environment.development)
    ∷ (codes "test", Environment.test)
    ∷ (codes "qa", Environment.test)
    ∷ (codes "dr", Environment.dr)
    ∷ (codes "staging", Environment.staging)
    ∷ (codes "stg", Environment.staging)
    ∷ (codes "infra", Environment.infrastructure)
    ∷ []

-- `_NAME_PREFIX_RE` and `_NAME_PREFIX_TO_ENV`: the alternatives with their environments
abbrev pub name_prefixes : Dict Text Environment
name_prefixes =
    (codes "prod", Environment.production)
    ∷ (codes "dev", Environment.development)
    ∷ (codes "test", Environment.test)
    ∷ (codes "stg", Environment.staging)
    ∷ (codes "dr", Environment.dr)
    ∷ (codes "infra", Environment.infrastructure)
    ∷ (codes "ehrstaging", Environment.staging)
    ∷ (codes "ehrdr", Environment.dr)
    ∷ []

-- The alternatives of `_DB_HEURISTIC_RE`.
abbrev pub db_words : List Text
db_words =
    codes "database"
    ∷ codes "postgres"
    ∷ codes "mariadb"
    ∷ codes "mongodb"
    ∷ codes "mysql"
    ∷ codes "mongo"
    ∷ codes "oracle"
    ∷ codes "redis"
    ∷ codes "sql"
    ∷ codes "db"
    ∷ []
