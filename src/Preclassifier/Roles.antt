-- ===== src/Preclassifier/Roles.antt =====
-- `detect_role`, `detect_state` and the patterns of names behind them.
use virtvalidation.Base.{
  ℕ, Bool, ◌||◌, List, [], ◌∷◌, if◌then◌else◌, ◌==◌, nat_Eq, option_Eq, list_Eq, filter_by, any_by,
}
use virtvalidation.Base.Dicts.{Dict}
use virtvalidation.Base.Texts.{Text, codes, is_alnum, lower, join}
use virtvalidation.Base.Distinct.{contains}
use virtvalidation.Preclassifier.Source.{SourceVm, label, non_empty}

-- A character of `\w`.
abbrev is_word : ℕ → Bool
is_word c = is_alnum c || c == b'_'

abbrev grow_word : ℕ → List Text → List Text
grow_word c [] = (c ∷ []) ∷ []
grow_word c (w ∷ ws) = (c ∷ w) ∷ ws

-- The longest runs of word characters, with empty runs between the others.
unfoldable pub words : Text → List Text
words [] = [] ∷ []
words (c ∷ s) = let rest = words s in if is_word c then grow_word c rest else [] ∷ rest

-- `\b(w1|w2|...)\b` found anywhere, case ignored: one of the runs is one of the words.
unfoldable pub has_word : List Text → Text → Bool
unfolding words
has_word patterns s = any_by (contains patterns) (words (lower s))

abbrev pub edge_words : List Text
edge_words =
    codes "lb"
    ∷ codes "haproxy"
    ∷ codes "proxy"
    ∷ codes "edge"
    ∷ codes "gateway"
    ∷ codes "router"
    ∷ codes "ingress"
    ∷ codes "envoy"
    ∷ []

abbrev pub data_words : List Text
data_words =
    codes "db"
    ∷ codes "sql"
    ∷ codes "postgres"
    ∷ codes "oracle"
    ∷ codes "mongo"
    ∷ codes "mysql"
    ∷ codes "mariadb"
    ∷ codes "redis"
    ∷ codes "cache"
    ∷ codes "kafka"
    ∷ codes "rabbit"
    ∷ codes "memcache"
    ∷ codes "imaging"
    ∷ codes "process"
    ∷ []

abbrev pub infrastructure_words : List Text
infrastructure_words =
    codes "ad"
    ∷ codes "dc"
    ∷ codes "rhidm"
    ∷ codes "domain"
    ∷ codes "ldap"
    ∷ codes "dns"
    ∷ codes "ntp"
    ∷ codes "kdc"
    ∷ codes "vault"
    ∷ codes "consul"
    ∷ codes "pki"
    ∷ codes "cert"
    ∷ codes "hsm"
    ∷ codes "kms"
    ∷ codes "backup"
    ∷ codes "snapshot"
    ∷ []

abbrev pub web_words : List Text
web_words =
    codes "web"
    ∷ codes "www"
    ∷ codes "nginx"
    ∷ codes "apache"
    ∷ codes "httpd"
    ∷ codes "caddy"
    ∷ codes "iis"
    ∷ []

abbrev pub app_words : List Text
app_words =
    codes "app"
    ∷ codes "api"
    ∷ codes "service"
    ∷ codes "svc"
    ∷ codes "backend"
    ∷ codes "worker"
    ∷ codes "tomcat"
    ∷ codes "jboss"
    ∷ codes "wildfly"
    ∷ []

-- `_ROLE_PATTERNS`
abbrev pub role_patterns : Dict Text (List Text)
role_patterns =
    (codes "edge", edge_words)
    ∷ (codes "data", data_words)
    ∷ (codes "infrastructure", infrastructure_words)
    ∷ (codes "web", web_words)
    ∷ (codes "app", app_words)
    ∷ []

abbrev pub known_roles : List Text
known_roles =
    codes "web"
    ∷ codes "app"
    ∷ codes "data"
    ∷ codes "edge"
    ∷ codes "infrastructure"
    ∷ codes "other"
    ∷ []

-- The loops over the patterns: the first that is found, or the default.
unfoldable pub first_pattern : Text → Dict Text (List Text) → Text → Text
unfolding has_word
first_pattern default [] s = default
first_pattern default ((name, patterns) ∷ rest) s =
    let later = first_pattern default rest s in if has_word patterns s then name else later

-- `haystack`
unfoldable pub haystack : SourceVm → Text
unfolding join
haystack v = join (codes " ") (filter_by non_empty (v.name ∷ v.role ∷ v.application_hint ∷ []))

unfoldable pub detect_role : SourceVm → Text
unfolding label first_pattern haystack
detect_role v =
    if contains known_roles (label v.role)
    then label v.role
    else first_pattern (codes "other") role_patterns (haystack v)

-- The roles that are pinned stateful, and those that are stateless.
abbrev pub stateful_roles : List Text
stateful_roles = codes "data" ∷ codes "infrastructure" ∷ []

abbrev pub stateless_roles : List Text
stateless_roles = codes "web" ∷ codes "app" ∷ codes "edge" ∷ []

-- `detect_state`, which does not read its VM
unfoldable pub detect_state : Text → Text
detect_state role =
    if contains stateful_roles role
    then codes "stateful"
    else if contains stateless_roles role
    then codes "stateless"
    else codes "unknown"
