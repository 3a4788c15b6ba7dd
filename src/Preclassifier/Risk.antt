-- ===== src/Preclassifier/Risk.antt =====
-- `detect_risk` and `assess_risk`.
use virtvalidation.Base.{
  ℕ, Bool, true, false, ◌&&◌, List, [], ◌∷◌, ◌++◌, map, ltb, leb, if◌then◌else◌, ◌==◌, nat_Eq,
  option_Eq, list_Eq, length, count_by,
}
use virtvalidation.Base.Texts.{Text, codes, decimal}
use virtvalidation.Base.Distinct.{contains}
use virtvalidation.Group.{RiskAssessment, HaMember, is_ha_peer}
use virtvalidation.Preclassifier.Roles.{stateful_roles, stateless_roles}

unfoldable pub detect_risk : Text → Text → ℕ → Bool → Text
detect_risk role state vm_count has_sequential_names =
    if state == codes "stateful" && contains stateful_roles role
    then codes "high"
    else if state == codes "stateless" && contains stateless_roles role
    then (if leb vm_count 3 then codes "low" else codes "medium")
    else codes "medium"

-- A factor with the mitigation that is listed for it.
abbrev pub Finding : Type 0
Finding = Text × Text

-- `if ...: factors.append(...); mitigations.append(...)`
abbrev pub when : Bool → Finding → List Finding
when true f = f ∷ []
when false f = []

abbrev pub stateful_finding : Finding
stateful_finding = (
  codes "Stateful service with persistent data",
  codes "Verify backup completed within 4 hours of migration",
)

abbrev pub data_finding : Finding
data_finding = (
  codes "Database / data tier — connection loss affects dependent applications",
  codes "Coordinate with application team for connection draining before migration",
)

abbrev pub infrastructure_finding : Finding
infrastructure_finding = (
  codes "Infrastructure service — failure affects entire cluster",
  codes "Ensure secondary AD / DNS / PKI available during migration",
)

abbrev pub single_finding : Finding
single_finding = (
  codes "No HA replication detected — single point of failure",
  codes
      "Consider establishing HA replica before migration or schedule a documented maintenance window",
)

abbrev pub sequential_finding : ℕ → Finding
sequential_finding vm_count = (
  codes "Sequential cluster of "
      ++ decimal vm_count
      ++ codes " members — coordinated cutover across multiple nodes",
  codes
      "Spread HA members across waves (ha_strategy=spread is the default) so at least one node serves the original infrastructure throughout the migration window",
)

abbrev pub large_finding : ℕ → Finding
large_finding vm_count = (
  codes "Large group ("
      ++ decimal vm_count
      ++ codes " VMs) — migration time and rollback complexity scale with member count",
  codes "Run pilot migration on 2-3 representative VMs in a lower environment before the full wave",
)

-- The factors of `assess_risk` with their mitigations.
unfoldable pub risk_findings : Text → Text → ℕ → List HaMember → Bool → List Finding
unfolding is_ha_peer
risk_findings role state vm_count ha_members has_sequential_names =
    let stateful = state == codes "stateful" in
    when stateful stateful_finding
    ++ (if role == codes "data"
        then data_finding ∷ []
        else when (role == codes "infrastructure") infrastructure_finding)
    ++ when (stateful && ltb (count_by is_ha_peer ha_members) 2) single_finding
    ++ when (has_sequential_names && leb 2 vm_count) (sequential_finding vm_count)
    ++ when (ltb 10 vm_count) (large_finding vm_count)

unfoldable pub risk_level : ℕ → Text
risk_level n = if leb 3 n then codes "high" else if leb 1 n then codes "medium" else codes "low"

unfoldable pub rollback_complexity : Text → Text → Text
rollback_complexity role state =
    if state == codes "stateful"
    then codes "high"
    else if role == codes "infrastructure"
    then codes "medium"
    else codes "low"

unfoldable pub estimated_downtime : Text → Text → Text
estimated_downtime role state =
    if state == codes "stateless"
    then codes "0 (live migration possible)"
    else if role == codes "data"
    then codes "10-30 minutes per VM (connection drain + cutover)"
    else codes "5-15 minutes per VM"

unfoldable pub assess_risk : Text → Text → ℕ → List HaMember → Bool → RiskAssessment
unfolding risk_findings risk_level rollback_complexity estimated_downtime
assess_risk role state vm_count ha_members has_sequential_names =
    let findings = risk_findings role state vm_count ha_members has_sequential_names in
    record {
      level = risk_level (length findings);
      factors = map (λ (f : Finding). f.0) findings;
      mitigations = map (λ (f : Finding). f.1) findings;
      rollback_complexity = rollback_complexity role state;
      estimated_downtime = estimated_downtime role state;
    }
