-- ===== src/Preclassifier/Source.antt =====
-- The rows that the pre-classifier reads, and its small operations on texts and sets.
use virtvalidation.Base.{
  ℕ, ◌≡◌, ◌↔◌, Bool, true, false, ◌&&◌, Option, some, List, [], ◌∷◌, map, arith, if◌then◌else◌, Eq,
  ◌==◌, nat_Eq, option_Eq, list_Eq, option_eq_iff, list_eq_iff, filter_by,
}
use virtvalidation.Base.Texts.{Text, lower}
use virtvalidation.Base.Distinct.{contains}
use virtvalidation.Environment.{is_space, normalize, environment_value}

-- The columns of `VM` that the pre-classifier reads. A text column that is null counts as an empty
-- text, as the source's `or ""` has it.
pub record SourceVm : Type 0 where
  pub id : ℕ
  pub name : Text
  pub role : Text
  pub application_hint : Text
  pub environment : Text
  pub os_family : Text
  pub source_vcenter_id : Option ℕ
  pub target_cluster_id_override : Option ℕ
  pub target_namespace_override : Text
  pub vsphere_networks : List Text
  pub vsphere_datastores : List Text

abbrev pub vm_ids_of : List SourceVm → List ℕ
vm_ids_of vms = map (λ (v : SourceVm). v.id) vms

abbrev strip_start : Text → Text
strip_start [] = []
strip_start (c ∷ s) = let rest = strip_start s in if is_space c then rest else c ∷ s

abbrev keep_inner : ℕ → Text → Text
keep_inner c [] = if is_space c then [] else c ∷ []
keep_inner c (d ∷ s) = c ∷ d ∷ s

abbrev strip_end : Text → Text
strip_end [] = []
strip_end (c ∷ s) = keep_inner c (strip_end s)

-- `s.strip()`, and `s.strip().lower()`
unfoldable pub strip : Text → Text
strip s = strip_end (strip_start s)

unfoldable pub label : Text → Text
unfolding strip
label s = lower (strip s)

-- The primary key of a VM: vCenter, target cluster, target namespace and environment.
pub record PrimaryKey : Type 0 where
  pub vcenter_id : Option ℕ
  pub cluster_id : Option ℕ
  pub namespace : Text
  pub environment : Text

unfoldable pub primary_key : SourceVm → PrimaryKey
unfolding strip
primary_key v = record {
  vcenter_id = v.source_vcenter_id;
  cluster_id = v.target_cluster_id_override;
  namespace = strip v.target_namespace_override;
  environment = environment_value (normalize (some v.environment));
}

abbrev key_eq : PrimaryKey → PrimaryKey → Bool
key_eq a b =
    a.vcenter_id == b.vcenter_id
    && a.cluster_id == b.cluster_id
    && a.namespace == b.namespace
    && a.environment == b.environment

pub key_eq_iff : (a b : PrimaryKey) → (key_eq a b ≡ true) ↔ (a ≡ b)
key_eq_iff a b = ground (
  arith,
  option_eq_iff a.vcenter_id b.vcenter_id,
  option_eq_iff a.cluster_id b.cluster_id,
  list_eq_iff a.namespace b.namespace,
  list_eq_iff a.environment b.environment,
)

instance abbrev pub primary_key_Eq : Eq PrimaryKey
primary_key_Eq = record { beq = key_eq; beq_iff = key_eq_iff }

-- `set(xs)` as a list
abbrev pub as_set : List Text → List Text
as_set [] = []
as_set (x ∷ xs) = let rest = as_set xs in if contains rest x then rest else x ∷ rest

abbrev pub non_empty {ℓ} : {A : Type ℓ} → List A → Bool
non_empty [] = false
non_empty (x ∷ xs) = true

-- `[set(x) for x in items if x]`
unfoldable pub filled_sets : List (List Text) → List (List Text)
filled_sets [] = []
filled_sets ([] ∷ items) = filled_sets items
filled_sets ((x ∷ xs) ∷ items) = as_set (x ∷ xs) ∷ filled_sets items

unfoldable pub intersect_all : List Text → List (List Text) → List Text
intersect_all out [] = out
intersect_all out (s ∷ sets) = intersect_all (filter_by (contains s) out) sets

abbrev intersection : List (List Text) → List Text
intersection [] = []
intersection (s ∷ sets) = intersect_all s sets

-- `_shared_overlap`
unfoldable pub shared_overlap : List (List Text) → List Text
unfolding filled_sets intersect_all
shared_overlap items = intersection (filled_sets items)

-- The names of a dimension that all VMs share, and the values of a column in sorted order.
abbrev pub shared_networks : List SourceVm → List Text
shared_networks vms = shared_overlap (map (λ (v : SourceVm). v.vsphere_networks) vms)

abbrev pub shared_datastores : List SourceVm → List Text
shared_datastores vms = shared_overlap (map (λ (v : SourceVm). v.vsphere_datastores) vms)

-- `{label(f(vm)) for vm in vms if f(vm)}`
unfoldable pub column_values : (SourceVm → Text) → List SourceVm → List Text
unfolding label
column_values f vms =
    as_set (map (λ (v : SourceVm). label (f v)) (filter_by (λ (v : SourceVm). non_empty (f v)) vms))
