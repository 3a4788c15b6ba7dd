-- ===== src/Group.antt =====
-- The data of backend/app/core/preclassifier.py: the groups that the pre-classifier forms and that
-- every later stage of the planner rearranges.
use virtvalidation.Base.{
  ℕ, Bool, not, Option, none, some, List, [], ◌∷◌, ◌++◌, ◌==◌, nat_Eq, list_Eq, count_by, ◌≡◌, refl,
  sym,
}
use virtvalidation.Base.Dicts.{Dict}
use virtvalidation.Base.Texts.{Text, codes, decimal}
use mathlib.Core.List.{append_assoc}

pub record GroupKey : Type 0 where
  pub vcenter_id : Option ℕ
  pub target_namespace : Text
  pub role : Text
  pub state : Text
  pub discriminator : Text
  pub environment : Text
  pub target_cluster_id : Option ℕ

pub record RiskAssessment : Type 0 where
  pub level : Text
  pub factors : List Text
  pub mitigations : List Text
  pub rollback_complexity : Text
  pub estimated_downtime : Text

pub record HaMember : Type 0 where
  pub vm_id : ℕ
  pub vm_name : Text
  pub ha_role : Text

pub record VmGroup : Type 0 where
  pub key : GroupKey
  pub vm_ids : List ℕ
  pub shared_attributes : Dict Text (List Text)
  pub estimated_role : Text
  pub estimated_state : Text
  pub migration_risk : Text
  pub dependency_hints : List Text
  pub notes : Text
  pub risk_assessment : Option RiskAssessment
  pub ha_members : List HaMember

-- `f"vc{id}"`, or `vc?` without an id
unfoldable pub prefixed_id : Text → Option ℕ → Text
prefixed_id prefix none = prefix ++ codes "?"
prefixed_id prefix (some n) = prefix ++ decimal n

-- `s or default`
abbrev pub or_text : Text → Text → Text
or_text [] t = t
or_text (c ∷ s) t = c ∷ s

-- `GroupKey.as_string`
unfoldable pub as_string : GroupKey → Text
unfolding prefixed_id decimal
as_string k =
    prefixed_id (codes "vc") k.vcenter_id
    ++ codes "/"
    ++ prefixed_id (codes "tc") k.target_cluster_id
    ++ codes "/"
    ++ or_text k.target_namespace (codes "default")
    ++ codes "/"
    ++ k.environment
    ++ codes "/"
    ++ k.role
    ++ codes "/"
    ++ k.state
    ++ codes "/"
    ++ k.discriminator

-- `VMGroup.id`
unfoldable pub group_id : VmGroup → Text
unfolding as_string
group_id g = as_string g.key

-- `m.ha_role != "standalone"`
unfoldable pub is_ha_peer : HaMember → Bool
is_ha_peer m = not (m.ha_role == codes "standalone")

-- `sum(1 for m in group.ha_members if m.ha_role != "standalone")`
unfoldable pub ha_count : VmGroup → ℕ
unfolding is_ha_peer
ha_count g = count_by is_ha_peer g.ha_members

-- The VM ids of a list of groups, as the loop of `Wave.vm_ids` collects them.
unfoldable pub ids_of : List VmGroup → List ℕ
ids_of [] = []
ids_of (g ∷ gs) = g.vm_ids ++ ids_of gs

pub ids_of-append : (gs hs : List VmGroup) → ids_of (gs ++ hs) ≡ ids_of gs ++ ids_of hs
unfolding ids_of
ids_of-append [] hs = refl
ids_of-append (g ∷ gs) hs =
    rw (ids_of-append gs hs) (sym (append_assoc g.vm_ids (ids_of gs) (ids_of hs)))
