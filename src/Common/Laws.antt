-- ===== src/Common/Laws.antt =====
-- The tests of tags and VLANs, and what a request for devices asks.
use machinecfg.Prelude.{
  ℕ, String, ◌≡◌, refl, ◌⊎◌, ◌↔◌, inl, inr, Bool, true, false, List, [], ◌∷◌, ◌++◌, Exists, eq_iff,
  nat_beq_iff, ◌==◌, nat_eq, string_eq, if◌then◌else◌,
}
use mathlib.Core.Bool.{false≢true}
use machinecfg.Effect.{Outcome, ok, err, panic}
use machinecfg.Text.{to_lower}
use machinecfg.Netbox.{Netbox, Page, Query, Param, Device, Vlan}
use machinecfg.Common.Filters.{DeviceFilters, base_params, filter_params}
use machinecfg.Common.{has_tag_from, has_dhcp_tag, vlan_in_from, is_vlan_id_in_vlan_list}

-- One round of a loop that sets its answer at an element that passes.
module _ {P R : Type 0} {rest : Bool → Bool}
    (more : (b : Bool) → (rest b ≡ true) ↔ ((b ≡ true) ⊎ R)) where
  round-of-search :
      (test answer : Bool)
      → (test ≡ true) ↔ P
      → (rest (if test then true else answer) ≡ true) ↔ ((answer ≡ true) ⊎ (P ⊎ R))
  round-of-search true answer (to, from) =
      ((λ _. inr (inl (to refl))), λ _. (more true).1 (inl refl))
  round-of-search false answer (to, from) = (
    (λ h. elim ((more answer).0 h) [ inl e ↦ inl e | inr r ↦ inr (inr r) ]),
    λ h. elim h [
      | inl e ↦ (more answer).1 (inl e)
      | inr (inl p) ↦ absurd (false≢true (from p))
      | inr (inr r) ↦ (more answer).1 (inr r)
    ],
  )

-- Nothing is left but the answer so far.
end-of-search : (answer : Bool) → (answer ≡ true) ↔ ((answer ≡ true) ⊎ ⊥)
end-of-search answer = (inl, λ h. elim h [ inl e ↦ e | inr e ↦ absurd e ])

has_tag_from-Exists :
    (answer : Bool) (tags : List String)
    → (has_tag_from answer tags ≡ true) ↔ ((answer ≡ true) ⊎ Exists (λ t. to_lower t ≡ "dhcp") tags)
unfolding has_tag_from
has_tag_from-Exists answer [] = end-of-search answer
has_tag_from-Exists answer (tag ∷ tags) =
    round-of-search {rest = λ b. has_tag_from b tags} (λ b. has_tag_from-Exists b tags)
      (to_lower tag == "dhcp") answer (eq_iff (to_lower tag) "dhcp")

-- The loop over the tags answers yes exactly if some tag is "dhcp" in some mix of cases.
pub has_dhcp_tag-Exists :
    (tags : List String) → (has_dhcp_tag tags ≡ true) ↔ Exists (λ t. to_lower t ≡ "dhcp") tags
unfolding has_dhcp_tag
has_dhcp_tag-Exists tags =
    let (to, from) = has_tag_from-Exists false tags in
    ((λ h. elim (to h) [ inl e ↦ absurd (false≢true e) | inr p ↦ p ]), λ p. from (inr p))

vlan_in_from-Exists :
    (answer : Bool) (vlan_id : ℕ) (vlans : List Vlan)
    → (vlan_in_from answer vlan_id vlans ≡ true)
      ↔ ((answer ≡ true) ⊎ Exists (λ v. v.vid ≡ vlan_id) vlans)
unfolding vlan_in_from
vlan_in_from-Exists answer vlan_id [] = end-of-search answer
vlan_in_from-Exists answer vlan_id (v ∷ vlans) =
    round-of-search {rest = λ b. vlan_in_from b vlan_id vlans}
      (λ b. vlan_in_from-Exists b vlan_id vlans) (v.vid == vlan_id) answer
      (nat_beq_iff v.vid vlan_id)

-- The loop over the VLANs answers yes exactly if some VLAN has the number.
pub is_vlan_id_in_vlan_list-Exists :
    (vlan_id : ℕ) (vlans : List Vlan)
    → (is_vlan_id_in_vlan_list vlan_id vlans ≡ true) ↔ Exists (λ v. v.vid ≡ vlan_id) vlans
unfolding is_vlan_id_in_vlan_list
is_vlan_id_in_vlan_list-Exists vlan_id vlans =
    let (to, from) = vlan_in_from-Exists false vlan_id vlans in
    ((λ h. elim (to h) [ inl e ↦ absurd (false≢true e) | inr p ↦ p ]), λ p. from (inr p))

-- The loop over the tags answers yes exactly if some tag is "dhcp" in some mix of cases, and the
-- loop over the VLANs exactly if some VLAN has the number.
pub searches-Exist :
    (tags : List String) (vlan_id : ℕ) (vlans : List Vlan)
    → ((has_dhcp_tag tags ≡ true) ↔ Exists (λ t. to_lower t ≡ "dhcp") tags)
      × ((is_vlan_id_in_vlan_list vlan_id vlans ≡ true) ↔ Exists (λ v. v.vid ≡ vlan_id) vlans)
searches-Exist tags vlan_id vlans =
    (has_dhcp_tag-Exists tags, is_vlan_id_in_vlan_list-Exists vlan_id vlans)

module _ (N : Netbox) where
  -- The request that `GetDevices` sends, given the numbers of the clusters.
  abbrev pub request : DeviceFilters → List ℕ → Query
  request filters [] = base_params filters ++ filter_params filters
  request filters (i ∷ ids) =
      (base_params filters ++ filter_params filters) ++ Param.cluster_id (i ∷ ids) ∷ []

  abbrev devices_of : Outcome (Page Device) → List Device
  devices_of (ok page) = page.results
  devices_of (err e) = []
  devices_of panic = []

  abbrev count_of : Outcome (Page Device) → ℕ
  count_of (ok page) = page.count
  count_of (err e) = 0
  count_of panic = 0
