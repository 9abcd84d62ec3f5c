-- ===== src/Rule/Laws.antt =====
-- A copy of a rule is the rule; an assignment to a rule that is not empty is a merge.
use m_nslp.Prelude.{ℕ, ◌≡◌, is_some, if◌then◌else◌}
use m_nslp.Platform.{Platform}
use m_nslp.Map.{find}
use m_nslp.Map.Laws
use m_nslp.Rule.{PolicyRule, assign_rule, copy}

module _ {P : Platform} where
  -- Both maps of the rule are in order.
  pub record IsRule (r : PolicyRule P) : Type 0 where
    pub objects_sorted : Laws.IsSorted r.objects
    pub rule_keys_sorted : Laws.IsSorted r.rule_keys

  -- A copy has the same objects under the same keys and the same installed names.
  pub copy_rule-eq : (r : PolicyRule P) → IsRule r → copy r ≡ r
  unfolding copy
  copy_rule-eq r h = rw (
    (Laws.fill_empty r.objects h.objects_sorted).0,
    (Laws.fill_empty r.rule_keys h.rule_keys_sorted).1,
  )

  -- Assignment does not empty the rule that it writes to: an object that only the old rule has
  -- stays, and the others are those of the new rule.
  find-assign_rule :
      (j : ℕ) (self rhs : PolicyRule P)
      → IsRule self
      → IsRule rhs
      → find j (assign_rule self rhs).objects
        ≡ (if is_some (find j rhs.objects) then find j rhs.objects else find j self.objects)
  unfolding assign_rule
  find-assign_rule j self rhs p q =
      Laws.find-assign_all j rhs.objects self.objects q.objects_sorted p.objects_sorted
