-- ===== src/Node/Removing.antt =====
-- The removal of an installed rule.
use m_nslp.Prelude.{◌≡◌, ◌∷◌, ltb, arith, if◌then◌else◌}
use m_nslp.Platform.{Platform}
use m_nslp.Rule.{PolicyRule, get_number_rule_keys}
use m_nslp.Node.{Node, remove_installed}
use m_nslp.Node.Monad.{Ctx, World, ok, rules_removed}

module _ {P : Platform} where
  -- The installer removes the rule with all its keys.
  abbrev pub Removes : Node P → PolicyRule P → Type 0
  Removes d r =
      (result : PolicyRule P) × (d.installer.remove r ≡ ok result)
      × (get_number_rule_keys result ≡ get_number_rule_keys r)

  abbrev pub after_removal : PolicyRule P → World P → World P
  after_removal r w = record w {
    log = if ltb 0 (get_number_rule_keys r) then rules_removed r ∷ w.log else w.log;
  }

  pub remove_installed_lem :
      {S : Type 0} (d : Node P) (r : PolicyRule P) (c : Ctx P S)
      → Removes d r
      → remove_installed d r c ≡ (ok tt, record c { world = after_removal r c.world })
  unfolding remove_installed
  remove_installed_lem d r c rem = ground arith
