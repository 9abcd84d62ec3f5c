-- ===== src/Tests/Rules.antt =====
-- The laws of rules and of the placing of specifications at concrete values.
use m_nslp.Prelude.{[], ◌∷◌, arith}
use m_nslp.Map.{find}
use m_nslp.Rule.{PolicyRule}
use m_nslp.Rule.Laws.{IsRule}
use m_nslp.Session.Placing.{IsFresh}
use m_nslp.Tests.{net, node}

abbrev two_objects : PolicyRule net
two_objects = record { objects = (1, 4) ∷ (3, 5) ∷ []; rule_keys = [] }

abbrev one_object : PolicyRule net
one_object = record { objects = (2, 6) ∷ []; rule_keys = [] }

two_objects-IsRule : IsRule two_objects
two_objects-IsRule = record { objects_sorted = (omega arith, tt); rule_keys_sorted = tt }

one_object-IsRule : IsRule one_object
one_object-IsRule = record { objects_sorted = tt; rule_keys_sorted = tt }

two_objects-IsFresh : IsFresh node (λ i j e. e) 4 two_objects
unfolding find
two_objects-IsFresh = record { sorted = (omega arith, tt); unused = λ i l. ground arith }
