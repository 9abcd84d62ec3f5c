-- ===== src/Netmate/Installer/Removal.antt =====
-- The removal of rules from the meter.
use m_nslp.Prelude.{
  ℕ, ◌+◌, ◌≡◌, ◌≢◌, refl, ap, Option, none, some, List, [], ◌∷◌, ◌++◌, ◌⊎◌, inl, inr, arith, length,
  length-append,
}
use m_nslp.Platform.{Platform}
use m_nslp.Map.Laws
use m_nslp.Node.{Node, remove_installed}
use m_nslp.Node.Monad.{Ctx, ok}
use m_nslp.Node.Removing.{after_removal, remove_installed_lem}
use m_nslp.Rule.{Name, PolicyRule, set_commands, clear_commands, get_number_rule_keys}
use m_nslp.Rule.Laws.{IsRule, copy_rule-eq}
use m_nslp.Ipfix.Message.{Message}
use m_nslp.Netmate.Names.{codes}
use m_nslp.Netmate.Meter.{
  Config, Meter, Request, Answer, answered, no_handle, transfer_failed, no_content_info,
  no_code_info, execute_command, after_transfer, connection_broken, request_of,
}
use m_nslp.Netmate.Installer.{removal_of, remove_names, remove_objects, remove, netmate_installer}

-- Whatever the meter answers, or does not answer, an answer names its content type.
abbrev pub NamesContent : Meter → Type 0
NamesContent meter =
    (sent : List Request) (r : Request) (code : ℕ) → meter sent r ≢ answered code none

after_transfer_cases :
    (a : Answer)
    → ((code : ℕ) → a ≢ answered code none)
    → (after_transfer a ≡ ok tt) ⊎ (after_transfer a ≡ connection_broken)
unfolding after_transfer
after_transfer_cases (answered code (some content)) h = inl refl
after_transfer_cases (answered code none) h = absurd (h code refl)
after_transfer_cases no_handle h = inr refl
after_transfer_cases transfer_failed h = inr refl
after_transfer_cases no_content_info h = inr refl
after_transfer_cases no_code_info h = inr refl

execute_command-after_transfer :
    (cfg : Config) (meter : Meter) (action post : Name) (sent : List Request)
    → (execute_command cfg meter action post sent).0
      ≡ after_transfer (meter sent (request_of cfg action post))
unfolding execute_command after_transfer
execute_command-after_transfer cfg meter action post sent = ground arith

-- A command is executed, or its failure is an exception that the installer catches.
pub execute_command_cases :
    (cfg : Config) (meter : Meter) (action post : Name) (sent : List Request)
    → NamesContent meter
    → ((execute_command cfg meter action post sent).0 ≡ ok tt)
      ⊎ ((execute_command cfg meter action post sent).0 ≡ connection_broken)
execute_command_cases cfg meter action post sent h =
    rw (execute_command-after_transfer cfg meter action post sent)
      (after_transfer_cases _ (h sent (request_of cfg action post)))

remove_names-returns :
    (cfg : Config) (meter : Meter) (names keys : List Name) (sent : List Request)
    → NamesContent meter
    → (removed : List Name) × ((remove_names cfg meter names keys sent).0 ≡ ok removed)
unfolding remove_names
remove_names-returns cfg meter [] keys sent h = (keys, refl)
remove_names-returns cfg meter (k ∷ rest) keys sent h =
    elim (execute_command_cases cfg meter (codes "/rm_task") (removal_of k) sent h) [
      | inl done ↦
          rw (done, remove_names)
            (remove_names-returns cfg meter rest (keys ++ removal_of k ∷ [])
              (execute_command cfg meter (codes "/rm_task") (removal_of k) sent).1 h)
      | inr failed ↦
          rw (failed, remove_names)
            (remove_names-returns cfg meter rest keys
              (execute_command cfg meter (codes "/rm_task") (removal_of k) sent).1 h)
    ]

module _ {P : Platform} (cfg : Config) (meter : Meter) (h : NamesContent meter) where
  remove_objects-counts :
      (s : List (ℕ × List Name)) (keys : List Name) (rule : PolicyRule P) (sent : List Request)
      → Laws.IsSorted s
      → Laws.Precedes rule.rule_keys s
      → (result : PolicyRule P) × ((remove_objects cfg meter s keys rule sent).0 ≡ ok result)
        × (length result.rule_keys ≡ length rule.rule_keys + length s)
        × (result.objects ≡ rule.objects)
  unfolding remove_objects set_commands
  remove_objects-counts [] keys rule sent sorted before = (rule, refl, omega arith, refl)
  remove_objects-counts ((k, names) ∷ rest) keys rule sent sorted before =
      let (removed, e) = remove_names-returns cfg meter names keys sent h in
      let next = set_commands k removed rule in
      let added : next.rule_keys ≡ rule.rule_keys ++ (k, removed) ∷ [] =
        (Laws.append_key k removed rule.rule_keys before).1 in
      let (result, ends, count, same) =
        remove_objects-counts rest removed next (remove_names cfg meter names keys sent).1
          (Laws.IsSorted-of_Above k rest sorted)
          (rw added (Laws.Precedes-append k removed rule.rule_keys rest before sorted)) in
      (
        result,
        rw (e, remove_objects) ends,
        omega (arith, count, ap length added, length-append rule.rule_keys ((k, removed) ∷ [])),
        same,
      )

  remove-returns_keys :
      (r : PolicyRule P) (sent : List Request)
      → IsRule r
      → (result : PolicyRule P) × ((remove cfg meter r sent).0 ≡ ok result)
        × (get_number_rule_keys result ≡ get_number_rule_keys r)
        × (result.objects ≡ r.objects)
  unfolding remove clear_commands get_number_rule_keys
  remove-returns_keys r sent rule =
      let (result, returns, count, same) =
        remove_objects-counts r.rule_keys [] (clear_commands r) sent rule.rule_keys_sorted
          (Laws.Precedes-nil r.rule_keys) in
      rw (copy_rule-eq r rule) (result, returns, omega (arith, count), same)

-- A session that removes a rule from the meter always goes on as if all of it were removed, even if
-- the meter cannot be reached or refuses every command: `remove` enters an empty list of names for
-- a specification whose commands failed, and the dispatcher compares the numbers of specifications.
-- The rule has to be in order, and the answers of the meter have to name their content type.
pub failed_removal_unnoticed :
    (P : Platform) (S : Type 0) (message? : P.Mspec → Option Message) (cfg : Config) (meter : Meter)
    (sent : List Request) (d : Node P) (r : PolicyRule P) (c : Ctx P S)
    → NamesContent meter
    → IsRule r
    → d.installer ≡ netmate_installer P message? cfg meter sent
    → remove_installed d r c ≡ (ok tt, record c { world = after_removal r c.world })
failed_removal_unnoticed P S message? cfg meter sent d r c names rule e =
    let (result, returns, count, same) = remove-returns_keys cfg meter names r sent rule in
    remove_installed_lem d r c (result, rw e returns, count)
