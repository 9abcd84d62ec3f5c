-- ===== src/Netmate/Installer/Installing.antt =====
-- Which objects of a rule are installed.
use mathlib.Core.List.{append-nil, append_assoc}
use m_nslp.Prelude.{
  ℕ, ◌<◌, ◌≡◌, refl, sym, ◌∙◌, ap, inl, inr, Bool, true, false, Option, none, some, List, [], ◌∷◌,
  ◌++◌, All, if◌then◌else◌, arith, length,
}
use m_nslp.Platform.{Platform}
use m_nslp.Map.Laws
use m_nslp.Node.Monad.{Outcome, ok}
use m_nslp.Rule.{Name, PolicyRule, no_rule, set_object_at, set_commands}
use m_nslp.Rule.Laws.{IsRule}
use m_nslp.Ipfix.Message.{Message}
use m_nslp.Netmate.Names.{codes}
use m_nslp.Netmate.Meter.{
  Config, Request, Answer, no_handle, transfer_failed, no_content_info, no_code_info, answered,
  execute_command, after_transfer, request_of, connection_broken,
}
use m_nslp.Netmate.Installer.{run_commands, keep_installed, commands_of, install_objects, install}
use m_nslp.Netmate.Installer.Removal.{NamesContent, execute_command_cases}

-- A meter whose answer depends on the request alone.
abbrev pub always : (Request → Answer) → List Request → Request → Answer
always says sent r = says r

-- There is an answer of the meter, whatever its status code says.
abbrev pub is_answered : Answer → Bool
is_answered no_handle = false
is_answered transfer_failed = false
is_answered no_content_info = false
is_answered no_code_info = false
is_answered (answered code content_type) = true

-- The keys of the commands to which the meter answers.
abbrev pub answered_keys : Config → (Request → Answer) → List (Name × Name) → List Name
answered_keys cfg says [] = []
answered_keys cfg says ((key, command) ∷ rest) =
    if is_answered (says (request_of cfg (codes "/add_task") command))
    then key ∷ answered_keys cfg says rest
    else answered_keys cfg says rest

pub is_answered-ok : (a : Answer) → after_transfer a ≡ ok tt → is_answered a ≡ true
unfolding after_transfer
is_answered-ok no_handle e = cc
is_answered-ok transfer_failed e = cc
is_answered-ok no_content_info e = cc
is_answered-ok no_code_info e = cc
is_answered-ok (answered code content_type) e = refl

is_answered-broken : (a : Answer) → after_transfer a ≡ connection_broken → is_answered a ≡ false
unfolding after_transfer
is_answered-broken no_handle e = refl
is_answered-broken transfer_failed e = refl
is_answered-broken no_content_info e = refl
is_answered-broken no_code_info e = refl
is_answered-broken (answered code none) e = cc
is_answered-broken (answered code (some content_type)) e = cc

execute_command-always :
    (cfg : Config) (says : Request → Answer) (command : Name) (sent : List Request)
    → (execute_command cfg (always says) (codes "/add_task") command sent).0
      ≡ after_transfer (says (request_of cfg (codes "/add_task") command))
unfolding execute_command after_transfer
execute_command-always cfg says command sent = ground arith

run_commands-answered :
    (cfg : Config) (says : Request → Answer) (commands : List (Name × Name)) (keys : List Name)
    (sent : List Request)
    → NamesContent (always says)
    → (run_commands cfg (always says) (codes "/add_task") commands keys sent).0
      ≡ ok (keys ++ answered_keys cfg says commands)
unfolding run_commands
run_commands-answered cfg says [] keys sent h = ap ok (sym (append-nil keys))
run_commands-answered cfg says ((k, command) ∷ rest) keys sent h =
    elim (execute_command_cases cfg (always says) (codes "/add_task") command sent h) [
      | inl done ↦
          rw
            (
              done,
              run_commands,
              is_answered-ok _ (sym (execute_command-always cfg says command sent) ∙ done),
            )
            (run_commands-answered cfg says rest (keys ++ k ∷ [])
                (execute_command cfg (always says) (codes "/add_task") command sent).1 h
              ∙ ap ok (append_assoc keys (k ∷ []) (answered_keys cfg says rest)))
      | inr failed ↦
          rw
            (
              failed,
              run_commands,
              is_answered-broken _ (sym (execute_command-always cfg says command sent) ∙ failed),
            )
            (run_commands-answered cfg says rest keys
              (execute_command cfg (always says) (codes "/add_task") command sent).1 h)
    ]

module _ (P : Platform) (message? : P.Mspec → Option Message) (cfg : Config)
    (says : Request → Answer) where
  -- The rules of an object under a key to whose commands the meter answers.
  abbrev pub names_of : ℕ → P.Mspec → List Name
  names_of key x = named (commands_of P message? cfg (always says) key x)
    where
      named : Outcome (List (Name × Name)) → List Name
      named (ok commands) = answered_keys cfg says commands
      named _ = []

  abbrev pub keep : {A : Type 0} → A → List Name → List A → List A
  keep a [] rest = rest
  keep a (k ∷ ks) rest = a ∷ rest

  pub keep_cons :
      {A : Type 0} (a : A) (names : List Name) (rest : List A)
      → 0 < length names
      → keep a names rest ≡ a ∷ rest
  keep_cons a [] rest h = absurd (omega arith)
  keep_cons a (k ∷ ks) rest h = refl

  -- The objects with at least one rule to whose command the meter answers.
  abbrev pub kept_objects : List (ℕ × P.Mspec) → List (ℕ × P.Mspec)
  kept_objects [] = []
  kept_objects ((key, x) ∷ rest) = keep (key, x) (names_of key x) (kept_objects rest)

  -- The names of these rules.
  abbrev pub kept_names : List (ℕ × P.Mspec) → List (ℕ × List Name)
  kept_names [] = []
  kept_names ((key, x) ∷ rest) = keep (key, names_of key x) (names_of key x) (kept_names rest)

  -- Commands can be made of every object.
  abbrev pub HaveCommands : List (ℕ × P.Mspec) → Type 0
  HaveCommands objects =
      All
        (λ e.
          (commands : List (Name × Name)) × (commands_of P message? cfg (always says) e.0 e.1
            ≡ ok commands))
        objects

  -- The keys of `m` are below those of a list in order.
  abbrev Below : {A B : Type 0} → List (ℕ × B) → List (ℕ × A) → Type 0
  Below m [] = Unit
  Below m ((k, a) ∷ rest) = All (λ e. e.0 < k) m

  weaken :
      {B : Type 0} (k j : ℕ) (m : List (ℕ × B))
      → k < j
      → All (λ e. e.0 < k) m
      → All (λ e. e.0 < j) m
  weaken k j [] l h = tt
  weaken k j ((i, c) ∷ m) l h = (omega (arith, h.0), weaken k j m l h.1)

  weaken_append :
      {B : Type 0} (k j : ℕ) (b : B) (m : List (ℕ × B))
      → k < j
      → All (λ e. e.0 < k) m
      → All (λ e. e.0 < j) (m ++ (k, b) ∷ [])
  weaken_append k j b [] l h = (l, tt)
  weaken_append k j b ((i, c) ∷ m) l h = (omega (arith, h.0), weaken_append k j b m l h.1)

  skip :
      {A B : Type 0} (k : ℕ) (a : A) (m : List (ℕ × B)) (rest : List (ℕ × A))
      → All (λ e. e.0 < k) m
      → Laws.IsSorted ((k, a) ∷ rest)
      → Below m rest
  skip k a m [] h above = tt
  skip k a m ((j, b) ∷ rest) h above = weaken k j m above.0 h

  extend :
      {A B : Type 0} (k : ℕ) (a : A) (b : B) (m : List (ℕ × B)) (rest : List (ℕ × A))
      → All (λ e. e.0 < k) m
      → Laws.IsSorted ((k, a) ∷ rest)
      → Below (m ++ (k, b) ∷ []) rest
  extend k a b m [] h above = tt
  extend k a b m ((j, c) ∷ rest) h above = weaken_append k j b m above.0 h

  -- The rule that a rule becomes when the objects of a list are installed.
  abbrev with_kept : PolicyRule P → List (ℕ × P.Mspec) → PolicyRule P
  with_kept rule s = record {
    objects = rule.objects ++ kept_objects s;
    rule_keys = rule.rule_keys ++ kept_names s;
  }

  keep_installed-with_kept :
      (key : ℕ) (x : P.Mspec) (keys : List Name) (rule : PolicyRule P) (kept : List (ℕ × P.Mspec))
      (names : List (ℕ × List Name))
      → All (λ e. e.0 < key) rule.objects
      → All (λ e. e.0 < key) rule.rule_keys
      → (((keep_installed key x keys rule).objects ++ kept)
          ≡ rule.objects ++ keep (key, x) keys kept)
        × (((keep_installed key x keys rule).rule_keys ++ names)
            ≡ rule.rule_keys ++ keep (key, keys) keys names)
  unfolding keep_installed set_commands set_object_at
  keep_installed-with_kept key x [] rule kept names h g = (refl, refl)
  keep_installed-with_kept key x (k ∷ ks) rule kept names h g = (
    ap (λ m. m ++ kept) (Laws.append_key key x rule.objects h).0
        ∙ append_assoc rule.objects ((key, x) ∷ []) kept,
    ap (λ m. m ++ names) (Laws.append_key key (k ∷ ks) rule.rule_keys g).1
        ∙ append_assoc rule.rule_keys ((key, k ∷ ks) ∷ []) names,
  )

  keep_installed-Below :
      (key : ℕ) (x : P.Mspec) (keys : List Name) (rule : PolicyRule P) (rest : List (ℕ × P.Mspec))
      → Laws.IsSorted ((key, x) ∷ rest)
      → All (λ e. e.0 < key) rule.objects
      → All (λ e. e.0 < key) rule.rule_keys
      → Below (keep_installed key x keys rule).objects rest
        × Below (keep_installed key x keys rule).rule_keys rest
  unfolding keep_installed set_commands set_object_at
  keep_installed-Below key x [] rule rest above h g =
      (skip key x rule.objects rest h above, skip key x rule.rule_keys rest g above)
  keep_installed-Below key x (k ∷ ks) rule rest above h g = (
    rw ((Laws.append_key key x rule.objects h).0) (extend key x x rule.objects rest h above),
    rw ((Laws.append_key key (k ∷ ks) rule.rule_keys g).1)
        (extend key x (k ∷ ks) rule.rule_keys rest g above),
  )

  install_objects-with_kept :
      (s : List (ℕ × P.Mspec)) (rule : PolicyRule P) (sent : List Request)
      → NamesContent (always says)
      → HaveCommands s
      → Laws.IsSorted s
      → Below rule.objects s
      → Below rule.rule_keys s
      → (install_objects P message? cfg (always says) s rule sent).0 ≡ ok (with_kept rule s)
  unfolding install_objects
  install_objects-with_kept [] rule sent n have sorted h g = λ i. ok (record {
    objects = sym (append-nil rule.objects) i;
    rule_keys = sym (append-nil rule.rule_keys) i;
  })
  install_objects-with_kept ((key, x) ∷ rest) rule sent n have sorted h g =
      let (commands, made) = have.0 in
      let keys = answered_keys cfg says commands in
      let below = keep_installed-Below key x keys rule rest sorted h g in
      let same =
        keep_installed-with_kept key x keys rule (kept_objects rest) (kept_names rest) h g in
      rw (made, install_objects, run_commands-answered cfg says commands [] sent n)
        (install_objects-with_kept rest (keep_installed key x keys rule)
            (run_commands cfg (always says) (codes "/add_task") commands [] sent).1 n have.1
            (Laws.IsSorted-of_Above key rest sorted) below.0 below.1
          ∙ λ i. ok (record { objects = same.0 i; rule_keys = same.1 i }))

  Below-nil : {A : Type 0} (B : Type 0) (s : List (ℕ × A)) → Below {A = A} {B = B} [] s
  Below-nil B [] = tt
  Below-nil B ((k, a) ∷ rest) = tt

  -- `install` returns the objects with at least one rule to whose command the meter answers, under
  -- their keys and in their order, each with exactly the names of these rules. An answer counts whatever
  -- its status code is, a refusal of the rule included. The other objects are left out and nothing is
  -- reported. The rule has to be in order, commands can be made of its objects, and what the meter does
  -- with a request, be it an answer or a failure, depends on that request alone; every answer names its
  -- content type.
  pub install_lem :
      (r : PolicyRule P) (sent : List Request)
      → NamesContent (always says)
      → IsRule r
      → HaveCommands r.objects
      → (install P message? cfg (always says) r sent).0
        ≡ ok (record { objects = kept_objects r.objects; rule_keys = kept_names r.objects })
  unfolding install
  install_lem r sent n rule have =
      install_objects-with_kept r.objects no_rule sent n have rule.objects_sorted
        (Below-nil P.Mspec r.objects) (Below-nil (List Name) r.objects)
