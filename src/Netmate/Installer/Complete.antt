-- ===== src/Netmate/Installer/Complete.antt =====
-- What passes `check` is installed, if the meter works.
use m_nslp.Prelude.{ℕ, ◌<◌, ◌≡◌, refl, ◌∙◌, ap, Option, some, List, [], ◌∷◌, All, arith, length}
use m_nslp.Platform.{Platform}
use m_nslp.Node.Monad.{ok}
use m_nslp.Rule.{Name, PolicyRule, get_number_mspec_objects}
use m_nslp.Rule.Laws.{IsRule}
use m_nslp.Ipfix.Template.{Template, get_numfields}
use m_nslp.Ipfix.Message.{Message}
use m_nslp.Netmate.Names.{codes}
use m_nslp.Netmate.Meter.{Config, Request, Answer, after_transfer, request_of}
use m_nslp.Netmate.Commands.{get_export_template, create_postfield_command}
use m_nslp.Netmate.Installer.{check_message, commands_of, get_ipfix_message, install}
use m_nslp.Netmate.Installer.Removal.{NamesContent}
use m_nslp.Netmate.Installer.Installing.{
  always, answered_keys, is_answered-ok, names_of, kept_objects, kept_names, keep_cons,
  HaveCommands, install_lem,
}
use m_nslp.Netmate.Installer.Checking.{ActionsLoaded, checked-commands}

-- The meter answers every request, with a content type.
abbrev pub Executes : (Request → Answer) → Type 0
Executes says = (r : Request) → after_transfer (says r) ≡ ok tt

names_content : (says : Request → Answer) → Executes says → NamesContent (always says)
unfolding after_transfer
names_content says executes sent r code e = cc (executes r)

answered_keys_pos :
    (cfg : Config) (says : Request → Answer) (commands : List (Name × Name))
    → Executes says
    → 0 < length commands
    → 0 < length (answered_keys cfg says commands)
answered_keys_pos cfg says [] h k = absurd (omega arith)
answered_keys_pos cfg says ((key, command) ∷ rest) h k =
    rw (is_answered-ok _ (h (request_of cfg (codes "/add_task") command)), answered_keys)
      (omega arith)

module _ (P : Platform) (message? : P.Mspec → Option Message) (cfg : Config) where
  -- A specification that passes `check`, whose export template has a field, and of which commands
  -- can be made for its key.
  abbrev pub IsReady : ℕ → P.Mspec → Type 0
  IsReady key x =
      (m : Message) × (message? x ≡ some m)
      × (check_message cfg m ≡ ok tt)
      × (t : Template) × (get_export_template m ≡ ok (some t))
      × (0 < get_numfields t)
      × (commands : List (Name × Name)) × (create_postfield_command cfg (P.unparse key) m
          ≡ ok commands)

  module _ (says : Request → Answer) (loaded : ActionsLoaded cfg) (executes : Executes says) where
    ready_commands :
        (key : ℕ) (x : P.Mspec)
        → IsReady key x
        → (commands : List (Name × Name)) × (commands_of P message? cfg (always says) key x
            ≡ ok commands)
          × (0 < length commands)
    unfolding commands_of get_ipfix_message
    ready_commands key x (m, is_message, checked, t, export, fields, commands, made) = (
      commands,
      ground (arith, is_message, made),
      checked-commands cfg m (P.unparse key) t commands loaded checked export fields made,
    )

    each_makes_commands :
        (s : List (ℕ × P.Mspec)) → All (λ e. IsReady e.0 e.1) s → HaveCommands P message? cfg says s
    each_makes_commands [] h = tt
    each_makes_commands ((key, x) ∷ rest) h =
        let (commands, made, positive) = ready_commands key x h.0 in
        ((commands, made), each_makes_commands rest h.1)

    ready_kept :
        (s : List (ℕ × P.Mspec))
        → All (λ e. IsReady e.0 e.1) s
        → kept_objects P message? cfg says s ≡ s
    ready_kept [] h = refl
    ready_kept ((key, x) ∷ rest) h =
        let (commands, made, positive) = ready_commands key x h.0 in
        keep_cons P message? cfg says (key, x) (names_of P message? cfg says key x)
          (kept_objects P message? cfg says rest)
          (rw made (answered_keys_pos cfg says commands executes positive))
        ∙ ap (λ r. (key, x) ∷ r) (ready_kept rest h.1)

    -- If every object of a rule passes `check`, has a field to export and can be made into commands,
    -- and the meter answers, then `install` returns a rule with the same objects, so the session that
    -- installs it takes the installation as complete. The rule has to be in order, and the actions of
    -- the configuration loaded with their configurations.
    pub checked_rule_installed :
        (r : PolicyRule P) (sent : List Request)
        → IsRule r
        → All (λ e. IsReady e.0 e.1) r.objects
        → (result : PolicyRule P) × ((install P message? cfg (always says) r sent).0 ≡ ok result)
          × (result.objects ≡ r.objects)
          × (get_number_mspec_objects result ≡ get_number_mspec_objects r)
    unfolding get_number_mspec_objects
    checked_rule_installed r sent rule ready =
        let same = ready_kept r.objects ready in
        (
          record {
            objects = kept_objects P message? cfg says r.objects;
            rule_keys = kept_names P message? cfg says r.objects;
          },
          install_lem P message? cfg says r sent (names_content says executes) rule
              (each_makes_commands r.objects ready),
          same,
          ap length same,
        )
