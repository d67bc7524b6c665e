-- ===== src/Toolloop/Config.antt =====
-- llms/toolloop/run.go: validateConfig and the lookup of tools.
use maestro_llms.Base.{
  ℕ, suc, String, Bool, true, false, not, ◌&&◌, Option, none, some, List, [], ◌∷◌, map, Result, ok,
  ◌>>=◌, ◌>>◌, refuse, if◌then◌else◌, is_empty, has, str_eq,
}
use maestro_llms.Llms.Reasons.{BadConfig}
use maestro_llms.Llms.Message.{ToolChoice, ToolChoiceType, ToolDefinition, requires_tools}
use maestro_llms.Toolloop.Types.{Config, Tool}

-- `isKnownToolChoiceType`.
unfoldable pub is_known_tool_choice_type : ToolChoiceType → Bool
is_known_tool_choice_type ToolChoiceType.auto = true
is_known_tool_choice_type ToolChoiceType.never = true
is_known_tool_choice_type ToolChoiceType.required = true
is_known_tool_choice_type ToolChoiceType.tool = true
is_known_tool_choice_type ToolChoiceType.unset = false
is_known_tool_choice_type (ToolChoiceType.other t) = false

abbrev is_unset : ToolChoiceType → Bool
is_unset ToolChoiceType.unset = true
is_unset _ = false

abbrev names_tool : ToolChoiceType → Bool
names_tool ToolChoiceType.tool = true
names_tool _ = false

-- `isZeroToolChoice`.
unfoldable pub is_zero_tool_choice : ToolChoice → Bool
is_zero_tool_choice c = is_unset c.type && str_eq c.name ""

abbrev auto_choice : ToolChoice
auto_choice = record { type = ToolChoiceType.auto; name = "" }

abbrev pub is_none {ℓ} : {A : Type ℓ} → Option A → Bool
is_none none = true
is_none (some a) = false

module _ {W : Type 0} where
  -- The loop over Config.Tools, from index `i` on: the names seen.
  unfoldable pub check_tools : ℕ → List (Tool W) → List String → Result BadConfig (List String)
  check_tools i [] seen = ok seen
  check_tools i (t ∷ ts) seen =
      let rest = check_tools (suc i) ts (t.definition.name ∷ seen) in
      do
        refuse (str_eq t.definition.name "") (BadConfig.tool_name_empty i)
        refuse (is_none t.execute) (BadConfig.execute_nil i t.definition.name)
        refuse (has seen t.definition.name) (BadConfig.duplicate_tool_name t.definition.name)
        rest

  -- The ToolChoice in force.
  unfoldable pub effective_choice : Config W → ToolChoice
  unfolding is_zero_tool_choice
  effective_choice cfg =
      let chosen =
        if is_zero_tool_choice cfg.tool_choice then cfg.request.tool_choice else cfg.tool_choice in
      if is_zero_tool_choice chosen then auto_choice else chosen

  -- `validateConfig`.
  unfoldable pub validate_config : Config W → Result BadConfig (List ToolDefinition × ToolChoice)
  unfolding check_tools effective_choice is_zero_tool_choice is_known_tool_choice_type
  validate_config cfg = do
    refuse (is_none cfg.client) BadConfig.client_required
    refuse (is_empty cfg.request.messages) BadConfig.messages_required
    refuse (not (is_empty cfg.request.tools)) BadConfig.request_tools_set
    seen ← check_tools 0 cfg.tools []
    refuse
        (not (is_zero_tool_choice cfg.request.tool_choice)
          && not (is_zero_tool_choice cfg.tool_choice))
        BadConfig.both_tool_choices
    let effective = effective_choice cfg
    refuse (not (is_known_tool_choice_type effective.type))
        (BadConfig.unknown_tool_choice effective.type)
    refuse (requires_tools effective.type && is_empty cfg.tools)
        (BadConfig.choice_requires_tools effective.type)
    refuse (names_tool effective.type && not (has seen effective.name))
        (BadConfig.choice_names_unknown_tool effective.name)
    ok (map (λ t. t.definition) cfg.tools, effective)

  -- `indexTools` and the lookup in its map: of two tools of one name the later is found.
  unfoldable pub index_tools : List (Tool W) → List (Tool W) → List (Tool W)
  index_tools [] index = index
  index_tools (t ∷ ts) index = index_tools ts (t ∷ index)

  unfoldable pub find_tool : List (Tool W) → String → Option (Tool W)
  find_tool [] name = none
  find_tool (t ∷ ts) name = if str_eq t.definition.name name then some t else find_tool ts name
