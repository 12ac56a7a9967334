-- ===== src/Tests/Templates.antt =====
-- The administration of a template, with a request that names an unknown role.
use ai_hr_sytem.Base.{◌≡◌, refl, none, some, List, [], ◌∷◌, err, bad_request}
use ai_hr_sytem.Onboarding.Defs.{ChecklistType, AssigneeRule}
use ai_hr_sytem.Onboarding.Templates.{
  TemplateItemForm, UpdateTemplateItem, CreateTemplate, TemplateStore, add_item, template_by_id,
  check_assignee, assert_role, create_template, validate_items,
}
use ai_hr_sytem.Onboarding.Templates.Assignees.{
  administer, IsStaffed, TemplateCall, creates, adds_item, changes_item, administer_all,
  administer_all-IsStaffed,
}

abbrev badge : TemplateItemForm
badge = record {
  title = "Print a badge";
  description = none;
  assignee_rule = AssigneeRule.role;
  assignee_role_name = some 4;
  due_offset_days = none;
  sort_order = none;
  is_required = none;
}

abbrev no_templates : TemplateStore
no_templates = record { templates = []; next_template_id = 1; next_item_id = 1; roles = 1 ∷ 4 ∷ [] }

abbrev arrival : CreateTemplate
arrival = record {
  name = "Arrival";
  type = ChecklistType.onboarding;
  description = none;
  department_id = none;
  items = badge ∷ [];
}

abbrev to_hr : UpdateTemplateItem
to_hr = record {
  title = none;
  description = none;
  assignee_rule = some AssigneeRule.hr;
  assignee_role_name = none;
  due_offset_days = none;
  sort_order = none;
  is_required = none;
}

abbrev edits : List TemplateCall
edits =
    creates arrival
    ∷ adds_item 1 (record badge { assignee_role_name = some 9 })
    ∷ changes_item 1 to_hr
    ∷ []

-- Nobody has heard of the role 9.
unknown_role :
    (add_item 1
      (record badge { assignee_role_name = some 9 })
      (administer_all (creates arrival ∷ []) no_templates)).0
    ≡ err (bad_request "Unknown role(s)")
unfolding add_item template_by_id administer_all administer create_template validate_items
    check_assignee assert_role
unknown_role = refl

administer_all-IsStaffed_example : IsStaffed (administer_all edits no_templates)
administer_all-IsStaffed_example = administer_all-IsStaffed edits no_templates tt
