-- ===== src/Onboarding/Templates.antt =====
-- src/modules/onboarding/checklist-templates.service.ts: the administration of templates. The items
-- are part of their template's row, and the names of the roles are what rbac knows.
use ai_hr_sytem.Base.{
  ℕ, suc, ◌+◌, Bool, true, false, not, Option, none, some, List, [], ◌∷◌, ◌++◌, String, ◌==◌,
  if◌then◌else◌, or_else, find, map, select, includes, update_where, length, Action, bad_request,
  not_found, gets, or_throw, pure, ◌>>=◌, ◌>>◌, throw_if, modify,
}
use ai_hr_sytem.Base.Int.{ℤ, pos}
use ai_hr_sytem.Onboarding.Defs.{
  ChecklistType, AssigneeRule, ChecklistTemplateItem, ChecklistTemplate,
}
pub mod Assignees

pub record TemplateItemForm : Type 0 where
  pub title : String
  pub description : Option String
  pub assignee_rule : AssigneeRule
  pub assignee_role_name : Option ℕ
  pub due_offset_days : Option ℤ
  pub sort_order : Option ℕ
  pub is_required : Option Bool

pub record UpdateTemplateItem : Type 0 where
  pub title : Option String
  pub description : Option String
  pub assignee_rule : Option AssigneeRule
  pub assignee_role_name : Option ℕ
  pub due_offset_days : Option ℤ
  pub sort_order : Option ℕ
  pub is_required : Option Bool

pub record CreateTemplate : Type 0 where
  pub name : String
  pub type : ChecklistType
  pub description : Option String
  pub department_id : Option ℕ
  pub items : List TemplateItemForm

-- The department may be null.
pub record UpdateTemplate : Type 0 where
  pub name : Option String
  pub type : Option ChecklistType
  pub description : Option String
  pub department_id : Option (Option ℕ)
  pub is_active : Option Bool
  pub items : Option (List TemplateItemForm)

pub record TemplateStore : Type 0 where
  pub templates : List ChecklistTemplate
  pub next_template_id : ℕ
  pub next_item_id : ℕ
  pub roles : List ℕ

-- The number of the role HR_MANAGER.
abbrev pub hr_manager : ℕ
hr_manager = 1

abbrev pub assignee_role : AssigneeRule → Option ℕ → Option ℕ
assignee_role AssigneeRule.role name = name
assignee_role AssigneeRule.hr name = some hr_manager
assignee_role _ name = none

-- `toItem`
abbrev pub to_item : ℕ → TemplateItemForm → ℕ → ChecklistTemplateItem
to_item id dto default_order = record {
  id = id;
  title = dto.title;
  description = dto.description;
  assignee_rule = dto.assignee_rule;
  assignee_role_name = assignee_role dto.assignee_rule dto.assignee_role_name;
  due_offset_days = or_else dto.due_offset_days (pos 0);
  sort_order = or_else dto.sort_order default_order;
  is_required = or_else dto.is_required true;
}

-- `findRolesByNames` of rbac, for one name.
unfoldable pub assert_role : ℕ → Action TemplateStore (Unit {0})
assert_role r = gets TemplateStore.roles >>= λ known.
    throw_if (not (includes known r)) (bad_request "Unknown role(s)")

unfoldable pub check_assignee : AssigneeRule → Option ℕ → Action TemplateStore (Unit {0})
check_assignee AssigneeRule.role none =
    throw_if true (bad_request "assigneeRoleName is required for ROLE items")
check_assignee AssigneeRule.role (some r) = assert_role r
check_assignee _ r = pure tt

-- `validateItem`
abbrev pub validate_item : TemplateItemForm → Action TemplateStore (Unit {0})
validate_item dto = check_assignee dto.assignee_rule dto.assignee_role_name

unfoldable pub validate_items : List TemplateItemForm → Action TemplateStore (Unit {0})
validate_items [] = pure tt
validate_items (dto ∷ dtos) = validate_item dto >> validate_items dtos

-- The items of a request, numbered as they are stored.
unfoldable pub new_items : ℕ → ℕ → List TemplateItemForm → List ChecklistTemplateItem
new_items id index [] = []
new_items id index (dto ∷ dtos) = to_item id dto index ∷ new_items (suc id) (suc index) dtos

abbrev pub add_template : CreateTemplate → TemplateStore → TemplateStore
add_template dto s =
    let t : ChecklistTemplate = record {
      id = s.next_template_id;
      name = dto.name;
      type = dto.type;
      description = dto.description;
      department_id = dto.department_id;
      is_active = true;
      items = new_items s.next_item_id 0 dto.items;
    } in
    record s {
      templates = s.templates ++ t ∷ [];
      next_template_id = s.next_template_id + 1;
      next_item_id = s.next_item_id + length dto.items;
    }

-- `create`
unfoldable pub create_template : CreateTemplate → Action TemplateStore (Unit {0})
create_template dto = validate_items dto.items >> modify (add_template dto)

-- `findById`
unfoldable pub template_by_id : ℕ → Action TemplateStore ChecklistTemplate
template_by_id id =
    gets (λ (s : TemplateStore). find (λ (t : ChecklistTemplate). t.id == id) s.templates) >>= λ o.
    or_throw o (not_found "Checklist template not found")

abbrev pub changed_items :
    ℕ → Option (List TemplateItemForm) → List ChecklistTemplateItem → List ChecklistTemplateItem
changed_items id none old = old
changed_items id (some dtos) old = new_items id 0 dtos

abbrev pub changed_template : UpdateTemplate → ℕ → ChecklistTemplate → ChecklistTemplate
changed_template dto next t = record t {
  name = or_else dto.name t.name;
  type = or_else dto.type t.type;
  description = elim dto.description [ none ↦ t.description | some d ↦ some d ];
  department_id = or_else dto.department_id t.department_id;
  is_active = or_else dto.is_active t.is_active;
  items = changed_items next dto.items t.items;
}

-- A template is stored, and the ids of its new items are used up.
abbrev pub save_template : ChecklistTemplate → ℕ → TemplateStore → TemplateStore
save_template t added s = record s {
  templates = update_where (λ (x : ChecklistTemplate). x.id == t.id) (λ _. t) s.templates;
  next_item_id = s.next_item_id + added;
}

abbrev pub store_changed : UpdateTemplate → ChecklistTemplate → TemplateStore → TemplateStore
store_changed dto t s =
    save_template (changed_template dto s.next_item_id t) (length (or_else dto.items [])) s

abbrev pub update_found_template :
    UpdateTemplate → ChecklistTemplate → Action TemplateStore (Unit {0})
update_found_template dto t = validate_items (or_else dto.items []) >> modify (store_changed dto t)

-- `update`
unfoldable pub update_template : ℕ → UpdateTemplate → Action TemplateStore (Unit {0})
update_template id dto = template_by_id id >>= λ t. update_found_template dto t

abbrev pub without_template : ℕ → TemplateStore → TemplateStore
without_template id s = record s {
  templates = select (λ (t : ChecklistTemplate). not (t.id == id)) s.templates;
}

-- `remove`; the items go with their template.
unfoldable pub remove_template : ℕ → Action TemplateStore (Unit {0})
remove_template id = template_by_id id >>= λ t. modify (without_template t.id)

abbrev pub with_item : TemplateItemForm → ℕ → ChecklistTemplate → ChecklistTemplate
with_item dto next t = record t { items = t.items ++ to_item next dto (length t.items) ∷ [] }

abbrev pub store_item : TemplateItemForm → ChecklistTemplate → TemplateStore → TemplateStore
store_item dto t s = save_template (with_item dto s.next_item_id t) 1 s

abbrev pub add_to_found : TemplateItemForm → ChecklistTemplate → Action TemplateStore (Unit {0})
add_to_found dto t = validate_item dto >> modify (store_item dto t)

-- `addItem`
unfoldable pub add_item : ℕ → TemplateItemForm → Action TemplateStore (Unit {0})
add_item id dto = template_by_id id >>= λ t. add_to_found dto t

abbrev pub item_at : ℕ → List ChecklistTemplateItem → Option ChecklistTemplateItem
item_at id = find (λ (i : ChecklistTemplateItem). i.id == id)

unfoldable pub find_item : ℕ → List ChecklistTemplate → Option ChecklistTemplateItem
find_item id [] = none
find_item id (t ∷ ts) =
    let rest = find_item id ts in elim (item_at id t.items) [ none ↦ rest | some i ↦ some i ]

unfoldable pub item_by_id : ℕ → Action TemplateStore ChecklistTemplateItem
item_by_id id = gets (λ (s : TemplateStore). find_item id s.templates) >>= λ o.
    or_throw o (not_found "Template item not found")

-- `merged`
abbrev pub merged : UpdateTemplateItem → ChecklistTemplateItem → TemplateItemForm
merged dto item = record {
  title = or_else dto.title item.title;
  description = elim dto.description [ none ↦ item.description | some d ↦ some d ];
  assignee_rule = or_else dto.assignee_rule item.assignee_rule;
  assignee_role_name = elim dto.assignee_role_name [
    | none ↦ item.assignee_role_name
    | some r ↦ some r
  ];
  due_offset_days = some (or_else dto.due_offset_days item.due_offset_days);
  sort_order = some (or_else dto.sort_order item.sort_order);
  is_required = some (or_else dto.is_required item.is_required);
}

-- A change of the items of every template.
abbrev pub on_items :
    (List ChecklistTemplateItem → List ChecklistTemplateItem) → TemplateStore → TemplateStore
on_items f s = record s {
  templates = map (λ (t : ChecklistTemplate). record t { items = f t.items }) s.templates;
}

abbrev pub replaced :
    ChecklistTemplateItem → List ChecklistTemplateItem → List ChecklistTemplateItem
replaced new = update_where (λ (i : ChecklistTemplateItem). i.id == new.id) (λ _. new)

abbrev pub store_merged : UpdateTemplateItem → ChecklistTemplateItem → TemplateStore → TemplateStore
store_merged dto item =
    on_items (replaced (to_item item.id (merged dto item) (or_else dto.sort_order item.sort_order)))

abbrev pub update_found_item :
    UpdateTemplateItem → ChecklistTemplateItem → Action TemplateStore (Unit {0})
update_found_item dto item = validate_item (merged dto item) >> modify (store_merged dto item)

-- `updateItem`
unfoldable pub update_item : ℕ → UpdateTemplateItem → Action TemplateStore (Unit {0})
update_item id dto = item_by_id id >>= λ item. update_found_item dto item

abbrev pub without_item : ℕ → TemplateStore → TemplateStore
without_item id = on_items (select (λ (i : ChecklistTemplateItem). not (i.id == id)))

-- `removeItem`
unfoldable pub remove_item : ℕ → Action TemplateStore (Unit {0})
remove_item id = item_by_id id >>= λ item. modify (without_item item.id)
