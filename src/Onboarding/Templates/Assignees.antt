-- ===== src/Onboarding/Templates/Assignees.antt =====
-- Who the items of a template go to, over any sequence of calls that administer templates.
use ai_hr_sytem.Base.{
  ℕ, suc, ◌≡◌, refl, sym, subst, ◌∙◌, ap, inl, inr, arith, Bool, true, false, not, Option, none,
  some, List, [], ◌∷◌, ◌++◌, ◌==◌, or_else, find, map, select, includes, update_where, length, All,
  Bool-cases, Action, ok, check_then, modify, >>=_inv,
}
use ai_hr_sytem.Onboarding.Defs.{AssigneeRule, ChecklistTemplateItem, ChecklistTemplate}
use ai_hr_sytem.Onboarding.Templates.{
  TemplateItemForm, UpdateTemplateItem, CreateTemplate, UpdateTemplate, TemplateStore, hr_manager,
  assignee_role, to_item, assert_role, check_assignee, validate_item, validate_items, new_items,
  add_template, create_template, template_by_id, changed_items, changed_template, save_template,
  update_template, without_template, remove_template, with_item, add_item, item_by_id, merged,
  on_items, replaced, update_item, remove_item, store_changed, update_found_template, store_item,
  add_to_found, store_merged, update_found_item, without_item,
}

-- An item for a role names a role that exists, one for HR the role of HR, and no other one a role.
abbrev pub has_assignee_role : List ℕ → AssigneeRule → Option ℕ → Bool
has_assignee_role roles AssigneeRule.role (some r) = includes roles r
has_assignee_role roles AssigneeRule.role none = false
has_assignee_role roles AssigneeRule.hr (some r) = r == hr_manager
has_assignee_role roles AssigneeRule.hr none = false
has_assignee_role roles who (some r) = false
has_assignee_role roles who none = true

abbrev pub ItemFits : List ℕ → ChecklistTemplateItem → Type 0
ItemFits roles i = has_assignee_role roles i.assignee_rule i.assignee_role_name ≡ true

abbrev pub AllFit : List ℕ → ChecklistTemplate → Type 0
AllFit roles t = All (ItemFits roles) t.items

abbrev pub IsStaffed : TemplateStore → Type 0
IsStaffed s = All (AllFit s.roles) s.templates

module _ {A : Type 0} (P : A → Type 0) where
  found-All : (p : A → Bool) (xs : List A) (a : A) → find p xs ≡ some a → All P xs → P a
  found-All p [] a e h = absurd (ground arith)
  found-All p (x ∷ xs) a e h = elim (Bool-cases (p x)) [
    | inl k ↦ subst P (ground (arith, k, e)) h.0
    | inr k ↦ found-All p xs a (ground (arith, k, e)) h.1
  ]

  appended-All : (xs ys : List A) → All P xs → All P ys → All P (xs ++ ys)
  appended-All [] ys h k = k
  appended-All (x ∷ xs) ys h k = (h.0, appended-All xs ys h.1 k)

  replaced-All :
      (p : A → Bool) (a : A) (xs : List A) → P a → All P xs → All P (update_where p (λ _. a) xs)
  replaced-All p a [] k h = tt
  replaced-All p a (x ∷ xs) k h = elim (Bool-cases (p x)) [
    | inl e ↦ rw e (k, replaced-All p a xs k h.1)
    | inr e ↦ rw e (h.0, replaced-All p a xs k h.1)
  ]

  selected-All : (p : A → Bool) (xs : List A) → All P xs → All P (select p xs)
  selected-All p [] h = tt
  selected-All p (x ∷ xs) h = elim (Bool-cases (p x)) [
    | inl e ↦ rw e (h.0, selected-All p xs h.1)
    | inr e ↦ rw e (selected-All p xs h.1)
  ]

check_assignee-store :
    (who : AssigneeRule) (o : Option ℕ) (s : TemplateStore) → (check_assignee who o s).1 ≡ s
unfolding check_assignee assert_role
check_assignee-store AssigneeRule.role none s = refl
check_assignee-store AssigneeRule.role (some r) s = ground arith
check_assignee-store AssigneeRule.hr o s = refl
check_assignee-store AssigneeRule.employee o s = refl
check_assignee-store AssigneeRule.manager o s = refl

check_assignee-ok :
    (who : AssigneeRule) (o : Option ℕ) (s : TemplateStore) (u : Unit {0})
    → (check_assignee who o s).0 ≡ ok u
    → has_assignee_role s.roles who (assignee_role who o) ≡ true
unfolding check_assignee assert_role
check_assignee-ok AssigneeRule.role none s u h = absurd (ground (arith, h))
check_assignee-ok AssigneeRule.role (some r) s u h = ground (arith, h)
check_assignee-ok AssigneeRule.hr o s u h = refl
check_assignee-ok AssigneeRule.employee o s u h = refl
check_assignee-ok AssigneeRule.manager o s u h = refl

validate_items-store :
    (dtos : List TemplateItemForm) (s : TemplateStore) → (validate_items dtos s).1 ≡ s
unfolding validate_items
validate_items-store [] s = refl
validate_items-store (dto ∷ dtos) s =
    check_then (validate_item dto) (λ _. validate_items dtos) s (λ t. t ≡ s)
      (check_assignee-store dto.assignee_rule dto.assignee_role_name s) refl
      (λ _ _. validate_items-store dtos s)

-- Items that were validated fit.
validate_items-ok :
    (dtos : List TemplateItemForm) (s : TemplateStore) (id index : ℕ) (u : Unit {0})
    → (validate_items dtos s).0 ≡ ok u
    → All (ItemFits s.roles) (new_items id index dtos)
unfolding validate_items new_items
validate_items-ok [] s id index u h = tt
validate_items-ok (dto ∷ dtos) s id index u h =
    let (v, first, rest) = >>=_inv (validate_item dto) (λ _. validate_items dtos) s u h in
    let same = check_assignee-store dto.assignee_rule dto.assignee_role_name s in
    (
      check_assignee-ok dto.assignee_rule dto.assignee_role_name s v first,
      validate_items-ok dtos s (suc id) (suc index) u
          (sym (ap (λ p. p.0) (rest ∙ ap (validate_items dtos) same)) ∙ h),
    )

template_by_id-store : (id : ℕ) (s : TemplateStore) → (template_by_id id s).1 ≡ s
unfolding template_by_id
template_by_id-store id s = ground arith

template_by_id-ok :
    (id : ℕ) (s : TemplateStore) (t : ChecklistTemplate)
    → (template_by_id id s).0 ≡ ok t
    → find (λ (x : ChecklistTemplate). x.id == id) s.templates ≡ some t
unfolding template_by_id
template_by_id-ok id s t h = ground (arith, h)

item_by_id-store : (id : ℕ) (s : TemplateStore) → (item_by_id id s).1 ≡ s
unfolding item_by_id
item_by_id-store id s = ground arith

-- A change of the items that keeps each list of items fitting.
on_items-IsStaffed :
    (f : List ChecklistTemplateItem → List ChecklistTemplateItem) (s : TemplateStore)
    → ((is : List ChecklistTemplateItem)
        → All (ItemFits s.roles) is
        → All (ItemFits s.roles) (f is))
    → IsStaffed s
    → IsStaffed (on_items f s)
on_items-IsStaffed f s keeps h = each s.templates h
  where
    each :
        (ts : List ChecklistTemplate)
        → All (AllFit s.roles) ts
        → All (AllFit s.roles) (map (λ (t : ChecklistTemplate). record t { items = f t.items }) ts)
    each [] h = tt
    each (t ∷ ts) h = (keeps t.items h.0, each ts h.1)

pub data TemplateCall : Type 0 where
  creates : CreateTemplate → TemplateCall
  changes : ℕ → UpdateTemplate → TemplateCall
  removes : ℕ → TemplateCall
  adds_item : ℕ → TemplateItemForm → TemplateCall
  changes_item : ℕ → UpdateTemplateItem → TemplateCall
  removes_item : ℕ → TemplateCall

unfoldable pub administer : TemplateCall → Action TemplateStore (Unit {0})
administer (creates dto) = create_template dto
administer (changes id dto) = update_template id dto
administer (removes id) = remove_template id
administer (adds_item id dto) = add_item id dto
administer (changes_item id dto) = update_item id dto
administer (removes_item id) = remove_item id

unfoldable pub administer_all : List TemplateCall → TemplateStore → TemplateStore
administer_all [] s = s
administer_all (call ∷ calls) s = administer_all calls (administer call s).1

module _ (s : TemplateStore) (h : IsStaffed s) where
  saved-IsStaffed :
      (t : ChecklistTemplate) (n : ℕ) → AllFit s.roles t → IsStaffed (save_template t n s)
  saved-IsStaffed t n k = replaced-All (AllFit s.roles) (λ x. x.id == t.id) t s.templates k h

  create_template-IsStaffed : (dto : CreateTemplate) → IsStaffed (create_template dto s).1
  unfolding create_template
  create_template-IsStaffed dto =
      check_then (validate_items dto.items) (λ _. modify (add_template dto)) s IsStaffed
        (validate_items-store dto.items s) h
        λ u e.
          appended-All (AllFit s.roles) s.templates _ h
            (validate_items-ok dto.items s s.next_item_id 0 u e, tt)

  changed-AllFit :
      (o : Option (List TemplateItemForm)) (is : List ChecklistTemplateItem) (u : Unit {0})
      → All (ItemFits s.roles) is
      → (validate_items (or_else o []) s).0 ≡ ok u
      → All (ItemFits s.roles) (changed_items s.next_item_id o is)
  changed-AllFit none is u k e = k
  changed-AllFit (some dtos) is u k e = validate_items-ok dtos s s.next_item_id 0 u e

  update_template-IsStaffed :
      (id : ℕ) (dto : UpdateTemplate) → IsStaffed (update_template id dto s).1
  unfolding update_template
  update_template-IsStaffed id dto =
      check_then (template_by_id id) (update_found_template dto) s IsStaffed
        (template_by_id-store id s) h
        λ t e.
          let old = found-All (AllFit s.roles) _ s.templates t (template_by_id-ok id s t e) h in
          check_then (validate_items (or_else dto.items [])) (λ _. modify (store_changed dto t)) s
            IsStaffed (validate_items-store (or_else dto.items []) s) h
            λ u k.
              saved-IsStaffed (changed_template dto s.next_item_id t)
                (length (or_else dto.items [])) (changed-AllFit dto.items t.items u old k)

  remove_template-IsStaffed : (id : ℕ) → IsStaffed (remove_template id s).1
  unfolding remove_template
  remove_template-IsStaffed id =
      check_then (template_by_id id) (λ t. modify (without_template t.id)) s IsStaffed
        (template_by_id-store id s) h
        λ t _. selected-All (AllFit s.roles) (λ x. not (x.id == t.id)) s.templates h

  add_item-IsStaffed : (id : ℕ) (dto : TemplateItemForm) → IsStaffed (add_item id dto s).1
  unfolding add_item
  add_item-IsStaffed id dto =
      check_then (template_by_id id) (add_to_found dto) s IsStaffed (template_by_id-store id s) h
        λ t e.
          let old = found-All (AllFit s.roles) _ s.templates t (template_by_id-ok id s t e) h in
          check_then (validate_item dto) (λ _. modify (store_item dto t)) s IsStaffed
            (check_assignee-store dto.assignee_rule dto.assignee_role_name s) h
            λ u k. saved-IsStaffed (with_item dto s.next_item_id t) 1 (
              appended-All (ItemFits s.roles) t.items _ old
                (check_assignee-ok dto.assignee_rule dto.assignee_role_name s u k, tt))

  update_item-IsStaffed : (id : ℕ) (dto : UpdateTemplateItem) → IsStaffed (update_item id dto s).1
  unfolding update_item
  update_item-IsStaffed id dto =
      check_then (item_by_id id) (update_found_item dto) s IsStaffed (item_by_id-store id s) h
        λ item _.
          let form = merged dto item in
          check_then (validate_item form) (λ _. modify (store_merged dto item)) s IsStaffed
            (check_assignee-store form.assignee_rule form.assignee_role_name s) h
            λ u k.
              let new = to_item item.id form (or_else dto.sort_order item.sort_order) in
              on_items-IsStaffed (replaced new) s
                (λ is.
                  replaced-All (ItemFits s.roles) (λ i. i.id == new.id) new is
                    (check_assignee-ok form.assignee_rule form.assignee_role_name s u k))
                h

  remove_item-IsStaffed : (id : ℕ) → IsStaffed (remove_item id s).1
  unfolding remove_item
  remove_item-IsStaffed id =
      check_then (item_by_id id) (λ i. modify (without_item i.id)) s IsStaffed
        (item_by_id-store id s) h
        λ item _.
          let p = λ (i : ChecklistTemplateItem). not (i.id == item.id) in
          on_items-IsStaffed (select p) s (λ is. selected-All (ItemFits s.roles) p is) h

  administer-IsStaffed : (call : TemplateCall) → IsStaffed (administer call s).1
  unfolding administer
  administer-IsStaffed (creates dto) = create_template-IsStaffed dto
  administer-IsStaffed (changes id dto) = update_template-IsStaffed id dto
  administer-IsStaffed (removes id) = remove_template-IsStaffed id
  administer-IsStaffed (adds_item id dto) = add_item-IsStaffed id dto
  administer-IsStaffed (changes_item id dto) = update_item-IsStaffed id dto
  administer-IsStaffed (removes_item id) = remove_item-IsStaffed id

-- Over any sequence of calls that administer templates, whether they succeed or fail, every item
-- for a role names one of the known roles, every item for HR names the role of HR, and an item for
-- the employee or the manager names none.
pub administer_all-IsStaffed :
    (calls : List TemplateCall) (s : TemplateStore)
    → IsStaffed s
    → IsStaffed (administer_all calls s)
unfolding administer_all
administer_all-IsStaffed [] s h = h
administer_all-IsStaffed (call ∷ calls) s h =
    administer_all-IsStaffed calls (administer call s).1 (administer-IsStaffed s h call)
