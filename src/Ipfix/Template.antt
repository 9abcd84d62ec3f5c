-- ===== src/Ipfix/Template.antt =====
-- src/msg/mnslp_ipfix_template.cpp: templates, and the container that keeps them in a std::map. A
-- map is the list of its entries in ascending order of template ids.
pub mod Laws
pub mod Container
use m_nslp.Prelude.{
  ℕ, zero, suc, ◌+◌, ◌-◌, Bool, true, false, not, ◌&&◌, ◌||◌, Option, none, some, List, [], ◌∷◌,
  ◌++◌, ltb, leb, ◌==◌, length, if◌then◌else◌,
}
use m_nslp.Ipfix.{Coding, FieldType}

-- ipfix_template_field_t
pub record TemplateField : Type 0 where
  pub flength : ℕ
  pub unknown_f : Bool
  pub relay_f : Bool
  pub elem_type : FieldType

-- ipfix_templ_type_t
pub data TemplateType : Type 0 where
  data_template option_template : TemplateType

pub record Template : Type 0 where
  pub type : TemplateType
  pub tsend : ℕ
  pub tid : ℕ
  pub maxfields : ℕ
  pub datafields : List TemplateField
  pub scopefields : List TemplateField

abbrev pub get_numfields : Template → ℕ
get_numfields t = length t.datafields + length t.scopefields

-- What get_field does.
pub data Fetched : Type 0 where
  fetched : TemplateField → Fetched
  -- mnslp_ipfix_bad_argument
  invalid_number : Fetched
  -- An element past the end of a vector is read.
  past_end : Fetched

abbrev pub at_index : ℕ → List TemplateField → Fetched
at_index i [] = past_end
at_index zero (f ∷ fs) = fetched f
at_index (suc i) (f ∷ fs) = at_index i fs

-- get_field, for a number that is not negative.
unfoldable pub get_field : ℕ → Template → Fetched
get_field i t =
    if leb (get_numfields t) i
    then invalid_number
    else if ltb i (length t.scopefields)
    then at_index i t.scopefields
    else at_index i t.datafields

-- The loop that erases unknown fields from a vector.
unfoldable pub erase_unknown : List TemplateField → List TemplateField
erase_unknown [] = []
erase_unknown (f ∷ fs) = let rest = erase_unknown fs in if f.unknown_f then rest else f ∷ rest

-- remove_unknown_fields
unfoldable pub remove_unknown_fields : Template → Template
unfolding erase_unknown
remove_unknown_fields t = record t {
  datafields = erase_unknown t.datafields;
  scopefields = erase_unknown t.scopefields;
}

-- add_data_field
unfoldable pub add_data_field : TemplateField → Template → Template
add_data_field f t = record t { datafields = t.datafields ++ f ∷ [] }

-- add_scope_field
unfoldable pub add_scope_field : TemplateField → Template → Template
add_scope_field f t = record t { scopefields = t.scopefields ++ f ∷ [] }

-- The copy constructor.
unfoldable pub copy : Template → Template
copy rhs = record rhs { tsend = 0 }

-- operator=, which adds the fields to those that are there.
unfoldable pub assign : Template → Template → Template
assign t rhs = record rhs {
  datafields = t.datafields ++ rhs.datafields;
  scopefields = t.scopefields ++ rhs.scopefields;
}

abbrev same_type : TemplateType → TemplateType → Bool
same_type data_template data_template = true
same_type option_template option_template = true
same_type _ _ = false

abbrev same_bool : Bool → Bool → Bool
same_bool true b = b
same_bool false b = not b

-- The comparison of two fields; those of mnslp_ipfix_field are equal by number and enterprise.
abbrev pub field_eq : TemplateField → TemplateField → Bool
field_eq f g =
    f.flength == g.flength
    && same_bool f.unknown_f g.unknown_f
    && same_bool f.relay_f g.relay_f
    && f.elem_type.eno == g.elem_type.eno
    && f.elem_type.ftype == g.elem_type.ftype

-- The loop over the fields of the left side. `none` stands for reading past the end of the right
-- side.
unfoldable pub fields_eq : List TemplateField → List TemplateField → Option Bool
fields_eq [] gs = some true
fields_eq (f ∷ fs) [] = none
fields_eq (f ∷ fs) (g ∷ gs) =
    let rest = fields_eq fs gs in if field_eq f g then rest else some false

abbrev then_test : Option Bool → Option Bool → Option Bool
then_test none q = none
then_test (some true) q = q
then_test (some false) q = some false

-- operator==
unfoldable pub equals : Template → Template → Option Bool
unfolding fields_eq
equals t rhs =
    if same_type rhs.type t.type && rhs.tid == t.tid && rhs.maxfields == t.maxfields
    then then_test (fields_eq t.datafields rhs.datafields) (fields_eq t.scopefields rhs.scopefields)
    else some false

-- mnslp_template_container::exists_template
unfoldable pub exists_template : ℕ → List (ℕ × Template) → Bool
exists_template templid [] = false
exists_template templid ((k, t) ∷ rest) = k == templid || exists_template templid rest

-- mnslp_template_container::get_template, where `none` stands for mnslp_ipfix_bad_argument.
unfoldable pub get_template : ℕ → List (ℕ × Template) → Option Template
get_template templid [] = none
get_template templid ((k, t) ∷ rest) =
    let later = get_template templid rest in if k == templid then some t else later

abbrev after_entry : ℕ × Template → Option (List (ℕ × Template)) → Option (List (ℕ × Template))
after_entry e none = none
after_entry e (some rest) = some (e ∷ rest)

-- mnslp_template_container::delete_template. `none` stands for erasing the end of the map, for an id
-- that is not there.
unfoldable pub delete_template : ℕ → List (ℕ × Template) → Option (List (ℕ × Template))
delete_template templid [] = none
delete_template templid ((k, t) ∷ rest) =
    let later = delete_template templid rest in
    if k == templid then some rest else after_entry (k, t) later

-- get_template_list
unfoldable pub get_template_list : List (ℕ × Template) → List ℕ
get_template_list [] = []
get_template_list ((k, t) ∷ rest) = k ∷ get_template_list rest

-- operator= of the container: what was there is deleted, every template is copied.
unfoldable pub assign_container : List (ℕ × Template) → List (ℕ × Template) → List (ℕ × Template)
unfolding copy
assign_container mine [] = []
assign_container mine ((k, t) ∷ rest) = (k, copy t) ∷ assign_container mine rest

-- The loop of operator== over the templates of the left side.
unfoldable pub templates_eq : List (ℕ × Template) → List (ℕ × Template) → Option Bool
unfolding get_template equals
templates_eq [] rhs = some true
templates_eq ((k, t) ∷ rest) rhs = then_test (found (get_template k rhs)) (templates_eq rest rhs)
  where
    found : Option Template → Option Bool
    found none = some false
    found (some u) = equals t u

-- operator== of the container
unfoldable pub container_eq : List (ℕ × Template) → List (ℕ × Template) → Option Bool
unfolding templates_eq
container_eq mine rhs = if length rhs == length mine then templates_eq mine rhs else some false
