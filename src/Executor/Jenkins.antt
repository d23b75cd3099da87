-- ===== src/Executor/Jenkins.antt =====
-- engine/src/api/integrations/jenkins/jenkins.py: the Jenkins tools without their integration, and the
-- arguments that the integration supplies.
use cloudops_agent.Prelude.{
  String, Bool, false, not, ◌||◌, Option, none, some, is_some, List, map, any, filter, starts_with,
  ◌==◌, if◌then◌else◌,
}
use cloudops_agent.Text.{is_empty}
use cloudops_agent.Json.{Value, str, arr, obj, Items, nil, cons, Fields, done, field}
use cloudops_agent.Json.Access.{get, lookup, insert, fields_of}
use cloudops_agent.Executor.Metadata.{items_of, string_of, strings, input_schema, dict_of}

pub record Integration : Type 0 where
  pub status : String
  pub metadata : Fields
  pub credentials_ref : Option String

abbrev is_name : (String → Bool) → Value → Bool
is_name p v = elim (string_of v) [ none ↦ false | some s ↦ p s ]

abbrev pub is_jenkins_name : String → Bool
is_jenkins_name name = starts_with name "jenkins_"

abbrev pub names_jenkins : Value → Bool
names_jenkins tags = any (λ s. s == "jenkins") (strings (items_of tags))

abbrev pub fastmcp_tags : Fields → Value
fastmcp_tags tool = get "tags" (fields_of (get "_fastmcp" (fields_of (get "meta" tool))))

unfoldable pub tool_has_jenkins_tag : Fields → Bool
tool_has_jenkins_tag tool =
    is_name is_jenkins_name (get "name" tool)
    || names_jenkins (get "tags" tool)
    || names_jenkins (fastmcp_tags tool)

unfoldable pub is_jenkins_tool : Option Fields → String → Bool
unfolding tool_has_jenkins_tag
is_jenkins_tool none name = is_jenkins_name name
is_jenkins_tool (some done) name = is_jenkins_name name
is_jenkins_tool (some (field k v tool)) name =
    tool_has_jenkins_tag (field k v tool) || is_jenkins_name name

-- d.pop(k, None)
unfoldable pub pop : String → Fields → Fields
pop k done = done
pop k (field j v d) = let rest = pop k d in if j == k then rest else field j v rest

unfoldable pub without : String → Items → Items
without p nil = nil
without p (cons v xs) =
    let rest = without p xs in if is_name (λ s. s == p) v then rest else cons v rest

-- The two schema entries of the stripped copy.
abbrev pub stripped_required : Fields → Items
stripped_required schema =
    without "credentials_ref" (without "api_url" (items_of (get "required" schema)))

abbrev pub stripped_schema : Fields → Fields
stripped_schema schema =
    let props = pop "credentials_ref" (pop "api_url" (fields_of (get "properties" schema))) in
    let schema' = insert "properties" (obj props) schema in
    elim (stripped_required schema) [
      | nil ↦ pop "required" schema'
      | cons v xs ↦ insert "required" (arr (cons v xs)) schema'
    ]

unfoldable pub strip_jenkins_input_params : Fields → Fields
unfolding pop without
strip_jenkins_input_params tool = elim (dict_of (input_schema tool)) [
  | none ↦ tool
  | some schema ↦
      insert "input_schema" (obj (stripped_schema schema))
        (insert "inputSchema" (obj (stripped_schema schema)) tool)
]

-- A status of `none` is that of no integration.
unfoldable pub filter_jenkins_tools : List Fields → Option String → Bool → List Fields
unfolding tool_has_jenkins_tag strip_jenkins_input_params
filter_jenkins_tools tools status is_configured =
    if not is_configured || (elim status [ none ↦ false | some s ↦ s == "disabled" ])
    then filter (λ t. not (tool_has_jenkins_tag t)) tools
    else map (λ t. if tool_has_jenkins_tag t then strip_jenkins_input_params t else t) tools

abbrev pub add_missing : String → Option Value → Fields → Fields
add_missing k none d = d
add_missing k (some v) d = if is_some (lookup k d) then d else insert k v d

-- A reference that is an empty string is none.
abbrev pub reference_of : Integration → Option Value
reference_of i = elim i.credentials_ref [
  | none ↦ none
  | some r ↦ if is_empty r then none else some (str r)
]

abbrev pub supply : Integration → Fields → Fields
supply i args =
    add_missing "credentials_ref" (reference_of i)
      (add_missing "api_url" (lookup "api_url" i.metadata) args)

abbrev pub not_configured : String
not_configured =
    "Jenkins integration is not configured. Admins can create one via /api/v1/integrations."

-- The arguments, and the error where there is one.
unfoldable pub inject_jenkins_metadata_tool_args :
    String → Fields → Option Fields → Option Integration → Fields × Option String
unfolding is_jenkins_tool
inject_jenkins_metadata_tool_args tool_name args metadata integration =
    if not (is_jenkins_tool metadata tool_name) then (args, none) else elim integration [
      | none ↦ (args, some not_configured)
      | some i ↦
          if i.status == "disabled" then (args, some not_configured) else (supply i args, none)
    ]

unfoldable pub strip_jenkins_metadata_tool_args : Fields → Fields
unfolding pop
strip_jenkins_metadata_tool_args args =
    if is_some (lookup "api_url" args) || is_some (lookup "credentials_ref" args)
    then pop "credentials_ref" (pop "api_url" args)
    else args
