-- ===== src/Executor/Toolsets/Laws.antt =====
-- engine/src/api/services/tool_executor.py: what the tools that the filter of toolsets keeps have
-- passed, and which parameters of theirs the model sees.
use cloudops_agent.Prelude.{
  String, Bool, true, false, ◌||◌, Option, none, some, List, [], ◌∷◌, ◌≡◌, ◌∙◌, refl, arith, inl,
  inr, Bool-cases, Option-cases, All, one_of, eq_iff, if◌then◌else◌,
}
use cloudops_agent.Json.{Value, str, arr, obj, Fields, done, field}
use cloudops_agent.Json.Access.{lookup, get, fields_of, insert, lookup-insert}
use cloudops_agent.Capability.{capability_error}
use cloudops_agent.Executor.Metadata.{metadata_of}
use cloudops_agent.Executor.Toolsets.{
  available_toolsets, resolve_tool_tag, name_of, is_read_only, toolset_mode, mode_of_tag,
  is_offered, filter_tools_by_loaded_toolsets, is_engine_owned, strip_properties, strip_params,
  with_properties, with_required,
}

-- What a tool has passed that the filter keeps.
pub record Offered (loaded : List (String × Bool)) (tool : Fields) : Type 0 where
  pub capable : capability_error (name_of tool) (some (metadata_of tool)) ≡ none
  pub tag : String
  pub write : Bool
  pub tagged : resolve_tool_tag tool ≡ some (str tag)
  pub allowed : one_of available_toolsets tag ≡ true
  pub opened : toolset_mode tag loaded ≡ some write
  pub readable : write || is_read_only tool ≡ true

mode_of_tag-some :
    (tag : Option Value) (loaded : List (String × Bool)) (w : Bool)
    → mode_of_tag tag loaded ≡ some w
    → (s : String) × (tag ≡ some (str s))
      × (one_of available_toolsets s ≡ true)
      × (toolset_mode s loaded ≡ some w)
mode_of_tag-some none loaded w h = cc
mode_of_tag-some (some (str s)) loaded w h = elim (Bool-cases (one_of available_toolsets s)) [
  | inl e ↦ (s, refl, e, rw e at h)
  | inr e ↦ absurd_mode (rw e at h)
]
  where
    absurd_mode : {P : Type 0} → none ≡ some w → P
    absurd_mode clash = cc
mode_of_tag-some (some _) loaded w h = cc

is_offered-Offered :
    (loaded : List (String × Bool)) (tool : Fields)
    → is_offered loaded tool ≡ true
    → Offered loaded tool
unfolding is_offered
is_offered-Offered loaded tool h =
    elim (Option-cases (capability_error (name_of tool) (some (metadata_of tool)))) [
      | inr (message, e) ↦ absurd_offer (rw e at h)
      | inl capable ↦ elim (Option-cases (mode_of_tag (resolve_tool_tag tool) loaded)) [
        | inl e ↦ absurd_offer (rw (capable, e) at h)
        | inr (w, e) ↦
            let (s, tagged, allowed, opened) = mode_of_tag-some _ loaded w e in
            record {
              capable = capable;
              tag = s;
              write = w;
              tagged = tagged;
              allowed = allowed;
              opened = opened;
              readable = rw (capable, e) at h;
            }
      ]
    ]
  where
    absurd_offer : {P : Type 0} → false ≡ true → P
    absurd_offer clash = cc

-- Every tool that `filter_tools_by_loaded_toolsets` keeps passes the capability check, has the tag of an
-- available toolset that the session has loaded, and is effectively read-only unless that toolset was
-- loaded with its write tools.
pub filter_tools_by_loaded_toolsets-Offered :
    (tools : List Fields) (loaded : List (String × Bool))
    → All (Offered loaded) (filter_tools_by_loaded_toolsets tools loaded)
unfolding filter_tools_by_loaded_toolsets
filter_tools_by_loaded_toolsets-Offered [] loaded = tt
filter_tools_by_loaded_toolsets-Offered (tool ∷ tools) loaded =
    let rest = filter_tools_by_loaded_toolsets-Offered tools loaded in
    elim (Bool-cases (is_offered loaded tool)) [
      | inl e ↦ rw e (is_offered-Offered loaded tool e, rest)
      | inr e ↦ rw e rest
    ]

lookup-strip_properties :
    (tool_name k : String) (d : Fields)
    → lookup k (strip_properties tool_name d)
      ≡ (if is_engine_owned tool_name k then none else lookup k d)
unfolding strip_properties lookup
lookup-strip_properties tool_name k done = ground arith
lookup-strip_properties tool_name k (field j v d) =
    ground (arith, eq_iff j k, lookup-strip_properties tool_name k d)

abbrev pub shown_property : String → Fields → Option Value
shown_property k params = lookup k (fields_of (get "properties" params))

nothing_shown :
    (k : String) (owned : Bool) → lookup k done ≡ (if owned then none else lookup k done)
unfolding lookup
nothing_shown k owned = ground arith

with_properties-shown :
    (tool_name k : String) (params : Fields) (v : Value)
    → get "properties" params ≡ v
    → shown_property k (with_properties tool_name v params)
      ≡ (if is_engine_owned tool_name k then none else shown_property k params)
with_properties-shown tool_name k params (obj props) h =
    let shown : get "properties"
          (insert "properties" (obj (strip_properties tool_name props)) params)
        ≡ obj (strip_properties tool_name props) =
      rw lookup-insert refl in
    rw (shown, h) (lookup-strip_properties tool_name k props)
with_properties-shown tool_name k params v h = rw h (nothing_shown k (is_engine_owned tool_name k))

with_required-shown :
    (tool_name k : String) (params : Fields) (v : Value)
    → shown_property k (with_required tool_name v params) ≡ shown_property k params
with_required-shown tool_name k params (arr required) = rw lookup-insert refl
with_required-shown tool_name k params _ = refl

-- The properties of a tool's schema that the model sees are those of the tool, less the ones that the
-- engine fills in itself: the identities of a memory tool's caller, and the operation's.
pub strip_params-shown :
    (tool_name k : String) (params : Fields)
    → shown_property k (strip_params tool_name params)
      ≡ (if is_engine_owned tool_name k then none else shown_property k params)
strip_params-shown tool_name k params =
    with_required-shown tool_name k _ _ ∙ with_properties-shown tool_name k params _ refl
