-- ===== src/Harness/ToolGateway/Registry.antt =====
-- What a registry built by `ToolRegistry` holds and lists.
use multi_agent_based_intell.Prelude.{
  String, ◌≡◌, refl, ◌↔◌, true, false, Option, some, List, [], ◌∷◌, map, Memᴰ, ok, arith, string_eq,
  is_unique, is_some, All, All-of_mem, All_mem, select, mem-select, mem-of-select, >>=-eq-ok, subst,
  some_of, eq_iff,
}
use multi_agent_based_intell.Prelude.Dict
use multi_agent_based_intell.Prelude.Dict.{keys}
use multi_agent_based_intell.Prelude.Sorting.{
  sort_by, mem-sort_by, mem-of-sort_by, sort_by-IsSorted, select-IsSorted, IsSorted,
}
use multi_agent_based_intell.Prelude.Strings.{str_le_total, str_le_trans}
use multi_agent_based_intell.Harness.ModelGateway.{ModelToolSpec}
use multi_agent_based_intell.Harness.ToolGateway.{
  ToolDefinition, ToolRegistry, SpecCheck, model_spec, register, register_all, name_before,
  is_allowed, specs_of, list_specs,
}

module _ {World : Type 0} (check_spec : SpecCheck) where
  -- Each definition stands under its own name, and its spec is valid.
  abbrev pub IsEntry : String × ToolDefinition World → Type 0
  IsEntry item = (item.1.name ≡ item.0) × (is_some (model_spec check_spec item.1) ≡ true)

  pub record IsRegistry (registry : ToolRegistry World) : Type 0 where
    pub distinct : is_unique (keys registry) ≡ true
    pub entries : All IsEntry registry

  -- What a registration that succeeds gives.
  pub record Registered (registry : ToolRegistry World) (definition : ToolDefinition World)
      (after : ToolRegistry World) : Type 0 where
    pub valid : is_some (model_spec check_spec definition) ≡ true
    pub fresh : Dict.has registry definition.name ≡ false
    pub stored : Dict.put registry definition.name definition ≡ after

  register-Registered :
      (registry : ToolRegistry World) (definition : ToolDefinition World)
      {after : ToolRegistry World}
      → register check_spec registry definition ≡ ok after
      → Registered registry definition after
  unfolding register
  register-Registered registry definition h = record {
    valid = ground arith;
    fresh = ground arith;
    stored = ground arith;
  }

  Registered-IsRegistry :
      {registry after : ToolRegistry World} {definition : ToolDefinition World}
      → IsRegistry registry
      → Registered registry definition after
      → IsRegistry after
  Registered-IsRegistry {registry} {definition = definition} r added =
      subst IsRegistry added.stored (record {
        distinct = Dict.put-is_unique registry definition.name definition r.distinct;
        entries =
            Dict.All-put IsEntry registry definition.name definition
              (λ name same. (cc, added.valid)) r.entries;
      })

  pub register_all-IsRegistry :
      (registry : ToolRegistry World) (definitions : List (ToolDefinition World))
      {after : ToolRegistry World}
      → register_all check_spec registry definitions ≡ ok after
      → IsRegistry registry
      → IsRegistry after
  unfolding register_all
  register_all-IsRegistry registry [] h r = subst IsRegistry (cc) r
  register_all-IsRegistry registry (definition ∷ rest) h r =
      let (next, first, later) = >>=-eq-ok (register check_spec registry definition) _ h in
      register_all-IsRegistry next rest later
        (Registered-IsRegistry r (register-Registered registry definition first))

  Registered-keeps :
      {registry after : ToolRegistry World} {definition : ToolDefinition World} (name : String)
      {tool : ToolDefinition World}
      → Registered registry definition after
      → Dict.get registry name ≡ some tool
      → Dict.get after name ≡ some tool
  Registered-keeps {registry} {definition = definition} name {tool} added at =
      subst (λ r. Dict.get r name ≡ some tool) added.stored
        (ground (
          arith,
          at,
          added.fresh,
          Dict.get-put registry definition.name name definition,
          eq_iff definition.name name,
        ))

  -- A registered tool is never replaced.
  pub register_all-keeps :
      (registry : ToolRegistry World) (definitions : List (ToolDefinition World))
      {after : ToolRegistry World} (name : String) {tool : ToolDefinition World}
      → register_all check_spec registry definitions ≡ ok after
      → Dict.get registry name ≡ some tool
      → Dict.get after name ≡ some tool
  unfolding register_all
  register_all-keeps registry [] name {tool} h at = subst (λ r. Dict.get r name ≡ some tool) (cc) at
  register_all-keeps registry (definition ∷ rest) name h at =
      let (next, first, later) = >>=-eq-ok (register check_spec registry definition) _ h in
      register_all-keeps next rest name later
        (Registered-keeps name (register-Registered registry definition first) at)

  -- The specs of a list of items, none of them refused.
  abbrev pub HasSpecs : List (String × ToolDefinition World) → List ModelToolSpec → Type 0
  HasSpecs items specs =
      map (λ (item : String × ToolDefinition World). model_spec check_spec item.1) items
      ≡ map some specs

  specs_total :
      (items : List (String × ToolDefinition World))
      → All IsEntry items
      → (specs : List ModelToolSpec) × (specs_of check_spec items ≡ some specs)
        × HasSpecs items specs
  unfolding specs_of
  specs_total [] a = ([], refl, refl)
  specs_total ((name, definition) ∷ rest) a =
      let (spec, first) = some_of (model_spec check_spec definition) a.0.1 in
      let (specs, later, same) = specs_total rest a.1 in
      (spec ∷ specs, ground (arith, first, later), ground (arith, first, same))

  -- What `list_specs` gives: the specs of `items`, which are the allowed tools of the registry in
  -- the order of their names.
  pub record Listed (registry : ToolRegistry World) (allowlist : Option (List String))
      (specs : List ModelToolSpec) : Type 0 where
    pub items : List (String × ToolDefinition World)
    pub described : HasSpecs items specs
    pub sorted : IsSorted (name_before check_spec) items
    pub exact :
        (name : String) (tool : ToolDefinition World)
        → Memᴰ (name, tool) items ↔ (
            (Dict.get registry name ≡ some tool)
            × (is_allowed check_spec allowlist (name, tool) ≡ true))

  -- In a registry that `ToolRegistry` has built, `list_specs` raises nothing and gives the specs of
  -- exactly the registered tools that the allowlist names, of all tools where there is no
  -- allowlist, sorted by name.
  pub list_specs-Listed :
      (definitions : List (ToolDefinition World)) {registry : ToolRegistry World}
      (allowlist : Option (List String))
      → register_all check_spec [] definitions ≡ ok registry
      → (specs : List ModelToolSpec) × (list_specs check_spec registry allowlist ≡ some specs)
        × Listed registry allowlist specs
  unfolding list_specs
  list_specs-Listed definitions {registry} allowlist built = (
    result.0,
    result.1,
    record {
      items = items;
      described = result.2;
      sorted = select-IsSorted _ _ _ (
          sort_by-IsSorted _ (λ a b. str_le_total a.0 b.0) (λ a b c. str_le_trans a.0 b.0 c.0)
            registry);
      exact = λ name tool. (forward name tool, backward name tool);
    },
  )
    where
      sorted_items : List (String × ToolDefinition World)
      sorted_items = sort_by (name_before check_spec) registry

      items : List (String × ToolDefinition World)
      items = select (is_allowed check_spec allowlist) sorted_items

      valid : IsRegistry registry
      valid =
          register_all-IsRegistry [] definitions built (record { distinct = refl; entries = tt })

      result :
          (specs : List ModelToolSpec) × (specs_of check_spec items ≡ some specs)
          × HasSpecs items specs
      result = specs_total items (
          All-of_mem items λ item m.
            All_mem IsEntry registry valid.entries
              (mem-of-sort_by _ registry (mem-of-select _ sorted_items m).0))

      forward :
          (name : String) (tool : ToolDefinition World)
          → Memᴰ (name, tool) items
          → (Dict.get registry name ≡ some tool)
            × (is_allowed check_spec allowlist (name, tool) ≡ true)
      forward name tool m =
          let (at, allowed) = mem-of-select _ sorted_items m in
          (Dict.get_of_mem registry valid.distinct (mem-of-sort_by _ registry at), allowed)

      backward :
          (name : String) (tool : ToolDefinition World)
          → (Dict.get registry name ≡ some tool)
            × (is_allowed check_spec allowlist (name, tool) ≡ true)
          → Memᴰ (name, tool) items
      backward name tool h =
          mem-select _ sorted_items (mem-sort_by _ registry (Dict.mem_of_get registry h.0)) h.1
