-- ===== src/Registry/Lookup.antt =====
-- programs/mpl-core/src/plugins/plugin_registry.rs: which record `check_registry` leaves for a plugin
-- type, where the collection's registry is read first and the asset's second.
use mpl_core.Prelude.{
  ap, sym, ==_iff, ◌≡◌, refl, ◌∙◌, Bool, true, false, Option, none, some, List, [], ◌∷◌,
  if◌then◌else◌,
}
use mpl_core.Prelude.BTreeMap.{insert, get}
use mpl_core.Prelude.IndexedMap.{get-insert}
use mpl_core.State.{Key}
use mpl_core.Plugins.{PluginType, plugin_type_index, plugin_type_eq, plugin_type_cmp}
use mpl_core.Plugins.Index.{plugin_type_index-injective}
use mpl_core.Registry.Types.{RegistryRecord}
use mpl_core.Registry.Evaluate.{CheckMap, check_registry}
use mpl_core.Lifecycle.{CheckResult}

-- The first of two that is there.
abbrev pub first_some : {A : Type 0} → Option A → Option A → Option A
first_some (some a) o = some a
first_some none o = o

-- The last record of a plugin type; a registry that the program writes has at most one.
abbrev pub last_record : PluginType → List RegistryRecord → Option RegistryRecord
last_record t [] = none
last_record t (r ∷ registry) =
    first_some (last_record t registry) (if plugin_type_eq r.plugin_type t then some r else none)

-- What a map of checks says of a record.
abbrev pub entry_of :
    Key
    → (PluginType → CheckResult)
    → Option RegistryRecord
    → Option (Key × CheckResult × RegistryRecord)
entry_of key check_fp none = none
entry_of key check_fp (some r) = some (key, check_fp r.plugin_type, r)

-- After `check_registry` has gone through a registry, a plugin type has its last record there, with that
-- type's check and the registry's key; a type that the registry does not list keeps what it had before.
pub check_registry-get :
    (t : PluginType) (registry : List RegistryRecord) (key : Key)
    (check_fp : PluginType → CheckResult) (checks : CheckMap)
    → get plugin_type_cmp t (check_registry registry key check_fp checks)
      ≡ first_some (entry_of key check_fp (last_record t registry)) (get plugin_type_cmp t checks)
unfolding check_registry
check_registry-get t [] key check_fp checks = refl
check_registry-get t (r ∷ registry) key check_fp checks =
    check_registry-get t registry key check_fp
      (insert plugin_type_cmp r.plugin_type (key, check_fp r.plugin_type, r) checks)
    ∙ ap (first_some _)
        (get-insert plugin_type_index t r.plugin_type (key, check_fp r.plugin_type, r) checks)
    ∙ added (last_record t registry) (plugin_type_eq r.plugin_type t) _
  where
    added :
        (later : Option RegistryRecord) (b : Bool)
        (before : Option (Key × CheckResult × RegistryRecord))
        → first_some
            (entry_of key check_fp later)
            (if b then some (key, check_fp r.plugin_type, r) else before)
          ≡ first_some
              (entry_of key check_fp (first_some later (if b then some r else none)))
              before
    added (some r') b before = refl
    added none true before = refl
    added none false before = refl

-- The last record of a type is of that type.
pub last_record-type :
    (t : PluginType) (registry : List RegistryRecord) (r : RegistryRecord)
    → last_record t registry ≡ some r
    → r.plugin_type ≡ t
last_record-type t [] r h = cc
last_record-type t (s ∷ registry) r h =
    of_first (last_record t registry) refl (plugin_type_eq s.plugin_type t) refl h
      (last_record-type t registry)
  where
    some-injective : {A : Type 0} {a b : A} → some a ≡ some b → a ≡ b
    some-injective h' = cc

    of_first :
        (later : Option RegistryRecord)
        → last_record t registry ≡ later
        → (b : Bool) → plugin_type_eq s.plugin_type t ≡ b
        → first_some later (if b then some s else none) ≡ some r
        → ((r' : RegistryRecord) → last_record t registry ≡ some r' → r'.plugin_type ≡ t)
        → r.plugin_type ≡ t
    of_first (some r') e b same h' rest = rest r (e ∙ h')
    of_first none e false same h' rest = cc
    of_first none e true same h' rest =
        ap (λ x. x.plugin_type) (sym (some-injective h'))
        ∙ plugin_type_index-injective _ t ((==_iff _ _).0 same)

module _ (t : PluginType) (registry : List RegistryRecord) (key : Key)
    (check_fp : PluginType → CheckResult) (checks : CheckMap) where
  pub check_registry-listed :
      (r : RegistryRecord)
      → last_record t registry ≡ some r
      → get plugin_type_cmp t (check_registry registry key check_fp checks)
        ≡ some (key, check_fp t, r)
  check_registry-listed r listed =
      check_registry-get t registry key check_fp checks
      ∙ ap (λ o. first_some (entry_of key check_fp o) (get plugin_type_cmp t checks)) listed
      ∙ ap (λ u. some (key, check_fp u, r)) (last_record-type t registry r listed)

  pub check_registry-unlisted :
      last_record t registry ≡ none
      → get plugin_type_cmp t (check_registry registry key check_fp checks)
        ≡ get plugin_type_cmp t checks
  check_registry-unlisted unlisted =
      check_registry-get t registry key check_fp checks
      ∙ ap (λ o. first_some (entry_of key check_fp o) (get plugin_type_cmp t checks)) unlisted
