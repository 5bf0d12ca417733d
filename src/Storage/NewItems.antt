-- ===== src/Storage/NewItems.antt =====
-- programs/mpl-core/src/plugins/utils.rs: what `initialize_external_plugin_adapter` is to store, as an item of
-- the list, and from which infos.
use mpl_core.Prelude.{ℕ, ◌+◌, ◌≡◌, refl, arith, true, false, Option, none, some, List, length}
use mpl_core.Error.{ok, >>=-succeeds}
use mpl_core.State.{Authority}
use mpl_core.External.{adapter_type}
use mpl_core.External.Infos.{
  ExternalPluginAdapterInitInfo, LifecycleChecks, adapter_of, init_type, unwrap_or,
}
use mpl_core.Host.{Host}
use mpl_core.Registry.{external_record_len}
use mpl_core.Storage.LifecycleChecks.{
  validate_lifecycle_checks, validate_lifecycle_checks_iff, is_empty, IsHookedOnce, RejectsOnly,
}
use mpl_core.Storage.Adapters.{is_available, hooks_of, new_data_len, record_of}
use mpl_core.Storage.Layout.{StoredAdapter, external_record, data_bytes, data_size}

-- There are checks, and no event has two.
abbrev pub AreChecks : LifecycleChecks → Type 0
AreChecks checks = (is_empty checks ≡ false) × IsHookedOnce checks

-- The infos that an adapter can be created from: none of a lifecycle hook, and valid checks, which for an
-- oracle reject and do nothing else.
abbrev pub IsInitializable : ExternalPluginAdapterInitInfo → Type 0
IsInitializable (ExternalPluginAdapterInitInfo.lifecycle_hook _) = ⊥
IsInitializable (ExternalPluginAdapterInitInfo.linked_lifecycle_hook _) = ⊥
IsInitializable (ExternalPluginAdapterInitInfo.oracle info) =
    AreChecks info.lifecycle_checks × RejectsOnly info.lifecycle_checks
IsInitializable (ExternalPluginAdapterInitInfo.app_data _) = Unit {0}
IsInitializable (ExternalPluginAdapterInitInfo.linked_app_data _) = Unit {0}
IsInitializable (ExternalPluginAdapterInitInfo.data_section _) = Unit {0}
IsInitializable (ExternalPluginAdapterInitInfo.agent_identity info) =
    AreChecks info.lifecycle_checks

-- The authority that the infos give, or the update authority; a data section has none.
abbrev given_authority : ExternalPluginAdapterInitInfo → Authority
given_authority (ExternalPluginAdapterInitInfo.lifecycle_hook info) =
    unwrap_or info.init_plugin_authority Authority.update_authority
given_authority (ExternalPluginAdapterInitInfo.linked_lifecycle_hook info) =
    unwrap_or info.init_plugin_authority Authority.update_authority
given_authority (ExternalPluginAdapterInitInfo.oracle info) =
    unwrap_or info.init_plugin_authority Authority.update_authority
given_authority (ExternalPluginAdapterInitInfo.app_data info) =
    unwrap_or info.init_plugin_authority Authority.update_authority
given_authority (ExternalPluginAdapterInitInfo.linked_app_data info) =
    unwrap_or info.init_plugin_authority Authority.update_authority
given_authority (ExternalPluginAdapterInitInfo.data_section _) = Authority.none
given_authority (ExternalPluginAdapterInitInfo.agent_identity info) =
    unwrap_or info.init_plugin_authority Authority.update_authority

abbrev given_checks : ExternalPluginAdapterInitInfo → Option LifecycleChecks
given_checks (ExternalPluginAdapterInitInfo.lifecycle_hook info) = some info.lifecycle_checks
given_checks (ExternalPluginAdapterInitInfo.linked_lifecycle_hook info) = some info.lifecycle_checks
given_checks (ExternalPluginAdapterInitInfo.oracle info) = some info.lifecycle_checks
given_checks (ExternalPluginAdapterInitInfo.app_data _) = none
given_checks (ExternalPluginAdapterInitInfo.linked_app_data _) = none
given_checks (ExternalPluginAdapterInitInfo.data_section _) = none
given_checks (ExternalPluginAdapterInitInfo.agent_identity info) = some info.lifecycle_checks

-- The data of an adapter that keeps some itself: what is appended, at first often nothing.
abbrev own_data : ExternalPluginAdapterInitInfo → Option (List ℕ) → Option (List ℕ)
own_data (ExternalPluginAdapterInitInfo.lifecycle_hook _) appended = some (data_bytes appended)
own_data (ExternalPluginAdapterInitInfo.app_data _) appended = some (data_bytes appended)
own_data (ExternalPluginAdapterInitInfo.data_section _) appended = some (data_bytes appended)
own_data _ appended = none

-- Data is appended only to an adapter that keeps some.
abbrev pub IsAppendable : ExternalPluginAdapterInitInfo → Option (List ℕ) → Type 0
IsAppendable (ExternalPluginAdapterInitInfo.lifecycle_hook _) appended = Unit {0}
IsAppendable (ExternalPluginAdapterInitInfo.app_data _) appended = Unit {0}
IsAppendable (ExternalPluginAdapterInitInfo.data_section _) appended = Unit {0}
IsAppendable _ appended = appended ≡ none

-- The new item.
abbrev pub item_of : ExternalPluginAdapterInitInfo → Option (List ℕ) → StoredAdapter
item_of info appended = record {
  adapter = adapter_of info;
  authority = given_authority info;
  lifecycle_checks = given_checks info;
  adapter_data = own_data info appended;
}

-- The authority and the checks that the code finds are those given.
abbrev pub AreGiven :
    ExternalPluginAdapterInitInfo → Option Authority × Option LifecycleChecks → Type 0
AreGiven info hooks =
    (unwrap_or hooks.0 Authority.update_authority ≡ given_authority info)
    × (hooks.1 ≡ given_checks info)

pub hooks_of-AreGiven :
    (info : ExternalPluginAdapterInitInfo)
    → IsInitializable info
    → (is_available info ≡ true)
      × ((hooks : Option Authority × Option LifecycleChecks) × (hooks_of info ≡ ok hooks)
          × AreGiven info hooks)
hooks_of-AreGiven (ExternalPluginAdapterInitInfo.oracle info) (checks, rejects) =
    let valid =
      (validate_lifecycle_checks_iff info.lifecycle_checks true).1
        (checks.0, checks.1, λ _. rejects) in
    (
      refl,
      (
        (info.init_plugin_authority, some info.lifecycle_checks),
        ground (arith, valid),
        (refl, refl),
      ),
    )
hooks_of-AreGiven (ExternalPluginAdapterInitInfo.app_data info) h =
    (refl, ((info.init_plugin_authority, none), refl, (refl, refl)))
hooks_of-AreGiven (ExternalPluginAdapterInitInfo.linked_app_data info) h =
    (refl, ((info.init_plugin_authority, none), refl, (refl, refl)))
hooks_of-AreGiven (ExternalPluginAdapterInitInfo.data_section info) h =
    (refl, ((some Authority.none, none), refl, (refl, refl)))
hooks_of-AreGiven (ExternalPluginAdapterInitInfo.agent_identity info) checks =
    let valid =
      (validate_lifecycle_checks_iff info.lifecycle_checks false).1
        (checks.0, checks.1, λ no_oracle. absurd (false_true no_oracle)) in
    (
      refl,
      (
        (info.init_plugin_authority, some info.lifecycle_checks),
        ground (arith, valid),
        (refl, refl),
      ),
    )
  where
    false_true : false ≡ true → ⊥
    false_true e = cc
hooks_of-AreGiven (ExternalPluginAdapterInitInfo.lifecycle_hook info) h = absurd h
hooks_of-AreGiven (ExternalPluginAdapterInitInfo.linked_lifecycle_hook info) h = absurd h

pub hooks_of-IsInitializable :
    (info : ExternalPluginAdapterInitInfo) (hooks : Option Authority × Option LifecycleChecks)
    → is_available info ≡ true
    → hooks_of info ≡ ok hooks
    → IsInitializable info
hooks_of-IsInitializable (ExternalPluginAdapterInitInfo.lifecycle_hook info) hooks e h = cc
hooks_of-IsInitializable (ExternalPluginAdapterInitInfo.linked_lifecycle_hook info) hooks e h = cc
hooks_of-IsInitializable (ExternalPluginAdapterInitInfo.oracle info) hooks e h =
    let (u, valid, h1) = >>=-succeeds (validate_lifecycle_checks info.lifecycle_checks true) _ h in
    let (some_are, once, rejects) =
      (validate_lifecycle_checks_iff info.lifecycle_checks true).0 valid in
    ((some_are, once), rejects refl)
hooks_of-IsInitializable (ExternalPluginAdapterInitInfo.app_data info) hooks e h = tt
hooks_of-IsInitializable (ExternalPluginAdapterInitInfo.linked_app_data info) hooks e h = tt
hooks_of-IsInitializable (ExternalPluginAdapterInitInfo.data_section info) hooks e h = tt
hooks_of-IsInitializable (ExternalPluginAdapterInitInfo.agent_identity info) hooks e h =
    let (u, valid, h1) = >>=-succeeds (validate_lifecycle_checks info.lifecycle_checks false) _ h in
    let (some_are, once, _) = (validate_lifecycle_checks_iff info.lifecycle_checks false).0 valid in
    (some_are, once)

init_type_lem :
    (info : ExternalPluginAdapterInitInfo) → init_type info ≡ adapter_type (adapter_of info)
init_type_lem info = ground arith

pub appended_lem :
    (info : ExternalPluginAdapterInitInfo) (appended : Option (List ℕ))
    → IsAppendable info appended
    → data_bytes (own_data info appended) ≡ data_bytes appended
appended_lem info appended h = ground arith

module _ ⦃host : Host⦄ where
  new_data_len_lem :
      (info : ExternalPluginAdapterInitInfo) (appended : Option (List ℕ))
      → new_data_len (adapter_of info) appended ≡ data_size (own_data info appended)
  new_data_len_lem info appended = ground arith

  -- The record of the item, and the draft that is measured.
  pub record_of-item :
      (info : ExternalPluginAdapterInitInfo) (hooks : Option Authority × Option LifecycleChecks)
      (appended : Option (List ℕ)) (at : ℕ)
      → AreGiven info hooks
      → record_of info hooks appended at (at + length (host.encode_external (adapter_of info)))
        ≡ external_record at (item_of info appended)
  record_of-item info hooks appended at (authority, checks) =
      ground (arith, authority, checks, init_type_lem info, new_data_len_lem info appended)

  pub record_len-draft :
      (info : ExternalPluginAdapterInitInfo) (hooks : Option Authority × Option LifecycleChecks)
      (appended : Option (List ℕ)) (at : ℕ)
      → AreGiven info hooks
      → external_record_len (record_of info hooks appended at 0)
        ≡ external_record_len (external_record at (item_of info appended))
  record_len-draft info hooks appended at (authority, checks) =
      ground (arith, authority, checks, init_type_lem info, new_data_len_lem info appended)

  pub own_len_lem :
      (info : ExternalPluginAdapterInitInfo) (appended : Option (List ℕ))
      → IsAppendable info appended
      → unwrap_or (new_data_len (adapter_of info) appended) 0 ≡ length (data_bytes appended)
  own_len_lem info appended h = ground arith
