-- ===== src/Lib.antt =====
-- A model of mpl-core, a Solana program that keeps digital assets and collections in accounts, with
-- plugins that approve, reject or force what happens to them. All paths here are below
-- programs/mpl-core/src.
--
-- The program's parts and the files that model them:
--   * Prelude, and its children: names of the libraries, Boolean tests on numbers, lists, BTreeMap and
--     BTreeSet as lists in ascending order, and what collecting a list into a map or a set keeps.
--   * Error: error.rs. A Result is a value or a ProgramError; a panic is one of its errors, since it
--     ends an instruction in the same way.
--   * State: state/{mod,asset,collection,update_authority}.rs. An address is a number; an account is
--     a record of the fields that the program reads, its data a list of bytes.
--   * Plugins, External: the data of plugins/mod.rs, of plugins/internal and plugins/external, and of
--     plugins/external_plugin_adapters.rs. Registry: plugins/plugin_header.rs and plugin_registry.rs,
--     with check_registry and check_adapter_registry, which fill the maps of checks.
--   * Loading: SolanaAccount::load, load_key, fetch_core_data, fetch_wrapped_plugin.
--   * Lifecycle: plugins/lifecycle.rs. Lifecycle/Checks has the tables of who takes part in which event,
--     Lifecycle/Validate the loops that ask the plugins and the external adapters, Lifecycle/Tally the
--     flags that they keep. The loops run over a finite map, so there is no fuel.
--   * Internal: the validations of every plugin of plugins/internal, by the folder they stand in, and
--     Internal/Dispatch, which is Plugin::inner and Plugin::validate_*. Adapters: the same of
--     plugins/external and of the derivation of extra accounts.
--   * Core: AssetV1::check_*, AssetV1::validate_*, and those of CollectionV1.
--   * Permissions: utils/mod.rs. Permissions/Resolve has the signer's authorities, Permissions/Asset and
--     Permissions/Collection the two permission checks, Permissions/Delegates the check of update
--     delegates that the groups' instructions use.
--   * Storage: plugins/utils.rs, utils/account.rs, PluginRegistryV1::bump_offsets, the saving of
--     state/traits.rs. Storage/Accounts writes, resizes and closes an account, Storage/Meta has the plugin
--     header and registry, Storage/Offsets the offsets, Storage/Plugins the addition, deletion and change of
--     a plugin, Storage/LifecycleChecks, Storage/AdapterKeys and Storage/Adapters those of external
--     adapters, from the infos of External/Infos. Storage/Layout is the abstract view, a list of plugins and
--     external adapters without offsets and bytes, and how it is stored; the other modules of Storage show
--     that the operations implement those of lists.
--   * Processor: what processor/{transfer,burn,execute}.rs pass to the permission check; Processor/Plugins
--     has the whole of add_plugin.rs, remove_plugin.rs and approve_plugin_authority.rs. The accounts that
--     an instruction changes are its result.
--   * Tests: a host, accounts and concrete runs.
--
-- An instruction calls validate_asset_permissions with a table for its event. That loads the asset
-- (Loading), resolves the signer (Permissions/Resolve), collects the checks of the collection's and
-- then of the asset's plugins (Registry), asks the asset, the collection, the plugins and the
-- external adapters in turn (Core, Lifecycle, Internal, Adapters), and decides by their answers.
--
-- Host stands for what the repository does not define: the derived borsh decoders, which read a prefix
-- of the bytes, and encoders, rent, resizing and the transfer of lamports, the addresses of programs,
-- find_program_address, assert_signer, assert_derivation and the records of mpl_agent_tools. No law is
-- assumed of them, except where a theorem on the storage names one: IsRuntime has the documented behaviour
-- of resizing, transfers and copying, IsCoded and its like say that the values at hand are stored in as many
-- bytes as their lengths say and are read back.
--
-- Integers: lengths and offsets are natural numbers; saturation (royalties), wrap-around (`i as u8`)
-- and checked arithmetic (counters, offsets, usize and isize of 64 bits) are written out. Logging is left out.
--
-- Not modelled: update_external_plugin_adapter_data and the typed fetch_plugin (plugins/utils.rs), the
-- rest of the processors, groups and compression; the entry point and the generated instruction
-- contexts, fees, clients and build files.
pub mod Prelude
pub mod Error
pub mod State
pub mod Plugins
pub mod External
pub mod Registry
pub mod Host
pub mod Loading
pub mod Lifecycle
pub mod Internal
pub mod Core
pub mod Adapters
pub mod Permissions
pub mod Storage
pub mod Processor
mod Tests
