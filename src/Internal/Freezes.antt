-- ===== src/Internal/Freezes.antt =====
-- programs/mpl-core/src/plugins/internal: what a plugin that is frozen says of each event, and what
-- can be forced.
use mpl_core.Prelude.{◌≡◌, refl, Bool, true, false}
use mpl_core.Error.{ok}
use mpl_core.Plugins.{Plugin, plugin_type}
use mpl_core.Host.{Host}
use mpl_core.Lifecycle.{
  PluginValidationContext, rejected, can_reject, check_transfer, check_burn, check_execute,
}
use mpl_core.Internal.Dispatch.{inner, validate_transfer, validate_burn, validate_execute}
use mpl_core.Internal.OwnerManaged.FreezeDelegate as FreezeDelegate
use mpl_core.Internal.OwnerManaged.FreezeExecute as FreezeExecute
use mpl_core.Internal.Permanent.Freezes as Freezes

-- The plugin freezes what it is on: its transfers and burns, or its executions.
abbrev pub freezes_moves : Plugin → Bool
freezes_moves (Plugin.freeze_delegate p) = p.frozen
freezes_moves (Plugin.permanent_freeze_delegate p) = p.frozen
freezes_moves _ = false

abbrev pub freezes_execute : Plugin → Bool
freezes_execute (Plugin.freeze_execute p) = p.frozen
freezes_execute (Plugin.permanent_freeze_execute p) = p.frozen
freezes_execute _ = false

pub freezes_moves-check_transfer :
    (plugin : Plugin)
    → freezes_moves plugin ≡ true
    → check_transfer (plugin_type plugin) ≡ can_reject
unfolding check_transfer
freezes_moves-check_transfer (Plugin.freeze_delegate p) h = refl
freezes_moves-check_transfer (Plugin.permanent_freeze_delegate p) h = refl
freezes_moves-check_transfer _ h = cc

pub freezes_moves-check_burn :
    (plugin : Plugin) → freezes_moves plugin ≡ true → check_burn (plugin_type plugin) ≡ can_reject
unfolding check_burn
freezes_moves-check_burn (Plugin.freeze_delegate p) h = refl
freezes_moves-check_burn (Plugin.permanent_freeze_delegate p) h = refl
freezes_moves-check_burn _ h = cc

pub freezes_execute-check_execute :
    (plugin : Plugin)
    → freezes_execute plugin ≡ true
    → check_execute (plugin_type plugin) ≡ can_reject
unfolding check_execute
freezes_execute-check_execute (Plugin.freeze_execute p) h = refl
freezes_execute-check_execute (Plugin.permanent_freeze_execute p) h = refl
freezes_execute-check_execute _ h = cc

module _ ⦃host : Host⦄ where
  pub freezes_moves-validate_transfer :
      (plugin : Plugin) (ctx : PluginValidationContext)
      → freezes_moves plugin ≡ true
      → validate_transfer plugin ctx ≡ ok rejected
  unfolding validate_transfer inner FreezeDelegate.validation Freezes.freeze_delegate_validation
  freezes_moves-validate_transfer (Plugin.freeze_delegate p) ctx h = rw h
  freezes_moves-validate_transfer (Plugin.permanent_freeze_delegate p) ctx h = rw h
  freezes_moves-validate_transfer _ ctx h = cc

  pub freezes_moves-validate_burn :
      (plugin : Plugin) (ctx : PluginValidationContext)
      → freezes_moves plugin ≡ true
      → validate_burn plugin ctx ≡ ok rejected
  unfolding validate_burn inner FreezeDelegate.validation Freezes.freeze_delegate_validation
  freezes_moves-validate_burn (Plugin.freeze_delegate p) ctx h = rw h
  freezes_moves-validate_burn (Plugin.permanent_freeze_delegate p) ctx h = rw h
  freezes_moves-validate_burn _ ctx h = cc

  pub freezes_execute-validate_execute :
      (plugin : Plugin) (ctx : PluginValidationContext)
      → freezes_execute plugin ≡ true
      → validate_execute plugin ctx ≡ ok rejected
  unfolding validate_execute inner FreezeExecute.validation Freezes.freeze_execute_validation
  freezes_execute-validate_execute (Plugin.freeze_execute p) ctx h = rw h
  freezes_execute-validate_execute (Plugin.permanent_freeze_execute p) ctx h = rw h
  freezes_execute-validate_execute _ ctx h = cc
