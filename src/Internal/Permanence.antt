-- ===== src/Internal/Permanence.antt =====
-- programs/mpl-core/src/plugins/internal/permanent: plugins that are there from the start or never.
use mpl_core.Prelude.{◌≡◌, Bool, true, false, some, arith}
use mpl_core.Error.{ok}
use mpl_core.Plugins.{Plugin, plugin_type}
use mpl_core.Host.{Host}
use mpl_core.Lifecycle.{PluginValidationContext, rejected, check_add_plugin, can_reject}
use mpl_core.Internal.Dispatch.{inner, validate_add_plugin}
use mpl_core.Internal.Permanent.Freezes as Freezes
use mpl_core.Internal.Permanent.Delegates as PermanentDelegates
use mpl_core.Internal.Permanent.Edition as Edition

abbrev pub is_permanent : Plugin → Bool
is_permanent (Plugin.permanent_freeze_delegate _) = true
is_permanent Plugin.permanent_transfer_delegate = true
is_permanent Plugin.permanent_burn_delegate = true
is_permanent (Plugin.permanent_freeze_execute _) = true
is_permanent (Plugin.edition _) = true
is_permanent _ = false

module _ ⦃host : Host⦄ where
  -- A permanent freeze, transfer, burn or freeze execute plugin, or an edition, takes part in the addition
  -- of a plugin and rejects its own, whoever signs and whatever authority it has.
  pub validate_add_plugin-permanent :
      (plugin : Plugin) (ctx : PluginValidationContext)
      → is_permanent plugin ≡ true
      → ctx.target_plugin ≡ some plugin
      → (check_add_plugin (plugin_type plugin) ≡ can_reject)
        × (validate_add_plugin plugin ctx ≡ ok rejected)
  unfolding validate_add_plugin inner Freezes.freeze_delegate_validation
      Freezes.freeze_execute_validation PermanentDelegates.transfer_delegate_validation
      PermanentDelegates.burn_delegate_validation Edition.validation check_add_plugin
  validate_add_plugin-permanent plugin ctx permanent target = ground arith
