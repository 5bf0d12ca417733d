-- ===== src/Tests/Storage.antt =====
-- The storage of plugins at concrete accounts.
use mpl_core.Prelude.{false, ◌↔◌, true, refl, ◌+◌, [], ◌∷◌, arith, ◌≡◌, List, Option}
use mpl_core.Error.{◌>>=◌, deserialization_error, ok, err, custom, plugin_not_found}
use mpl_core.State.{Authority, address, asset_len}
use mpl_core.Plugins.{Plugin, PluginType}
use mpl_core.Loading.{load, asset_account, fetch_wrapped_plugin}
use mpl_core.Storage.Layout.{Item}
use mpl_core.Storage.Accounts.{
  Accounts, resize_or_reallocate_account, move_rent, close_program_account,
}
use mpl_core.Storage.Plugins.{
  initialize_plugin, delete_plugin, approve_authority_on_plugin, revoke_authority_on_plugin,
}
use mpl_core.Storage.Runtime.{
  IsResized, resize_or_reallocate_account-IsResized, IsRefundable, refunded,
}
use mpl_core.Storage.Meta.{create_meta_idempotent}
use mpl_core.External.{HookableLifecycleEvent}
use mpl_core.Storage.LifecycleChecks.{
  validate_lifecycle_checks, validate_lifecycle_checks_iff, is_empty, IsHookedOnce, RejectsOnly,
}
use mpl_core.Storage.Creating.{create_meta_idempotent-creates, create_meta_idempotent-keeps}
use mpl_core.Storage.Closed.{closed, close_program_account-closes}
use mpl_core.Storage.Added.{initialize_plugin-appends}
use mpl_core.Storage.Removed.{delete_plugin-removes, delete_plugin-missing}
use mpl_core.Storage.Fetching.{fetch_wrapped_plugin-stored}
use mpl_core.Storage.Authorities.{
  approve_authority_on_plugin-replaces, revoke_authority_on_plugin-resets,
}
use mpl_core.Tests.Accounts.{asset, signer, zeros}
use mpl_core.Tests.Stored.{
  storing_host, storing_runtime, held, held-IsLaidOut, freeze, burn, frozen, freeze-Coded,
  burn-Coded, both-Coded, none-Coded, address-Coded, frozen-IsCodedPlugin,
  burn_delegate-IsCodedPlugin, meta, restored, size, storing,
}

abbrev one : List Item
one = freeze Authority.owner ∷ []

abbrev both : List Item
both = freeze Authority.owner ∷ burn ∷ []

abbrev delegated : List Item
delegated = freeze (address 9) ∷ burn ∷ []

initialize_plugin-appends_example :
    initialize_plugin ⦃host = storing_host⦄ Plugin.burn_delegate Authority.owner 43
      (signer 0)
      (meta one (held one))
    ≡ restored one both
unfolding asset_len
initialize_plugin-appends_example =
    initialize_plugin-appends ⦃host = storing_host⦄ storing_runtime
      (asset_account ⦃host = storing_host⦄) asset one Authority.owner Plugin.burn_delegate
      (signer 0) (held one) (held-IsLaidOut one) freeze-Coded both-Coded burn_delegate-IsCodedPlugin
      (refl, tt) (omega arith)

refundable :
    IsRefundable ⦃host = storing_host⦄ storing_runtime (signer 0) (size (burn ∷ [])) (held both)
unfolding asset_len
refundable = record {
  rent_falls = omega arith;
  payer_room = omega arith;
  account_pays = omega arith;
}

delete_plugin-removes_example :
    delete_plugin ⦃host = storing_host⦄
      (asset_account ⦃host = storing_host⦄)
      PluginType.freeze_delegate
      asset
      (signer 0)
      (held both)
    ≡ ok (
        storing (burn ∷ []) (
          refunded ⦃host = storing_host⦄ storing_runtime (signer 0) (size (burn ∷ [])) (held both)))
unfolding asset_len
delete_plugin-removes_example =
    delete_plugin-removes ⦃host = storing_host⦄ (asset_account ⦃host = storing_host⦄) asset
      (signer 0) (held both) storing_runtime [] (burn ∷ []) Authority.owner frozen
      (held-IsLaidOut both) both-Coded burn-Coded frozen-IsCodedPlugin refl tt (omega arith)
      refundable

delete_plugin-missing_example :
    delete_plugin ⦃host = storing_host⦄
      (asset_account ⦃host = storing_host⦄)
      PluginType.attributes
      asset
      (signer 0)
      (held both)
    ≡ err (custom plugin_not_found)
delete_plugin-missing_example =
    delete_plugin-missing ⦃host = storing_host⦄ (asset_account ⦃host = storing_host⦄) asset
      (signer 0) (held both) both PluginType.attributes (held-IsLaidOut both) both-Coded
      (refl, (refl, tt))

fetch_wrapped_plugin-stored_example :
    fetch_wrapped_plugin ⦃host = storing_host⦄
      (asset_account ⦃host = storing_host⦄)
      (held both).account
      Option.none
      PluginType.burn_delegate
    ≡ ok (Authority.owner, Plugin.burn_delegate)
fetch_wrapped_plugin-stored_example =
    fetch_wrapped_plugin-stored ⦃host = storing_host⦄ (asset_account ⦃host = storing_host⦄) asset
      (held both).account one [] Authority.owner Plugin.burn_delegate (held-IsLaidOut both)
      both-Coded burn_delegate-IsCodedPlugin (refl, tt)

approve_authority_on_plugin-replaces_example :
    approve_authority_on_plugin ⦃host = storing_host⦄ PluginType.freeze_delegate
      (address 9)
      (signer 0)
      (meta both (held both))
    ≡ restored both delegated
unfolding asset_len
approve_authority_on_plugin-replaces_example =
    approve_authority_on_plugin-replaces ⦃host = storing_host⦄ storing_runtime
      (asset_account ⦃host = storing_host⦄) asset [] (burn ∷ []) Authority.owner (address 9) frozen
      (signer 0) (held both) (held-IsLaidOut both) both-Coded address-Coded refl refl tt
      (omega arith)

revoke_authority_on_plugin-resets_example :
    revoke_authority_on_plugin ⦃host = storing_host⦄ PluginType.freeze_delegate
      (signer 0)
      (meta delegated (held delegated))
    ≡ restored delegated both
unfolding asset_len
revoke_authority_on_plugin-resets_example =
    revoke_authority_on_plugin-resets ⦃host = storing_host⦄ storing_runtime
      (asset_account ⦃host = storing_host⦄) asset [] (burn ∷ []) (address 9) frozen (signer 0)
      (held delegated) (held-IsLaidOut delegated) address-Coded both-Coded refl refl tt
      (omega arith)

-- An asset without plugins.
abbrev bare : Accounts
bare = record (held []) { account = record (held []).account { bytes = 1 ∷ zeros 42 } }

resize_or_reallocate_account-IsResized_example :
    IsResized ⦃host = storing_host⦄ storing_runtime (signer 0) 44 bare (record {
      account = record bare.account { lamports = 1001; bytes = 1 ∷ zeros 43 };
      payer = record bare.payer { lamports = 999 };
    })
unfolding resize_or_reallocate_account move_rent
resize_or_reallocate_account-IsResized_example =
    resize_or_reallocate_account-IsResized ⦃host = storing_host⦄ storing_runtime (signer 0) 44 bare
      (record {
        account = record bare.account { lamports = 1001; bytes = 1 ∷ zeros 43 };
        payer = record bare.payer { lamports = 999 };
      })
      refl

create_meta_idempotent-creates_example :
    create_meta_idempotent ⦃host = storing_host⦄
      (asset_account ⦃host = storing_host⦄)
      (signer 0)
      bare
    ≡ (resize_or_reallocate_account ⦃host = storing_host⦄ (signer 0) (size []) bare >>= λ resized.
        ok (asset, 43, meta [] (storing [] resized)))
unfolding asset_len
create_meta_idempotent-creates_example =
    create_meta_idempotent-creates ⦃host = storing_host⦄ (asset_account ⦃host = storing_host⦄) asset
      (signer 0) bare storing_runtime none-Coded refl refl

create_meta_idempotent-keeps_example :
    create_meta_idempotent ⦃host = storing_host⦄
      (asset_account ⦃host = storing_host⦄)
      (signer 0)
      (held both)
    ≡ ok (asset, 43, meta both (held both))
unfolding asset_len
create_meta_idempotent-keeps_example =
    create_meta_idempotent-keeps ⦃host = storing_host⦄ (asset_account ⦃host = storing_host⦄) asset
      (signer 0) (held both) both (held-IsLaidOut both) both-Coded

close_program_account-closes_example :
    (close_program_account ⦃host = storing_host⦄ bare
      ≡ ok (closed ⦃host = storing_host⦄ storing_runtime bare))
    × ((closed ⦃host = storing_host⦄ storing_runtime bare).account.lamports
          + (closed ⦃host = storing_host⦄ storing_runtime bare).payer.lamports
        ≡ 2000)
    × (load ⦃host = storing_host⦄
          (asset_account ⦃host = storing_host⦄)
          (closed ⦃host = storing_host⦄ storing_runtime bare).account
          0
        ≡ err (custom deserialization_error))
close_program_account-closes_example =
    close_program_account-closes ⦃host = storing_host⦄ storing_runtime bare
      (asset_account ⦃host = storing_host⦄) 1 (zeros 42) refl (omega arith) (omega arith)
      (omega arith) refl refl

validate_lifecycle_checks_iff_example :
    (validate_lifecycle_checks ((HookableLifecycleEvent.transfer, (record { flags = 4 })) ∷ []) true
      ≡ ok tt)
    ↔ ((is_empty ((HookableLifecycleEvent.transfer, (record { flags = 4 })) ∷ []) ≡ false)
        × IsHookedOnce ((HookableLifecycleEvent.transfer, (record { flags = 4 })) ∷ [])
        × (true ≡ true
            → RejectsOnly ((HookableLifecycleEvent.transfer, (record { flags = 4 })) ∷ [])))
validate_lifecycle_checks_iff_example =
    validate_lifecycle_checks_iff ((HookableLifecycleEvent.transfer, (record { flags = 4 })) ∷ [])
      true
