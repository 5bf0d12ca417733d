-- ===== src/Storage/Authorities.antt =====
-- programs/mpl-core/src/plugins/utils.rs: `approve_authority_on_plugin` and `revoke_authority_on_plugin`
-- implement the change of a plugin's authority in the list.
use mpl_core.Prelude.{
  true, pos, sub_ℕ, as_isize, is_zero, checked_add_isize, ℕ, ◌+◌, ◌^◌, ◌<◌, ◌≡◌, refl, ap, ap₂, sym,
  ◌∙◌, arith, some, List, ◌∷◌, ◌++◌, length, length-append, append_assoc, fitted, fitted-append,
  length-fitted,
}
use mpl_core.Error.{numerical_overflow, ok_or, Result, ok, custom, ◌>>=◌, >>=-cong}
use mpl_core.State.{AccountInfo, Authority}
use mpl_core.Plugins.{Plugin, plugin_type}
use mpl_core.Registry.{authority_len}
use mpl_core.Host.{Host}
use mpl_core.Loading.{SolanaAccount, header_account, registry_account}
use mpl_core.Storage.Accounts.{Accounts, save, with_bytes, resize_or_reallocate_account}
use mpl_core.Storage.Meta.{Meta, with_account}
use mpl_core.Storage.Runtime.{
  resize_or_reallocate_account-same, IsRuntime, resize_or_reallocate_account-IsResized,
}
use mpl_core.Storage.Plugins.{
  checked_size, authority_diff, replace_authority, approve_authority_on_plugin,
  revoke_authority_on_plugin,
}
use mpl_core.Storage.Codec.{write_bytes-last}
use mpl_core.Storage.Layout.{
  header_at, Item, internal, area, next, records, internal_record, area_offset, header_of,
  registry_of, layout, meta_of, with_items, IsFree, IsCodedMeta, IsLaidOut,
}
use mpl_core.Storage.Sizes.{
  area-append, records-append, external_records-append, registry_len-insert, end_of, length-layout,
}
use mpl_core.Lifecycle.{manager}
use mpl_core.Storage.Replacing.{
  replace_authority-append, authority_len_bounds, IsCodedAuthority, authority_diff_lem,
  changed_size, no_difference,
}

module _ ⦃host : Host⦄ (runtime : IsRuntime host) {T : Type 0} (trait : SolanaAccount T) (core : T)
    (before after : List Item) (old_authority new_authority : Authority) (plugin : Plugin)
    (system_program : AccountInfo) (accounts : Accounts) where
  abbrev old_items : List Item
  old_items = before ++ (internal old_authority plugin ∷ after)

  abbrev new_items : List Item
  new_items = before ++ (internal new_authority plugin ∷ after)

  abbrev at : ℕ
  at = end_of (area_offset trait core) before

  area-same : area old_items ≡ area new_items
  area-same =
      area-append before (internal old_authority plugin ∷ after)
      ∙ sym (area-append before (internal new_authority plugin ∷ after))

  replaced :
      IsFree (plugin_type plugin) before
      → replace_authority
          (plugin_type plugin)
          new_authority
          (registry_of trait core old_items).registry
        ≡ some (old_authority, (registry_of trait core new_items).registry)
  replaced free =
      ap (replace_authority (plugin_type plugin) new_authority)
        (records-append (area_offset trait core) before (internal old_authority plugin ∷ after))
      ∙ replace_authority-append (plugin_type plugin) new_authority (area_offset trait core) before
          (internal_record at old_authority plugin)
          (records (next at (internal old_authority plugin)) after) free refl
      ∙ ap (λ rs. some (old_authority, rs))
          (sym (
            records-append (area_offset trait core) before (internal new_authority plugin ∷ after)))

  externals-same :
      (registry_of trait core old_items).external_registry
      ≡ (registry_of trait core new_items).external_registry
  externals-same =
      external_records-append (area_offset trait core) before
        (internal old_authority plugin ∷ after)
      ∙ sym (
          external_records-append (area_offset trait core) before
            (internal new_authority plugin ∷ after))

  abbrev new_size : ℕ
  new_size = length (layout trait core new_items)

  module _ (laid_out : IsLaidOut trait core accounts.account old_items)
      (coded : IsCodedMeta trait core old_items) (coded' : IsCodedMeta trait core new_items) where
    size-changed :
        new_size + authority_len old_authority
        ≡ length (layout trait core old_items) + authority_len new_authority
    size-changed = omega (
      arith,
      length-layout trait core old_items coded,
      length-layout trait core new_items coded',
      ap length area-same,
      registry_len-insert (area_offset trait core) before (internal old_authority plugin) after,
      registry_len-insert (area_offset trait core) before (internal new_authority plugin) after,
    )

    abbrev front : List ℕ
    front =
        trait.serialize core
        ++ (header_account.serialize (header_of trait core old_items) ++ area old_items)

    front_end : end_of (area_offset trait core) old_items ≡ length front
    front_end = omega (
      arith,
      coded.core_coded.sized,
      coded.header_coded.sized,
      length-append (trait.serialize core)
          (header_account.serialize (header_of trait core old_items) ++ area old_items),
      length-append (header_account.serialize (header_of trait core old_items)) (area old_items),
    )

    front-stored :
        front ++ registry_account.serialize (registry_of trait core new_items)
        ≡ layout trait core new_items
    front-stored =
        ap
          (λ a.
            (trait.serialize core
              ++ (header_account.serialize (header_at (area_offset trait core + length a)) ++ a))
            ++ registry_account.serialize (registry_of trait core new_items))
          area-same
        ∙ simp append_assoc refl

    -- The registry with the new authority fits behind the plugins.
    save_registry-stores :
        (resized : Accounts)
        → resize_or_reallocate_account system_program new_size accounts ≡ ok resized
        → save registry_account
            (registry_of trait core new_items)
            (end_of (area_offset trait core) old_items)
            resized.account
          ≡ ok (with_bytes resized.account (layout trait core new_items))
    save_registry-stores resized success =
        let R = registry_account.serialize (registry_of trait core old_items) in
        let R' = registry_account.serialize (registry_of trait core new_items) in
        let fitting =
          resize_or_reallocate_account-IsResized runtime system_program new_size accounts resized
            success in
        let size : new_size ≡ length front + length R' =
          omega (arith, ap length front-stored, length-append front R') in
        let stored =
          fitting.resized_bytes
          ∙ ap₂ (fitted 0) size (laid_out.stored ∙ simp append_assoc refl)
          ∙ fitted-append 0 front R (length R') in
        ap (λ n. save registry_account (registry_of trait core new_items) n resized.account)
          front_end
        ∙ write_bytes-last R' front (fitted 0 (length R') R) resized.account
            (sym (length-fitted 0 (length R') R)) stored
        ∙ ap (λ bytes. ok (with_bytes resized.account bytes)) front-stored

    -- What both operations do once they know the new size.
    abbrev store_replaced : Accounts → Result Meta
    store_replaced resized =
        save registry_account (registry_of trait core new_items)
          (end_of (area_offset trait core) old_items) resized.account
        >>= λ registered. ok (record {
          header = header_of trait core old_items;
          registry = registry_of trait core new_items;
          accounts = with_account resized registered;
        })

    store_replaced-stores :
        (resize_or_reallocate_account system_program new_size accounts >>= store_replaced) ≡ (
          resize_or_reallocate_account system_program new_size accounts >>= λ resized.
          ok (meta_of trait core new_items (with_items trait core new_items resized)))
    store_replaced-stores =
        >>=-cong (resize_or_reallocate_account system_program new_size accounts) store_replaced _
          (λ resized success.
            ground (arith, save_registry-stores resized success, ap length area-same))

    module _ (old_coded : IsCodedAuthority old_authority)
        (new_coded : IsCodedAuthority new_authority) (free : IsFree (plugin_type plugin) before)
        (bound : length (layout trait core old_items) + 34 < 2 ^ 63) where
      diff :
          authority_diff new_authority old_authority
          ≡ ok (sub_ℕ (authority_len new_authority) (authority_len old_authority))
      diff = authority_diff_lem new_authority old_authority new_coded old_coded

      sized :
          checked_size accounts.account
            (sub_ℕ (authority_len new_authority) (authority_len old_authority))
          ≡ ok (pos new_size)
      sized =
          ap
            (λ bytes.
              ok_or
                (checked_add_isize (as_isize (length bytes))
                  (sub_ℕ (authority_len new_authority) (authority_len old_authority)))
                (custom numerical_overflow))
            laid_out.stored
          ∙ ap (λ z. ok_or z (custom numerical_overflow))
              (changed_size (length (layout trait core old_items)) (authority_len new_authority)
                (authority_len old_authority) new_size (authority_len_bounds new_authority).1
                (authority_len_bounds old_authority).1 bound size-changed)

      unchanged :
          is_zero (sub_ℕ (authority_len new_authority) (authority_len old_authority)) ≡ true
          → resize_or_reallocate_account system_program new_size accounts ≡ ok accounts
      unchanged same = resize_or_reallocate_account-same runtime system_program new_size accounts (
          omega (
            arith,
            ap length laid_out.stored,
            size-changed,
            no_difference (authority_len new_authority) (authority_len old_authority) same,
          ))

      -- `approve_authority_on_plugin`, on an account that stores a list of plugins: it fails only where
      -- `resize_or_reallocate_account` does, and then the account stores the list in which the first plugin
      -- of the type has the new authority.
      pub approve_authority_on_plugin-replaces :
          approve_authority_on_plugin
            (plugin_type plugin)
            new_authority
            system_program
            (meta_of trait core old_items accounts)
          ≡ (resize_or_reallocate_account system_program new_size accounts >>= λ resized.
              ok (meta_of trait core new_items (with_items trait core new_items resized)))
      unfolding approve_authority_on_plugin
      approve_authority_on_plugin-replaces =
          ground (arith, replaced free, externals-same, diff, sized, unchanged)
          ∙ store_replaced-stores

module _ ⦃host : Host⦄ (runtime : IsRuntime host) {T : Type 0} (trait : SolanaAccount T) (core : T)
    (before after : List Item) (old_authority : Authority) (plugin : Plugin)
    (system_program : AccountInfo) (accounts : Accounts) where
  abbrev revoked : List Item
  revoked = before ++ (internal (manager (plugin_type plugin)) plugin ∷ after)

  -- `revoke_authority_on_plugin`, on an account that stores a list of plugins: it fails only where
  -- `resize_or_reallocate_account` does, and then the account stores the list in which the first plugin of
  -- the type has its type's manager as its authority.
  pub revoke_authority_on_plugin-resets :
      IsLaidOut trait core accounts.account (before ++ (internal old_authority plugin ∷ after))
      → IsCodedMeta trait core (before ++ (internal old_authority plugin ∷ after))
      → IsCodedMeta trait core revoked
      → IsCodedAuthority old_authority
      → IsCodedAuthority (manager (plugin_type plugin))
      → IsFree (plugin_type plugin) before
      → length (layout trait core (before ++ (internal old_authority plugin ∷ after))) + 34 < 2 ^ 63
      → revoke_authority_on_plugin
          (plugin_type plugin)
          system_program
          (meta_of trait core (before ++ (internal old_authority plugin ∷ after)) accounts)
        ≡ (resize_or_reallocate_account system_program (length (layout trait core revoked)) accounts
            >>= λ resized. ok (meta_of trait core revoked (with_items trait core revoked resized)))
  unfolding revoke_authority_on_plugin
  revoke_authority_on_plugin-resets laid_out coded coded' old_coded new_coded free bound =
      let new_authority = manager (plugin_type plugin) in
      ground (
        arith,
        replaced runtime trait core before after old_authority new_authority plugin system_program
            accounts free,
        externals-same runtime trait core before after old_authority new_authority plugin
            system_program accounts,
        diff runtime trait core before after old_authority new_authority plugin system_program
            accounts laid_out coded coded' old_coded new_coded free bound,
        sized runtime trait core before after old_authority new_authority plugin system_program
            accounts laid_out coded coded' old_coded new_coded free bound,
      )
      ∙ store_replaced-stores runtime trait core before after old_authority new_authority plugin
          system_program accounts laid_out coded coded'
