-- ===== src/Custody/Vault/Readonly.antt =====
-- Planning, verifying and check mode store nothing.
use ansible_collection_found.Base.{String, Bool, false, not, ◌&&◌, ◌==◌, List, Bytes, ◌≡◌}
use ansible_collection_found.Base.Exec.{Relates, Relates-pure, Relates-lift, Relates-bind}
use ansible_collection_found.Base.Value.{Value}
use ansible_collection_found.Stdlib.{Stdlib}
use ansible_collection_found.Custody.Client.{Client, IsFaithful}
use ansible_collection_found.Custody.Vault.{Entry, transact, vault_custody}
use ansible_collection_found.Custody.Vault.Store.{
  SameStore, SameStore-IsPreorder, preflight-SameStore,
}

module _ (py : Stdlib) {c : Client} (faithful : IsFaithful c) (mount : String) where
  transact-SameStore :
      (objects : List Entry) (raw : Bytes) (sha root operation : String) (check_mode : Bool)
      → (operation == "apply" && not check_mode) ≡ false
      → Relates (SameStore c) (transact py c mount objects raw sha root operation check_mode)
  unfolding transact
  transact-SameStore objects raw sha root operation check_mode h = rw h (
      search
        (
          SameStore-IsPreorder,
          Relates-pure,
          Relates-lift,
          Relates-bind,
          preflight-SameStore py faithful mount,
        )
        depth 9)

  -- Unless the operation is `apply` outside check mode, the run leaves every stored object as it
  -- was, whether it returns or raises.
  pub vault_custody-readonly :
      (prefix : String) (pack : Value) (operation : String) (check_mode : Bool) (s : Client.State c)
      (m p : String)
      → (operation == "apply" && not check_mode) ≡ false
      → Client.stored c (vault_custody py c mount prefix pack operation check_mode s).1 m p
        ≡ Client.stored c s m p
  unfolding vault_custody
  vault_custody-readonly prefix pack operation check_mode s m p h = Relates.at run s m p
    where
      run : Relates (SameStore c) (vault_custody py c mount prefix pack operation check_mode)
      run = search (SameStore-IsPreorder, Relates-lift, Relates-bind, transact-SameStore) depth 12
