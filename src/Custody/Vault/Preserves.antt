-- ===== src/Custody/Vault/Preserves.antt =====
-- No run overwrites what Vault stores, not even where the provider would allow it.
use ansible_collection_found.Base.{
  String, Bool, true, false, not, ◌&&◌, ◌==◌, some, List, Bytes, ◌≡◌, ◌∙◌, if◌then◌else◌,
}
use ansible_collection_found.Base.Exec.{
  Exec, pure, bind-cases, Relates, IsPreorder, Relates-pure, Relates-lift, Relates-bind,
}
use ansible_collection_found.Base.Value.{Value}
use ansible_collection_found.Stdlib.{Stdlib}
use ansible_collection_found.Custody.Client.{Client, Row, IsFaithful}
use ansible_collection_found.Custody.Vault.{Entry, publish, readback, transact, vault_custody}
use ansible_collection_found.Custody.Vault.Store.{
  SameStore, preflight-SameStore, readback-SameStore,
}
use ansible_collection_found.Custody.Vault.Publish.{
  Avoids, publish-Fixes, Observed-Avoids, preflight-Observed,
}

module _ (py : Stdlib) {c : Client} (faithful : IsFaithful c) (mount m p : String) (row : Row) where
  -- If the row is stored before, it is stored after.
  abbrev Keeps : Client.State c → Client.State c → Type 0
  Keeps s t = Client.stored c s m p ≡ some row → Client.stored c t m p ≡ some row

  Keeps-IsPreorder : IsPreorder Keeps
  Keeps-IsPreorder = record { stay = λ s h. h; chain = λ s t u h k x. k (h x) }

  SameStore-Keeps {ℓ} :
      {A : Type ℓ} (b : Exec (Client.State c) A) → Relates (SameStore c) b → Relates Keeps b
  SameStore-Keeps b h = record { at = λ s x. h.at s m p ∙ x }

  publish-Keeps :
      (apply : Bool) (es : List Entry) (os : List _)
      → Avoids py faithful mount m p es os
      → Relates Keeps (if apply then publish py c mount es os else pure false)
  publish-Keeps true es os h = record {
    at = λ s x. (publish-Fixes py faithful mount m p es os h).at s ∙ x;
  }
  publish-Keeps false es os h = Relates-pure Keeps-IsPreorder false

  readback-Keeps :
      (apply : Bool) (es : List Entry) (os : List _)
      → Relates Keeps (if apply then readback py c mount es else pure os)
  readback-Keeps true es os = SameStore-Keeps _ (readback-SameStore py faithful mount es)
  readback-Keeps false es os = Relates-pure Keeps-IsPreorder os

  transact-Keeps :
      (es : List Entry) (raw : Bytes) (sha root operation : String) (check_mode : Bool)
      → Relates Keeps (transact py c mount es raw sha root operation check_mode)
  unfolding transact
  transact-Keeps es raw sha root operation check_mode = record {
    at = λ s x.
        bind-cases _ _ s (λ t. Client.stored c t m p ≡ some row)
          (λ e _. (preflight-SameStore py faithful mount es).at s m p ∙ x)
          λ os ran.
            Relates.at
              (Relates-bind Keeps-IsPreorder _ _ (Relates-lift Keeps-IsPreorder _) λ _.
                Relates-bind Keeps-IsPreorder _ _
                  (publish-Keeps (operation == "apply" && not check_mode) es os (
                    Observed-Avoids py faithful mount s m p es os x
                      (preflight-Observed py faithful mount es s ran)))
                  λ changed.
                    Relates-bind Keeps-IsPreorder _ _
                      (readback-Keeps (operation == "apply" && not check_mode) es os)
                      λ rows.
                        Relates-bind Keeps-IsPreorder _ _ (Relates-lift Keeps-IsPreorder _)
                          λ _. Relates-pure Keeps-IsPreorder _)
              _ ((preflight-SameStore py faithful mount es).at s m p ∙ x);
  }

  -- Whatever the package, the operation and the failures on the way, a row that Vault stores
  -- before the run, on any path of any mount, is stored unchanged after it.
  pub vault_custody-no_overwrite :
      (prefix : String) (pack : Value) (operation : String) (check_mode : Bool) (s : Client.State c)
      → Client.stored c s m p ≡ some row
      → Client.stored c (vault_custody py c mount prefix pack operation check_mode s).1 m p
        ≡ some row
  unfolding vault_custody
  vault_custody-no_overwrite prefix pack operation check_mode s x = Relates.at run s x
    where
      run : Relates Keeps (vault_custody py c mount prefix pack operation check_mode)
      run = search (Keeps-IsPreorder, Relates-lift, Relates-bind, transact-Keeps) depth 12
