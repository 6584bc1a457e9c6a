-- ===== src/Custody/Vault/Store.antt =====
-- Blocks that leave the provider's store as it is.
use ansible_collection_found.Base.{String, List, [], ◌∷◌, ◌≡◌, refl, ◌∙◌}
use ansible_collection_found.Base.Exec.{
  Relates, IsPreorder, Relates-pure, Relates-lift, Relates-bind,
}
use ansible_collection_found.Stdlib.{Stdlib}
use ansible_collection_found.Custody.Client.{Client, IsFaithful}
use ansible_collection_found.Custody.Vault.{Entry, preflight, readback}

module _ (c : Client) where
  abbrev pub SameStore : Client.State c → Client.State c → Type 0
  SameStore s t = (m p : String) → Client.stored c t m p ≡ Client.stored c s m p

  pub SameStore-IsPreorder : IsPreorder SameStore
  SameStore-IsPreorder = record { stay = λ s m p. refl; chain = λ s t u h k m p. k m p ∙ h m p }

module _ (py : Stdlib) {c : Client} (faithful : IsFaithful c) (mount : String) where
  pub read-SameStore : (path : String) → Relates (SameStore c) (Client.read c mount path)
  read-SameStore path = record { at = λ s m p. faithful.stored-read mount path s m p }

  pub preflight-SameStore :
      (objects : List Entry) → Relates (SameStore c) (preflight py c mount objects)
  unfolding preflight
  preflight-SameStore [] = Relates-pure (SameStore-IsPreorder c) []
  preflight-SameStore ((path, value) ∷ rest) =
      Relates-bind (SameStore-IsPreorder c) _ _ (read-SameStore path) λ current.
        Relates-bind (SameStore-IsPreorder c) _ _ (Relates-lift (SameStore-IsPreorder c) _) λ _.
          Relates-bind (SameStore-IsPreorder c) _ _ (preflight-SameStore rest)
            λ more. Relates-pure (SameStore-IsPreorder c) _

  pub readback-SameStore :
      (objects : List Entry) → Relates (SameStore c) (readback py c mount objects)
  unfolding readback
  readback-SameStore [] = Relates-pure (SameStore-IsPreorder c) []
  readback-SameStore ((path, value) ∷ rest) =
      Relates-bind (SameStore-IsPreorder c) _ _ (read-SameStore path) λ row.
        Relates-bind (SameStore-IsPreorder c) _ _ (readback-SameStore rest)
          λ more. Relates-pure (SameStore-IsPreorder c) _
