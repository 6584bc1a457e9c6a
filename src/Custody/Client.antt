-- ===== src/Custody/Client.antt =====
-- What the custody operations ask of a Vault client: `client.read` and `client.create`.
use ansible_collection_found.Base.{ℕ, String, Option, none, some, ◌≡◌, ◌⊎◌}
use ansible_collection_found.Base.Result.{ok, err}
use ansible_collection_found.Base.Exec.{Exec}
use ansible_collection_found.Base.Value.{Value}

-- What `read` returns for a live version: `{"data": ..., "version": ...}`.
pub record Row : Type 0 where
  pub payload : Value
  pub version : ℕ

pub record Client : Type 1 where
  -- The provider with all that it stores.
  pub State : Type 0
  pub read : String → String → Exec State (Option Row)
  pub create : String → String → Value → Exec State (Unit {0})
  -- What the provider stores, by mount and path.
  pub stored : State → String → String → Option Row

-- A KV2 mount, with a transport that may fail at any call. Reading stores nothing, and an answer
-- tells what is stored. Writing touches its own path; when it fails, its outcome is unknown.
pub record IsFaithful (c : Client) : Type 0 where
  pub stored-read :
      (mount path : String) (s : Client.State c) (m p : String)
      → Client.stored c (Client.read c mount path s).1 m p ≡ Client.stored c s m p
  pub read-ok :
      (mount path : String) (s : Client.State c) (r : Option Row)
      → (Client.read c mount path s).0 ≡ ok r
      → Client.stored c s mount path ≡ r
  pub stored-create_ne :
      (mount path : String) (v : Value) (s : Client.State c) (m p : String)
      → ¬ ((mount ≡ m) × (path ≡ p))
      → Client.stored c (Client.create c mount path v s).1 m p ≡ Client.stored c s m p
  pub stored-create_ok :
      (mount path : String) (v : Value) (s : Client.State c)
      → (Client.create c mount path v s).0 ≡ ok tt
      → (n : ℕ) × (Client.stored c (Client.create c mount path v s).1 mount path
          ≡ some (record { payload = v; version = n }))
  pub stored-create_err :
      (mount path : String) (v : Value) (s : Client.State c) (e : String)
      → (Client.create c mount path v s).0 ≡ err e
      → (Client.stored c (Client.create c mount path v s).1 mount path
          ≡ Client.stored c s mount path)
        ⊎ ((n : ℕ) × (Client.stored c (Client.create c mount path v s).1 mount path
              ≡ some (record { payload = v; version = n })))

-- A provider that answers every read, and creates what is absent.
pub record IsReliable (c : Client) : Type 0 where
  pub faithful : IsFaithful c
  pub read-eq :
      (mount path : String) (s : Client.State c)
      → Client.read c mount path s ≡ (ok (Client.stored c s mount path), s)
  pub create-ok :
      (mount path : String) (v : Value) (s : Client.State c)
      → Client.stored c s mount path ≡ none
      → (Client.create c mount path v s).0 ≡ ok tt
