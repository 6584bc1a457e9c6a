-- ===== src/Approval/Files/Bounded.antt =====
-- The bounded read ends.
use ansible_collection_found.Base.{
  ℕ, zero, suc, ◌+◌, ◌-◌, ◌<◌, true, false, ◌++◌, Bytes, ◌≡◌, refl, arith, length, length-append,
  leb, nat_eq,
}
use ansible_collection_found.Base.Exec.{bind_agree, elim_agree}
use ansible_collection_found.Stdlib.{Stdlib}
use ansible_collection_found.Approval.Disk.{Disk}
use ansible_collection_found.Approval.Files.{read_bounded, smaller}

module _ {S : Type 0} (py : Stdlib) (disk : Disk S) (fd maximum : ℕ) where
  closer :
      (payload chunk : Bytes) (n : ℕ)
      → leb (length payload) maximum ≡ true
      → nat_eq (length chunk) 0 ≡ false
      → maximum + 1 - length payload < suc n
      → maximum + 1 - length (payload ++ chunk) < n
  closer payload chunk n fits some_bytes h = ground (arith, length-append payload chunk)

  -- More rounds than bytes are missing give the same outcome, whatever the reads return: the rounds of the model
  -- never end the loop before the source does.
  pub read_bounded_enough :
      (rounds more : ℕ) (payload : Bytes) (s : S)
      → maximum + 1 - length payload < rounds
      → maximum + 1 - length payload < more
      → read_bounded py disk rounds fd maximum payload s
        ≡ read_bounded py disk more fd maximum payload s
  unfolding read_bounded
  read_bounded_enough zero more payload s h k = absurd (omega arith)
  read_bounded_enough (suc rounds) zero payload s h k = absurd (omega arith)
  read_bounded_enough (suc rounds) (suc more) payload s h k =
      elim_agree (leb (length payload) maximum) _ _ _ _ s
        (λ fits.
          bind_agree (Disk.read disk fd (smaller 65536 (maximum + 1 - length payload))) _ _ s
            λ chunk.
              elim_agree (nat_eq (length chunk) 0) _ _ _ _ _ (λ _. refl)
                λ some_bytes.
                  read_bounded_enough rounds more (payload ++ chunk) _
                    (closer payload chunk rounds fits some_bytes h)
                    (closer payload chunk more fits some_bytes k))
        (λ _. refl)
