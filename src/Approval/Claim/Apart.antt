-- ===== src/Approval/Claim/Apart.antt =====
-- A claim changes nothing that the calls of the operating system leave alone.
use ansible_collection_found.Base.{ℕ, zero, suc, String, [], ◌∷◌, Bytes}
use ansible_collection_found.Base.Result.{Result, ok, err}
use ansible_collection_found.Base.Exec.{
  Exec, Relates, IsPreorder, Relates-pure, Relates-raise, Relates-lift, Relates-bind,
}
use ansible_collection_found.Stdlib.{Stdlib}
use ansible_collection_found.Approval.Os.{Os}
use ansible_collection_found.Approval.Claim.{
  Approval, Moment, closing, open_or_fail, write_all, create_marker, record_evidence, claim_in,
  claim_approval,
}

-- Each call of the operating system keeps a relation.
pub record Apart (os : Os) (R : Os.State os → Os.State os → Type 0) : Type 0 where
  pub apart-open : (path : String) → Relates R (Os.open_directory os path)
  pub apart-fstat : (fd : ℕ) → Relates R (Os.fstat os fd)
  pub apart-create :
      (fd : ℕ) (name : String) (s : Os.State os) → R s (Os.create_exclusive os fd name s).1
  pub apart-write : (fd : ℕ) (b : Bytes) → Relates R (Os.write os fd b)
  pub apart-fsync : (fd : ℕ) → Relates R (Os.fsync os fd)
  pub apart-close : (fd : ℕ) (s : Os.State os) → R s (Os.close os fd s)

module _ (py : Stdlib) {os : Os} {R : Os.State os → Os.State os → Type 0} (order : IsPreorder R)
    (apart : Apart os R) where
  closing-Keeps :
      {A : Type 0} (fd : ℕ) (m : Exec (Os.State os) A)
      → Relates R m
      → Relates R (closing py os fd m)
  unfolding closing
  closing-Keeps fd m h = record {
    at = λ s. order.chain s (m s).1 _ (h.at s) (apart.apart-close fd (m s).1);
  }

  open_or_fail-Keeps : (path : String) → Relates R (open_or_fail py os path)
  unfolding open_or_fail
  open_or_fail-Keeps path = record {
    at = λ s. after s (Os.open_directory os path s) ((apart.apart-open path).at s);
  }
    where
      after :
          (s : Os.State os) (r : Result ℕ × Os.State os)
          → R s r.1
          → R s
              (elim r.0 as (λ _. Result ℕ × Os.State os) [
                | ok fd ↦ (ok fd, r.1)
                | err _ ↦ (err "approval replay directory could not be opened safely.", r.1)
              ]).1
      after s (ok fd, t) h = h
      after s (err e, t) h = h

  write_all-Keeps : (rounds fd : ℕ) (b : Bytes) → Relates R (write_all py os rounds fd b)
  unfolding write_all
  write_all-Keeps rounds fd [] = Relates-pure order _
  write_all-Keeps zero fd (_ ∷ _) = Relates-raise order _
  write_all-Keeps (suc rounds) fd (b ∷ bs) =
      Relates-bind order _ _ (apart.apart-write fd _)
        λ written. Relates-bind order _ _ (Relates-lift order _) λ _. write_all-Keeps rounds fd _

  create_marker-Keeps :
      (directory : ℕ) (name : String) → Relates R (create_marker py os directory name)
  unfolding create_marker
  create_marker-Keeps directory name = record { at = apart.apart-create directory name }

  claim_in-Keeps : (directory : ℕ) (a : Approval) → Relates R (claim_in py os directory a)
  unfolding claim_in record_evidence
  claim_in-Keeps directory a = Relates-bind order _ _ (apart.apart-fstat directory) λ status.
      Relates-bind order _ _ (Relates-lift order _) λ _.
        Relates-bind order _ _ (create_marker-Keeps directory _) λ marker. closing-Keeps marker _ (
          Relates-bind order _ _ (write_all-Keeps _ marker _)
            λ _. Relates-bind order _ _ (apart.apart-fsync marker) λ _. apart.apart-fsync directory)

  pub claim_approval-Keeps : (a : Approval) (now : Moment) → Relates R (claim_approval py os a now)
  unfolding claim_approval
  claim_approval-Keeps a now = Relates-bind order _ _ (Relates-lift order _) λ _.
      Relates-bind order _ _ (Relates-lift order _) λ _.
        Relates-bind order _ _ (Relates-lift order _) λ _.
          Relates-bind order _ _ (open_or_fail-Keeps _)
            λ directory. closing-Keeps directory _ (claim_in-Keeps directory a)
