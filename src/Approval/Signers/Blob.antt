-- ===== src/Approval/Signers/Blob.antt =====
-- The one form of an Ed25519 public key.
use ansible_collection_found.Base.{
  ℕ, zero, suc, ◌+◌, ◌*◌, ◌<◌, true, false, not, ◌||◌, [], ◌∷◌, ◌++◌, Bytes, length, take, drop,
  codes, nat_eq, bytes_eq, ◌≡◌, refl, sym, ap, ◌∙◌, ◌↔◌, arith, take-append-drop, length-drop,
  drop-drop, subst,
}
use ansible_collection_found.Base.Result.{ok, >>=-ok, refuse-ok, refuse_passed, ok_same}
use ansible_collection_found.Approval.Signers.Wire.{unpack, check_blob}

abbrev algorithm_name : Bytes
algorithm_name = codes "ssh-ed25519"

-- The key's bytes in the wire format.
abbrev pub wire : Bytes → Bytes
wire key = 0 ∷ 0 ∷ 0 ∷ 11 ∷ (algorithm_name ++ (0 ∷ 0 ∷ 0 ∷ 32 ∷ key))

bytes_eq-≡ : (xs ys : Bytes) → bytes_eq xs ys ≡ true → xs ≡ ys
bytes_eq-≡ [] [] h = refl
bytes_eq-≡ [] (_ ∷ _) h = absurd (cc (h))
bytes_eq-≡ (_ ∷ _) [] h = absurd (cc (h))
bytes_eq-≡ (x ∷ xs) (y ∷ ys) h =
    let head : x ≡ y = ground arith in
    let tail : bytes_eq xs ys ≡ true = ground arith in cc (head, bytes_eq-≡ xs ys tail)

length-take-short : (n : ℕ) (xs : Bytes) → length (take n xs) < length xs → n ≡ length (take n xs)
length-take-short zero xs h = refl
length-take-short (suc n) [] h = absurd (omega arith)
length-take-short (suc n) (x ∷ xs) h = omega (arith, length-take-short n xs (omega arith))

check_blob-wire : (key : Bytes) → length key ≡ 32 → check_blob (wire key) ≡ ok tt
unfolding check_blob unpack
check_blob-wire key h = ground arith

unpack_small : (bytes : Bytes) (n : ℕ) → unpack bytes ≡ ok n → n < 256 → bytes ≡ 0 ∷ 0 ∷ 0 ∷ n ∷ []
unfolding unpack
unpack_small (a ∷ b ∷ c ∷ d ∷ []) n h small =
    let value : ((a * 256 + b) * 256 + c) * 256 + d ≡ n = ok_same h in
    let a0 : a ≡ 0 = omega (arith, value, small) in
    let b0 : b ≡ 0 = omega (arith, value, small) in
    let c0 : c ≡ 0 = omega (arith, value, small) in
    let d0 : d ≡ n = omega (arith, value, small) in cc (a0, b0, c0, d0)
unpack_small [] n h small = absurd (cc (h))
unpack_small (_ ∷ []) n h small = absurd (cc (h))
unpack_small (_ ∷ _ ∷ []) n h small = absurd (cc (h))
unpack_small (_ ∷ _ ∷ _ ∷ []) n h small = absurd (cc (h))
unpack_small (_ ∷ _ ∷ _ ∷ _ ∷ _ ∷ _) n h small = absurd (cc (h))

-- What a list is that starts with given bytes.
split_take : (n : ℕ) (xs front : Bytes) → take n xs ≡ front → xs ≡ front ++ drop n xs
split_take n xs front h = sym (take-append-drop n xs) ∙ ap (λ ys. ys ++ drop n xs) h

-- The three parts of an accepted key.
check_blob-parts :
    (blob : Bytes)
    → check_blob blob ≡ ok tt
    → (n m : ℕ) × (length blob ≡ 51)
      × (unpack (take 4 blob) ≡ ok n)
      × (take n (drop 4 blob) ≡ algorithm_name)
      × (unpack (take 4 (drop (4 + n) blob)) ≡ ok m)
      × (m ≡ 32)
unfolding check_blob
check_blob-parts blob h =
    let (len51, h1) = refuse-ok (not (nat_eq (length blob) 51)) _ _ h in
    let (n, is_n, h2) = >>=-ok (unpack (take 4 blob)) _ h1 in
    let (m, is_m, h3) = >>=-ok (unpack (take 4 (drop (4 + n) blob))) _ h2 in
    let passed : (not (bytes_eq (take n (drop 4 blob)) algorithm_name)
          || not (nat_eq m 32)
          || not (nat_eq (length (drop 4 (drop (4 + n) blob))) 32))
        ≡ false =
      refuse_passed _ _ h3 in
    (
      n,
      m,
      ground (arith, len51),
      is_n,
      bytes_eq-≡ _ _ (ground (arith, passed)),
      is_m,
      ground (arith, passed),
    )

check_blob-only :
    (blob : Bytes) → check_blob blob ≡ ok tt → (key : Bytes) × (length key ≡ 32) × (blob ≡ wire key)
check_blob-only blob h =
    let (n, m, long, is_n, name, is_m, m32) = check_blob-parts blob h in
    let rest_length : length (drop 4 blob) ≡ 47 = omega (arith, length-drop 4 blob, long) in
    let name_length : length (take n (drop 4 blob)) ≡ 11 = ap length name in
    let n11 : n ≡ 11 =
      length-take-short n (drop 4 blob) (omega (arith, rest_length, name_length)) ∙ name_length in
    let key = drop 4 (drop n (drop 4 blob)) in
    let first : take 4 blob ≡ 0 ∷ 0 ∷ 0 ∷ 11 ∷ [] =
      unpack_small _ 11 (is_n ∙ ap ok n11) (omega arith) in
    let third : take 4 (drop n (drop 4 blob)) ≡ 0 ∷ 0 ∷ 0 ∷ 32 ∷ [] =
      unpack_small _ 32
        (subst (λ bs. unpack (take 4 bs) ≡ ok 32) (sym (drop-drop 4 n blob)) (is_m ∙ ap ok m32))
        (omega arith) in
    let shape : blob ≡ wire key =
      split_take 4 blob _ first
      ∙ ap (λ bs. 0 ∷ 0 ∷ 0 ∷ 11 ∷ bs)
          (split_take n (drop 4 blob) _ name
            ∙ ap (λ bs. algorithm_name ++ bs) (split_take 4 _ _ third)) in
    (key, omega (arith, ap length shape, long), shape)

-- A public key passes the checks of its wire format exactly when it is the name `ssh-ed25519` and 32 bytes, each
-- after its length in four bytes, and nothing else.
pub check_blob-IsEd25519 :
    (blob : Bytes)
    → (check_blob blob ≡ ok tt) ↔ ((key : Bytes) × (length key ≡ 32) × (blob ≡ wire key))
check_blob-IsEd25519 blob = (
  check_blob-only blob,
  λ k. let (key, long, e) = k in ap check_blob e ∙ check_blob-wire key long,
)
