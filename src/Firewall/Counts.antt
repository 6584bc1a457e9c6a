-- ===== src/Firewall/Counts.antt =====
-- How many rules an accepted phase has.
use ansible_collection_found.Base.{
  ℕ, suc, ◌+◌, String, Bool, true, some, List, [], ◌∷◌, ◌≡◌, refl, ap, ◌∙◌, arith, length,
  length-append, leb,
}
use ansible_collection_found.Base.Result.{ok, >>=-ok}
use ansible_collection_found.Base.Value.{Value, Items, list, items}
use ansible_collection_found.Firewall.Order.{insert, sort, numbers_eq}
use ansible_collection_found.Firewall.Checks.{Net, validate_common_rule}
use ansible_collection_found.Firewall.Rules.{
  Meaning, management, tang, tcp_response, dns_response, ntp_response, icmp, Sorted, unsorted, add,
  Summary, classify_rule, classify, check_counts, classify_input_rules,
}

module _ {ℓ} {A : Type ℓ} (le : A → A → Bool) where
  length-insert : (x : A) (xs : List A) → length (insert le x xs) ≡ suc (length xs)
  unfolding insert
  length-insert x [] = refl
  length-insert x (y ∷ ys) = ground (arith, length-insert x ys)

  pub length-sort : (xs : List A) → length (sort le xs) ≡ length xs
  unfolding sort
  length-sort [] = refl
  length-sort (x ∷ xs) = length-insert x (sort le xs) ∙ ap suc (length-sort xs)

numbers_eq-length : (xs ys : List ℕ) → numbers_eq xs ys ≡ true → length xs ≡ length ys
numbers_eq-length [] [] h = refl
numbers_eq-length (x ∷ xs) (y ∷ ys) h = ap suc (numbers_eq-length xs ys (ground arith))
numbers_eq-length [] (_ ∷ _) h = cc
numbers_eq-length (_ ∷ _) [] h = cc

-- The rules that the loop has put into its lists.
abbrev total : Sorted → ℕ
total a =
    length a.management_ports
    + length a.tcp_responses
    + length a.dns_sources
    + length a.ntp_responses
    + length a.icmp_rules
    + length a.tang_sources

total-add : (a : Sorted) (m : Meaning) → total (add a m) ≡ suc (total a)
unfolding add
total-add a (management port sig) = omega (arith, length-append a.management_ports (port ∷ []))
total-add a (tang source) = omega (arith, length-append a.tang_sources (source ∷ []))
total-add a (tcp_response rule sig) = omega (arith, length-append a.tcp_responses (rule ∷ []))
total-add a (dns_response source sig) = omega (arith, length-append a.dns_sources (source ∷ []))
total-add a (ntp_response rule sig) = omega (arith, length-append a.ntp_responses (rule ∷ []))
total-add a (icmp rule sig) = omega (arith, length-append a.icmp_rules (rule ∷ []))

module _ (net : Net) (decimal : ℕ → String) (phase target controller : String) where
  total-classify :
      (i : ℕ) (rules : List Value) (a b : Sorted)
      → classify net decimal phase target controller i rules a ≡ ok b
      → total b ≡ length rules + total a
  unfolding classify
  total-classify i [] a b h = let same : a ≡ b = cc in rw (← same) (omega arith)
  total-classify i (rule ∷ rules) a b h =
      let (fs, _, h1) = >>=-ok (validate_common_rule net rule _) _ h in
      let (m, _, h2) = >>=-ok (classify_rule net decimal phase target controller fs _) _ h1 in
      omega (arith, total-classify (suc i) rules (add a m) b h2, total-add a m)

  abbrev ports : Sorted → ℕ
  ports a = length (sort leb a.management_ports)

  counts_bootstrap :
      (a : Sorted) → check_counts net decimal "bootstrap" target controller a ≡ ok tt → total a ≡ 8
  unfolding check_counts
  counts_bootstrap a h =
      let same : numbers_eq (sort leb a.management_ports) (22 ∷ 1905 ∷ 2222 ∷ []) ≡ true =
        ground arith in
      let tcp : length a.tcp_responses ≡ 1 = ground arith in
      let dns : length a.dns_sources ≡ 2 = ground arith in
      let ntp : length a.ntp_responses ≡ 1 = ground arith in
      let ping : length a.icmp_rules ≡ 1 = ground arith in
      let none_ : length a.tang_sources ≡ 0 = ground arith in
      omega (
        arith,
        length-sort leb a.management_ports,
        numbers_eq-length (sort leb a.management_ports) (22 ∷ 1905 ∷ 2222 ∷ []) same,
        tcp,
        dns,
        ntp,
        ping,
        none_,
      )

  counts_hardened :
      (a : Sorted) → check_counts net decimal "hardened" target controller a ≡ ok tt → total a ≡ 10
  unfolding check_counts
  counts_hardened a h =
      let same : numbers_eq (sort leb a.management_ports) (1905 ∷ 2222 ∷ []) ≡ true =
        ground arith in
      let tcp : length a.tcp_responses ≡ 1 = ground arith in
      let dns : length a.dns_sources ≡ 2 = ground arith in
      let ntp : length a.ntp_responses ≡ 1 = ground arith in
      let ping : length a.icmp_rules ≡ 1 = ground arith in
      let three : length a.tang_sources ≡ 3 = ground arith in
      omega (
        arith,
        length-sort leb a.management_ports,
        numbers_eq-length (sort leb a.management_ports) (1905 ∷ 2222 ∷ []) same,
        tcp,
        dns,
        ntp,
        ping,
        three,
      )

module _ (net : Net) (decimal : ℕ → String) (target controller : String) where
  counted :
      (phase : String) (n : ℕ)
      → ((a : Sorted) → check_counts net decimal phase target controller a ≡ ok tt → total a ≡ n)
      → (rules : Items) (s : Summary)
      → classify_input_rules net decimal phase target controller (some (list rules)) ≡ ok s
      → s.rule_count ≡ n
  unfolding classify_input_rules
  counted phase n of_counts rules s h =
      let (a, sorted, h1) =
        >>=-ok (classify net decimal phase target controller 0 (items rules) unsorted) _ h in
      let (_, passed, h2) = >>=-ok (check_counts net decimal phase target controller a) _ h1 in
      let count : length (items rules) ≡ s.rule_count = ground arith in
      omega (
        arith,
        count,
        of_counts a passed,
        total-classify net decimal phase target controller 0 (items rules) unsorted a sorted,
      )

  -- An accepted bootstrap input has exactly eight rules, and an accepted hardened input exactly ten:
  -- the counts of the meanings imply it, before the plan's own count checks.
  pub classify_input_rules-count :
      (rules others : Items) (s t : Summary)
      → classify_input_rules net decimal "bootstrap" target controller (some (list rules)) ≡ ok s
      → classify_input_rules net decimal "hardened" target controller (some (list others)) ≡ ok t
      → (s.rule_count ≡ 8) × (t.rule_count ≡ 10)
  classify_input_rules-count rules others s t h k = (
    counted "bootstrap" 8 (counts_bootstrap net decimal "bootstrap" target controller) rules s h,
    counted "hardened" 10 (counts_hardened net decimal "hardened" target controller) others t k,
  )
