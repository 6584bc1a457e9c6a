-- ===== src/Custody/Chunks/Laws.antt =====
-- The chunks of a package: together they are the package, and there are as many as the size says.
use ansible_collection_found.Base.{
  ℕ, zero, suc, ◌+◌, ◌-◌, ◌/◌, ◌≤◌, ◌<◌, ◌≡◌, List, [], ◌∷◌, map, inl, inr, Bytes, arith, length,
  drop, flatten, ltb, Bool-cases, take-append-drop, drop_past, drop-drop, length-take,
}
use ansible_collection_found.Custody.Chunks.{chunk_size, offsets, slice, chunks}

module _ (size : ℕ) (positive : 0 < size) (raw : Bytes) where
  flatten-offsets :
      (fuel i : ℕ)
      → length raw ≤ fuel + i
      → flatten (map (λ k. slice raw k size) (offsets fuel i (length raw) size)) ≡ drop i raw
  unfolding offsets slice
  flatten-offsets zero i h = rw (drop_past i raw (omega arith))
  flatten-offsets (suc fuel) i h = elim (Bool-cases (ltb i (length raw))) [
    | inl inside ↦
        rw (inside, flatten-offsets fuel (i + size) (omega arith), ← drop-drop i size raw)
          (take-append-drop size (drop i raw))
    | inr outside ↦ rw (outside, drop_past i raw (ground arith))
  ]

  -- Joined, the chunks are the package.
  pub flatten-chunks : flatten (chunks size raw) ≡ raw
  unfolding chunks
  flatten-chunks = flatten-offsets (length raw) 0 (omega arith)

length-offsets :
    (raw : Bytes) (fuel i n : ℕ)
    → n ≤ fuel + i
    → length (map (λ k. slice raw k chunk_size) (offsets fuel i n chunk_size))
      ≡ (n - i + chunk_size - 1) / chunk_size
unfolding offsets chunk_size
length-offsets raw zero i n h = omega arith
length-offsets raw (suc fuel) i n h = elim (Bool-cases (ltb i n)) [
  | inl inside ↦ rw inside (ground (arith, length-offsets raw fuel (i + 262144) n (omega arith)))
  | inr outside ↦ rw outside (ground arith)
]

-- The number of chunks is the one that the retrieval computes from the size.
pub length-chunks :
    (raw : Bytes) → length (chunks chunk_size raw) ≡ (length raw + chunk_size - 1) / chunk_size
unfolding chunks chunk_size
length-chunks raw = rw (length-offsets raw (length raw) 0 (length raw) (omega arith)) (omega arith)

abbrev pub AllBounded : ℕ → List Bytes → Type 0
AllBounded n [] = Unit
AllBounded n (b ∷ bs) = (length b ≤ n) × AllBounded n bs

AllBounded-slices :
    (size : ℕ) (raw : Bytes) (is : List ℕ) → AllBounded size (map (λ i. slice raw i size) is)
unfolding slice
AllBounded-slices size raw [] = tt
AllBounded-slices size raw (i ∷ is) = (length-take size (drop i raw), AllBounded-slices size raw is)

-- No chunk is longer than the chunk size.
pub chunks-AllBounded : (size : ℕ) (raw : Bytes) → AllBounded size (chunks size raw)
unfolding chunks
chunks-AllBounded size raw = AllBounded-slices size raw _
