-- ===== src/Custody/Chunks.antt =====
-- The chunks of a package, `[raw[i : i + CHUNK_SIZE] for i in range(0, len(raw), CHUNK_SIZE)]`.
pub mod Laws
use ansible_collection_found.Base.{
  ℕ, zero, suc, ◌+◌, List, [], ◌∷◌, map, Bytes, length, take, drop, ltb, if◌then◌else◌,
}

-- CHUNK_SIZE, 256 KiB
unfoldable pub chunk_size : ℕ
chunk_size = 262144

-- `range(i, n, step)`. Each round raises `i` by the step, so `n` rounds are enough.
unfoldable pub offsets : ℕ → ℕ → ℕ → ℕ → List ℕ
offsets zero i n step = []
offsets (suc fuel) i n step =
    let rest = offsets fuel (i + step) n step in if ltb i n then i ∷ rest else []

-- `raw[i : i + size]`
unfoldable pub slice : Bytes → ℕ → ℕ → Bytes
slice raw i size = take size (drop i raw)

unfoldable pub chunks : ℕ → Bytes → List Bytes
unfolding offsets slice
chunks size raw = map (λ i. slice raw i size) (offsets (length raw) 0 (length raw) size)
