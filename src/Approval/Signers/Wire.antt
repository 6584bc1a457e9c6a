-- ===== src/Approval/Signers/Wire.antt =====
-- The wire format of a public key.
use ansible_collection_found.Base.{
  ℕ, ◌+◌, ◌*◌, String, not, ◌||◌, [], ◌∷◌, Bytes, length, take, drop, codes, nat_eq, bytes_eq,
}
use ansible_collection_found.Base.Result.{Result, ok, err, ◌>>=◌, ◌>>◌, refuse}

abbrev pub bad_blob : String
bad_blob = "Approval Authority Ed25519 public-key blob is invalid."

-- `struct.unpack(">I", data)[0]`
unfoldable pub unpack : Bytes → Result ℕ
unpack (a ∷ b ∷ c ∷ d ∷ []) = ok (((a * 256 + b) * 256 + c) * 256 + d)
unpack _ = err bad_blob

-- The key in the wire format: the name of its algorithm and 32 bytes, each with its length before it.
unfoldable pub check_blob : Bytes → Result (Unit {0})
unfolding unpack
check_blob blob = do
  refuse (not (nat_eq (length blob) 51)) bad_blob
  algorithm_length ← unpack (take 4 blob)
  let algorithm = take algorithm_length (drop 4 blob)
  let rest = drop (4 + algorithm_length) blob
  key_length ← unpack (take 4 rest)
  refuse
      (not (bytes_eq algorithm (codes "ssh-ed25519"))
        || not (nat_eq key_length 32)
        || not (nat_eq (length (drop 4 rest)) 32))
      bad_blob
