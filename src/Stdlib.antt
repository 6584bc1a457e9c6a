-- ===== src/Stdlib.antt =====
-- The functions of Python's standard library that the plugins call and that are not in the
-- repository: they are parameters of the model. What a theorem relies on is a hypothesis of its own.
use ansible_collection_found.Base.{ℕ, String, Bytes}
use ansible_collection_found.Base.Result.{Result}
use ansible_collection_found.Base.Value.{Value, Fields}

pub record Stdlib : Type 0 where
  -- `hashlib.sha256(data).hexdigest()`
  pub sha256 : Bytes → String
  -- `json.dumps(value, sort_keys=True, separators=(",", ":"), ensure_ascii=True).encode("ascii")`
  pub dumps : Value → Bytes
  -- `json.loads(data, object_pairs_hook=hook)`
  pub loads : (Fields → Result Value) → Bytes → Result Value
  -- `base64.b64encode(data).decode("ascii")` and `base64.b64decode(text, validate=True)`
  pub b64encode : Bytes → String
  pub b64decode : String → Result Bytes
  -- `str(uuid.UUID(text))`, which raises `ValueError`
  pub uuid : String → Result String
  -- `str(n)`
  pub decimal : ℕ → String
  -- `datetime.strptime(text, "%Y-%m-%dT%H:%M:%SZ")`, in microseconds
  pub strptime : String → Result ℕ
