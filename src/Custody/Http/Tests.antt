-- ===== src/Custody/Http/Tests.antt =====
-- A server that knows no path.
use ansible_collection_found.Base.{none, ◌≡◌, refl}
use ansible_collection_found.Base.Result.{ok}
use ansible_collection_found.Base.Exec.{lift, pure, ◌>>=◌}
use ansible_collection_found.Base.Value.{null}
use ansible_collection_found.Custody.Receipt.{safe_path}
use ansible_collection_found.Custody.Tests.Sample.{python}
use ansible_collection_found.Custody.Http.{
  Wire, Session, refused, understand, send, request, read_metadata, read,
}
use ansible_collection_found.Custody.Http.Missing.{Answers, data_asked, read-Answers}

abbrev server : Wire
server = record {
  State = Unit;
  exchange = λ _ _ s. (refused 404, s);
  urlsplit = λ s. ok (record {
    scheme = "https";
    hostname = s;
    username = "";
    password = "";
    path = "";
    query = "";
    fragment = "";
  });
  rstrip_slash = λ s. s;
}

abbrev session : Session
session = record { url = "https://vault"; namespace = ""; timeout = 30; token = "t" }

reads_none : (read python server session "kv" "luks/host01" tt).0 ≡ ok none
unfolding read read_metadata request send understand safe_path lift pure ◌>>=◌
reads_none = refl

read-Answers_example :
    Answers python server session "kv" "luks/host01" "/data/" tt null
    × Answers python server session "kv" "luks/host01" "/metadata/"
        (data_asked python server session "kv" "luks/host01" tt)
        null
read-Answers_example = read-Answers python server session "kv" "luks/host01" tt reads_none
