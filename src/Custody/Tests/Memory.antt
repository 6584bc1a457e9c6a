-- ===== src/Custody/Tests/Memory.antt =====
-- A provider in memory: a table by mount and path that creates what is absent.
use ansible_collection_found.Base.{
  String, ◌&&◌, ◌==◌, Option, none, some, ◌≡◌, inl, refl, arith, eq_iff, eq_refl, if◌then◌else◌,
}
use ansible_collection_found.Base.Result.{Result, ok, err}
use ansible_collection_found.Base.Value.{Value}
use ansible_collection_found.Custody.Client.{Client, Row, IsReliable}

abbrev pub Table : Type 0
Table = String → String → Option Row

abbrev pub put : String → String → Value → Table → Table
put mount path v table m p =
    if mount == m && path == p then some (record { payload = v; version = 1 }) else table m p

abbrev pub create_at : Option Row → String → String → Value → Table → Result (Unit {0}) × Table
create_at none mount path v table = (ok tt, put mount path v table)
create_at (some _) mount path v table = (err "check-and-set parameter did not match", table)

abbrev pub memory : Client
memory = record {
  State = Table;
  read = λ mount path table. (ok (table mount path), table);
  create = λ mount path v table. create_at (table mount path) mount path v table;
  stored = λ table. table;
}

create_ne :
    (o : Option Row) (mount path : String) (v : Value) (table : Table) (m p : String)
    → ¬ ((mount ≡ m) × (path ≡ p))
    → (create_at o mount path v table).1 m p ≡ table m p
create_ne none mount path v table m p h = ground (arith, eq_iff mount m, eq_iff path p)
create_ne (some _) mount path v table m p h = refl

put_self :
    (mount path : String) (v : Value) (table : Table)
    → put mount path v table mount path ≡ some (record { payload = v; version = 1 })
put_self mount path v table = rw (eq_refl mount, eq_refl path)

create_ok :
    (o : Option Row) (mount path : String) (v : Value) (table : Table)
    → (create_at o mount path v table).0 ≡ ok tt
    → (create_at o mount path v table).1 mount path ≡ some (record { payload = v; version = 1 })
create_ok none mount path v table h = put_self mount path v table
create_ok (some _) mount path v table h = cc

create_err :
    (o : Option Row) (mount path : String) (v : Value) (table : Table) (e : String)
    → (create_at o mount path v table).0 ≡ err e
    → (create_at o mount path v table).1 mount path ≡ table mount path
create_err none mount path v table e h = cc
create_err (some _) mount path v table e h = refl

pub memory-IsReliable : IsReliable memory
memory-IsReliable = record {
  faithful = record {
    stored-read = λ mount path s m p. refl;
    read-ok = λ mount path s r h. cc;
    stored-create_ne = λ mount path v s m p h. create_ne (s mount path) mount path v s m p h;
    stored-create_ok = λ mount path v s h. (1, create_ok (s mount path) mount path v s h);
    stored-create_err = λ mount path v s e h. inl (create_err (s mount path) mount path v s e h);
  };
  read-eq = λ mount path s. refl;
  create-ok = λ mount path v s h. rw h;
}
