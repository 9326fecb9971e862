-- ===== src/Mysql/Connection.antt =====
-- NewDbMysql and connect of db/mysql.go, and the pools that connections share. Whether the database
-- answers is a parameter.
use touch_go_core.Prelude.{
  ℕ, zero, suc, List, [], ◌∷◌, ◌++◌, Option, none, some, if◌then◌else◌, ltb, Bytes, codes, Bool,
}
use touch_go_core.Mysql.{eq_bytes}

-- The fields of `config.MySqlDBConfig` and of `DBConfigModel` that a connection uses, the limits not
-- negative.
pub record MySqlDbConfig : Type 0 where
  pub host : Bytes
  pub username : Bytes
  pub password : Bytes
  pub db_name : Bytes
  pub max_idle_conns : ℕ
  pub max_open_conns : ℕ

pub record DbConfigModel : Type 0 where
  pub host : Bytes
  pub user : Bytes
  pub password : Bytes
  pub db_name : Bytes
  pub auto_close_time : ℕ
  pub max_open_conns : ℕ
  pub max_idle_conns : ℕ

-- The positional literal of `NewDbMysql`.
unfoldable pub config_model : MySqlDbConfig → DbConfigModel
config_model c = record {
  host = c.host;
  user = c.username;
  password = c.password;
  db_name = c.db_name;
  auto_close_time = 0;
  max_open_conns = c.max_idle_conns;
  max_idle_conns = c.max_open_conns;
}

-- A pool of connections with its settings; `none` is the driver's own.
pub record Pool : Type 0 where
  pub max_idle : Option ℕ
  pub max_open : Option ℕ
  pub lifetime : ℕ

unfoldable pub conn_string : DbConfigModel → Bytes
conn_string c =
    c.user
    ++ codes ":"
    ++ c.password
    ++ codes "@tcp("
    ++ c.host
    ++ codes ")/"
    ++ c.db_name
    ++ codes "?parseTime=true&loc=Local&charset=utf8"

abbrev pub if_positive : ℕ → Option ℕ
if_positive n = if ltb 0 n then some n else none

unfoldable pub pool_of : DbConfigModel → Pool
pool_of c = record {
  max_idle = if_positive c.max_idle_conns;
  max_open = if_positive c.max_open_conns;
  lifetime = if ltb 0 c.auto_close_time then c.auto_close_time else 2400;
}

-- `_DbMap`: the pool of each connection string that has one.
unfoldable pub pool_at : Bytes → List (Bytes × Pool) → Option Pool
pool_at key [] = none
pool_at key (e ∷ es) = if eq_bytes key e.0 then some e.1 else pool_at key es

-- `connect`. `reachable` tells whether `sql.Open` and `Ping` give no error.
unfoldable pub connect :
    (reachable : Bool) → DbConfigModel → List (Bytes × Pool) → Option Pool × List (Bytes × Pool)
connect reachable c pools = elim (pool_at (conn_string c) pools) [
  | some p ↦ (some p, pools)
  | none ↦
      if reachable then (some (pool_of c), (conn_string c, pool_of c) ∷ pools) else (none, pools)
]

unfoldable pub new_db_mysql :
    (reachable : Bool) → MySqlDbConfig → List (Bytes × Pool) → Option Pool × List (Bytes × Pool)
new_db_mysql reachable c pools = connect reachable (config_model c) pools

-- A configured limit, where 0 is none.
unfoldable pub limit_of : ℕ → Option ℕ
limit_of zero = none
limit_of (suc n) = some (suc n)
