-- ===== src/Database/Tests.antt =====
-- A runtime that fails its ping at the start and is stopped twice.
use hanami.Base.{ℕ, pos, negsuc, ◌≡◌, refl, none, some, List, [], ◌∷◌, ok}
use hanami.Database.{
  DatabaseConfig, Gorm, Runtime, set_max_open_conns, pool_calls, new_runtime, stop, Event, starting,
  stopping, checking, happen_all,
}
use hanami.Database.Closing.{happen_all-close}

abbrev gorm : Gorm ℕ ℕ ℕ ℕ
gorm = record { open_gorm = λ d. ok d; native_pool = λ g. ok g }

abbrev config : DatabaseConfig ℕ
config = record {
  dialector = some 4;
  pool = record {
    max_open_conns = pos 8;
    max_idle_conns = pos 0;
    conn_max_lifetime = negsuc 0;
    conn_max_idle_time = pos 0;
  };
  ping_timeout = pos 0;
  health_timeout = pos 0;
  health_name = "";
}

abbrev opened : Runtime ℕ ℕ ℕ
opened = record {
  db = 4;
  sql_db = 4;
  name = "database";
  ping_timeout = pos 0;
  health_timeout = pos 0;
  closed = none;
  closes = 0;
}

opens : new_runtime gorm config ≡ ok (opened, set_max_open_conns (pos 8) ∷ [])
unfolding new_runtime pool_calls
opens = refl

abbrev events : List (Event ℕ)
events = checking (λ timeout. none) ∷ starting (λ timeout. some 1) (some 2) ∷ stopping none ∷ []

happen_all-close_example :
    ((happen_all events opened).closes ≡ 1)
    × ((stop (some 7) (happen_all events opened)).1 ≡ some 2)
happen_all-close_example =
    happen_all-close gorm config opened (set_max_open_conns (pos 8) ∷ []) events (some 7) opens
