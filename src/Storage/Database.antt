-- ===== src/Storage/Database.antt =====
-- shawncoin/src/storage/database.cpp without RocksDB: a map from texts to texts. Each method holds the
-- lock for its body.
use shawncoin.Prelude.{◌≡◌, ◌≢◌, Bool, true, Option, none, some, List}
use shawncoin.Wire.{Bytes}
use shawncoin.Map.{find, insert, erase, contains}
use shawncoin.Map.Keys.{bytes_order}
use shawncoin.Map.Laws.{
  IsSorted, find-insert_self, find-insert_ne, insert-IsSorted, find-erase_self, find-erase_ne,
  erase-IsSorted,
}

abbrev pub Database : Type 0
Database = List (Bytes × Bytes)

unfoldable pub open_database : Bytes → Database → Database × Bool
open_database path db = (db, true)

unfoldable pub close_database : Database → Database
close_database db = db

unfoldable pub get_value : Bytes → Database → Option Bytes
get_value key db = find key db

unfoldable pub put_value : Bytes → Bytes → Database → Database × Bool
put_value key value db = (insert key value db, true)

unfoldable pub del_value : Bytes → Database → Database × Bool
del_value key db = (erase key db, contains key db)

-- What is put is found until it is deleted, other keys keep their values, and the keys stay in order.
pub database_lem :
    (key other value : Bytes) (db : Database)
    → IsSorted db
    → other ≢ key
    → (get_value key (put_value key value db).0 ≡ some value)
      × (get_value other (put_value key value db).0 ≡ get_value other db)
      × (get_value key (del_value key db).0 ≡ none)
      × (get_value other (del_value key db).0 ≡ get_value other db)
      × IsSorted (put_value key value db).0
      × IsSorted (del_value key db).0
unfolding get_value put_value del_value
database_lem key other value db s ne = (
  find-insert_self key value db,
  find-insert_ne other key value db ne,
  find-erase_self key db s,
  find-erase_ne other key db s ne,
  insert-IsSorted key value db s,
  erase-IsSorted key db s,
)
