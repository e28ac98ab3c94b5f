-- ===== src/Persist.antt =====
-- internal/persist/store.go: the persisted records and the store's operations.
pub mod Laws
pub mod Postgres
mod Tests
use rom_server_poc.Prelude.{ℕ, List}
use rom_server_poc.Prelude.Result.{Result}

-- `other` is any error of the database that is none of the three.
pub data StoreError : Type 0 where
  not_found name_taken slot_taken other : StoreError

-- A text is the list of its runes; an int32, int64 or float32 is its bit pattern; a time is its
-- Unix seconds.
pub record Character : Type 0 where
  pub id : ℕ
  pub account_id : ℕ
  pub slot_index : ℕ
  pub name : List ℕ
  pub class_type : ℕ
  pub sub_class_type : ℕ
  pub head_type : ℕ
  pub level : ℕ
  pub exp : ℕ
  pub real_power : ℕ
  pub map_id : ℕ
  pub equip_costume_index : ℕ
  pub equip_costume_step_up : ℕ
  pub weapon_item_index : ℕ
  pub weapon_enchant : ℕ
  pub guild_name : List ℕ
  pub latest_login_time : ℕ
  pub latest_logout_time : ℕ
  pub deleted_time : ℕ
  pub x : ℕ
  pub y : ℕ
  pub z : ℕ
  pub dir : ℕ
  pub created_at : ℕ

-- The interface, over the state that an implementation keeps.
pub record Store (S : Type 0) : Type 0 where
  pub upsert_account : ℕ → List ℕ → S → Result StoreError (Unit {0}) × S
  pub save_options : ℕ → ℕ → S → Result StoreError (Unit {0}) × S
  pub list_characters : ℕ → S → Result StoreError (List Character)
  pub get_character : ℕ → S → Result StoreError Character
  pub create_character : Character → S → Result StoreError Character × S
  pub save_position : ℕ → ℕ → ℕ → ℕ → ℕ → ℕ → S → Result StoreError (Unit {0}) × S
