-- ===== src/Protocol/Value.antt =====
-- internal/protocol/codec.go, `Values`: the dynamic values that the codec reads and builds.
use rom_server_poc.Prelude.{
  ℕ, String, Bool, Option, none, some, List, ◌≡◌, refl, arith, str_eq, eq_iff, if◌then◌else◌, suc,
}

-- Go's integer types.
pub data NumKind : Type 0 where
  int int8 int16 int32 int64 uint uint8 uint16 uint32 uint64 : NumKind

-- A Go `any`, as far as the codec tells values apart. An integer is the 64-bit pattern that its
-- conversion to int64 has; a float is its IEEE bit pattern; a string is the list of its runes.
-- `values` is a `Values` and `plain` a `map[string]any`.
mutual
  pub data Value : Type 0 where
    nil_value : Value
    num : NumKind → ℕ → Value
    float32 : ℕ → Value
    float64 : ℕ → Value
    bool : Bool → Value
    text : List ℕ → Value
    items : Items → Value
    values : Values → Value
    plain : Values → Value

  pub data Items : Type 0 where
    end : Items
    item : Value → Items → Items

  pub data Values : Type 0 where
    empty : Values
    entry : String → Value → Values → Values

abbrev pub count : Items → ℕ
count end = 0
count (item v vs) = suc (count vs)

-- `values[name]`
unfoldable pub get : String → Values → Option Value
get name empty = none
get name (entry k v rest) = if str_eq k name then some v else get name rest

-- `values[name] = v`
unfoldable pub put : String → Value → Values → Values
put name v empty = entry name v empty
put name v (entry k w rest) = if str_eq k name then entry k v rest else entry k w (put name v rest)

pub get-put :
    (k j : String) (v : Value) (m : Values)
    → get j (put k v m) ≡ (if str_eq k j then some v else get j m)
unfolding get put
get-put k j v empty = refl
get-put k j v (entry i w m) = ground (arith, eq_iff k j, eq_iff i k, eq_iff i j, get-put k j v m)
