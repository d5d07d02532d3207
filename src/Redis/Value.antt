-- ===== src/Redis/Value.antt =====
-- The redis crate's `Value`, as far as src/redis/value.rs takes it apart. Of a number, a format or an
-- error of the crate it holds what the source reads of it: its text, and whether it is finite.
use rubix_redis_bridge.Prelude.{ℕ, Bool, List, Option}
use rubix_redis_bridge.Text.{Str}
use rubix_redis_bridge.Text.Decimal.{ℤ}

-- An `f64`: `is_finite`, `to_string`, and the text of `serde_json::Number::from_f64`.
pub record Double : Type 0 where
  pub is_finite : Bool
  pub text : Str
  pub number : Option Str

mutual
  pub data Value : Type 0 where
    nil okay unsupported : Value
    int : ℤ → Value
    bulk_string : List ℕ → Value
    array : Values → Value
    simple_string : Str → Value
    map : Entries → Value
    set : Values → Value
    double : Double → Value
    boolean : Bool → Value
    big_number : Str → Value
    attribute : Value → Entries → Value
    verbatim_string : Str → Str → Value
    push : Str → Values → Value
    server_error : Str → Value

  pub data Values : Type 0 where
    none_left : Values
    value : Value → Values → Values

  pub data Entries : Type 0 where
    no_entry : Entries
    entry : Value → Value → Entries → Entries
