-- ===== src/Config/Env/Reading.antt =====
-- Which variable decides, and which commands a list names.
use rubix_redis_bridge.Prelude.{
  ◌≡◌, refl, ◌&&◌, List, [], ◌∷◌, ◌++◌, map, Option, ok, err, arith, All, contains,
  contains-insert_all, contains-filter, filter, list_eq, nat_eq,
}
use rubix_redis_bridge.Text.{Str, split}
use rubix_redis_bridge.Security.Types.{command_word}
use rubix_redis_bridge.Config.Env.{
  Variable, value, not_present, not_unicode, failed_to_read, parse_value, parse_env_first,
  parse_csv, non_blank,
}

-- Keys that are not set are passed over: the first that is set decides, by its value or by the error
-- of reading it, whatever the later ones hold; with none set the result is the default.
parse_env_first_lem :
    {A : Type 0} (from_str : Str → Option A) (var : Str → Variable) (before after : List Str)
    (key : Str) (default : A)
    → All (λ k. var k ≡ not_present) before
    → (parse_env_first from_str var (before ++ key ∷ after) default ≡ elim (var key) [
      | value text ↦ parse_value from_str var key text
      | not_present ↦ parse_env_first from_str var after default
      | not_unicode ↦ err (failed_to_read key)
    ])
      × (parse_env_first from_str var before default ≡ ok default)
unfolding parse_env_first
parse_env_first_lem from_str var [] after key default absent = (refl, refl)
parse_env_first_lem from_str var (k ∷ before) after key default absent =
    let (first, none_set) = parse_env_first_lem from_str var before after key default absent.1 in
    (ground (arith, first, absent.0), ground (arith, none_set, absent.0))

-- The set that a comma-separated list names: its items in upper case, without white space around
-- them, but no blank one.
parse_csv_iff :
    (text name : Str)
    → contains (parse_csv text) name
      ≡ (contains (map command_word (split b',' text)) name && non_blank name)
unfolding parse_csv contains
parse_csv_iff text name =
    rw
      (
        contains-insert_all [] (filter non_blank (map command_word (split b',' text))) name,
        contains-filter non_blank (map command_word (split b',' text)) name,
      )
      (ground arith)
