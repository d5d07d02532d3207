-- ===== src/Security/Script/Calls.antt =====
-- The SCRIPT calls that `validate_subcommand` lets through, as a family of their own.
use rubix_redis_bridge.Prelude.{
  ◌≡◌, ◌↔◌, ◌⊎◌, inl, inr, refl, true, false, List, [], ◌∷◌, some, ok, arith, list_eq, list_beq,
  nat_eq, length, get_elem?, ◌==◌, ltb, ap, ◌∙◌, ok_or, Bool-cases, Option-cases,
}
use rubix_redis_bridge.Text.{Str, lit, str_eq, str_eq_iff}
use rubix_redis_bridge.Security.Types.{CommandArg}
use rubix_redis_bridge.Security.Script.{word_of, check_mode, check_subcommand, validate_subcommand}

distinct_subcommands :
    (str_eq (lit "EXISTS") (lit "LOAD") ≡ false)
    × (str_eq (lit "FLUSH") (lit "LOAD") ≡ false)
    × (str_eq (lit "FLUSH") (lit "EXISTS") ≡ false)
unfolding lit list_eq list_beq
distinct_subcommands = (refl, refl, refl)

module _ {Number : Type 0} where
  -- `SCRIPT LOAD script`, `SCRIPT EXISTS sha …`, `SCRIPT FLUSH` and `SCRIPT FLUSH SYNC|ASYNC`.
  pub data ScriptCall (array : List (CommandArg Number)) : Type 0 where
    load :
        (name sub script : CommandArg Number)
        → word_of sub ≡ some (lit "LOAD")
        → array ≡ name ∷ sub ∷ script ∷ []
        → ScriptCall array
    exists :
        (name sub sha : CommandArg Number) (more : List (CommandArg Number))
        → word_of sub ≡ some (lit "EXISTS")
        → array ≡ name ∷ sub ∷ sha ∷ more
        → ScriptCall array
    flush :
        (name sub : CommandArg Number)
        → word_of sub ≡ some (lit "FLUSH")
        → array ≡ name ∷ sub ∷ []
        → ScriptCall array
    flush_mode :
        (name sub mode : CommandArg Number)
        → word_of sub ≡ some (lit "FLUSH")
        → (word_of mode ≡ some (lit "SYNC")) ⊎ (word_of mode ≡ some (lit "ASYNC"))
        → array ≡ name ∷ sub ∷ mode ∷ []
        → ScriptCall array

  check_mode_iff :
      (mode : CommandArg Number)
      → (check_mode (some mode) ≡ ok tt)
        ↔ ((word_of mode ≡ some (lit "SYNC")) ⊎ (word_of mode ≡ some (lit "ASYNC")))
  unfolding check_mode
  check_mode_iff mode = elim (Option-cases (word_of mode)) [
    | inl e ↦ rw e (ground arith)
    | inr (w, e) ↦ rw e (ground (arith, str_eq_iff w (lit "SYNC"), str_eq_iff w (lit "ASYNC")))
  ]

  load_sound :
      (name sub : CommandArg Number) (rest : List (CommandArg Number))
      → word_of sub ≡ some (lit "LOAD")
      → (length (name ∷ sub ∷ rest) == 3) ≡ true
      → ScriptCall (name ∷ sub ∷ rest)
  load_sound name sub [] e h = cc
  load_sound name sub (script ∷ []) e h = load name sub script e refl
  load_sound name sub (script ∷ other ∷ rest) e h = absurd (ground arith)

  exists_sound :
      (name sub : CommandArg Number) (rest : List (CommandArg Number))
      → word_of sub ≡ some (lit "EXISTS")
      → ltb (length (name ∷ sub ∷ rest)) 3 ≡ false
      → ScriptCall (name ∷ sub ∷ rest)
  exists_sound name sub [] e h = cc
  exists_sound name sub (sha ∷ more) e h = exists name sub sha more e refl

  flush_sound :
      (name sub : CommandArg Number) (rest : List (CommandArg Number))
      → word_of sub ≡ some (lit "FLUSH")
      → ltb 3 (length (name ∷ sub ∷ rest)) ≡ false
      → check_mode (get_elem? (name ∷ sub ∷ rest) 2) ≡ ok tt
      → ScriptCall (name ∷ sub ∷ rest)
  flush_sound name sub [] e h m = flush name sub e refl
  flush_sound name sub (mode ∷ []) e h m =
      flush_mode name sub mode e ((check_mode_iff mode).0 m) refl
  flush_sound name sub (mode ∷ other ∷ rest) e h m = absurd (ground arith)

  check_sound :
      (word : Str) (name sub : CommandArg Number) (rest : List (CommandArg Number))
      → word_of sub ≡ some word
      → check_subcommand word (name ∷ sub ∷ rest) ≡ ok tt
      → ScriptCall (name ∷ sub ∷ rest)
  unfolding check_subcommand
  check_sound word name sub rest e h = elim (Bool-cases (str_eq word (lit "LOAD"))) [
    | inl is_load ↦
        load_sound name sub rest (e ∙ ap some ((str_eq_iff _ _).0 is_load)) (ground arith)
    | inr not_load ↦ elim (Bool-cases (str_eq word (lit "EXISTS"))) [
      | inl is_exists ↦
          exists_sound name sub rest (e ∙ ap some ((str_eq_iff _ _).0 is_exists)) (ground arith)
      | inr not_exists ↦ elim (Bool-cases (str_eq word (lit "FLUSH"))) [
        | inl is_flush ↦
            flush_sound name sub rest (e ∙ ap some ((str_eq_iff _ _).0 is_flush)) (ground arith)
              (ground arith)
        | inr not_flush ↦ absurd (ground arith)
      ]
    ]
  ]

  validate_subcommand_sound :
      (array : List (CommandArg Number)) → validate_subcommand array ≡ ok tt → ScriptCall array
  unfolding validate_subcommand
  validate_subcommand_sound [] h = cc
  validate_subcommand_sound (name ∷ []) h = cc
  validate_subcommand_sound (name ∷ sub ∷ rest) h = elim (Option-cases (word_of sub)) [
    | inl e ↦ absurd (ground arith)
    | inr (word, e) ↦ check_sound word name sub rest e (rw (e, ok_or) at h)
  ]

  validate_subcommand_complete :
      (array : List (CommandArg Number)) → ScriptCall array → validate_subcommand array ≡ ok tt
  unfolding validate_subcommand check_subcommand
  validate_subcommand_complete array (load name sub script e a) =
      rw a (rw e (ground (arith, str_eq_iff (lit "LOAD") (lit "LOAD"))))
  validate_subcommand_complete array (exists name sub sha more e a) =
      rw a (rw e (ground (arith, distinct_subcommands, str_eq_iff (lit "EXISTS") (lit "EXISTS"))))
  validate_subcommand_complete array (flush name sub e a) =
      rw a (rw e (ground (arith, distinct_subcommands, str_eq_iff (lit "FLUSH") (lit "FLUSH"))))
  validate_subcommand_complete array (flush_mode name sub mode e m a) = rw a (
      rw e (
        ground (
          arith,
          distinct_subcommands,
          str_eq_iff (lit "FLUSH") (lit "FLUSH"),
          (check_mode_iff mode).1 m,
        )))

  -- `validate_subcommand` accepts exactly the calls SCRIPT LOAD with one argument, SCRIPT EXISTS with
  -- at least one, and SCRIPT FLUSH alone or with the mode SYNC or ASYNC.
  pub validate_subcommand_iff :
      (array : List (CommandArg Number)) → (validate_subcommand array ≡ ok tt) ↔ ScriptCall array
  validate_subcommand_iff array =
      (validate_subcommand_sound array, validate_subcommand_complete array)
