-- ===== src/Security/Policy/Validate.antt =====
-- What `SecurityPolicy::validate` demands (src/security/policy.rs).
use rubix_redis_bridge.Prelude.{
  ◌≡◌, ◌≢◌, ◌↔◌, inl, inr, refl, Bool, true, false, List, [], ◌∷◌, Mem, ok, arith, All, All-weaken,
  contains-eq-false_iff, filter, is_empty, list_eq, nat_eq, Bool-cases,
}
use rubix_redis_bridge.Text.{Str}
use rubix_redis_bridge.Commands.{denied_commands}
use rubix_redis_bridge.Security.Deny.{is_denied_command}
use rubix_redis_bridge.Security.Policy.{SecurityPolicy, validate}

filter_empty_iff :
    (p : Str → Bool) (xs : List Str) → (is_empty (filter p xs) ≡ true) ↔ All (λ x. p x ≡ false) xs
unfolding filter
filter_empty_iff p [] = (λ h. tt, λ h. refl)
filter_empty_iff p (x ∷ xs) = elim (Bool-cases (p x)) [
  | inl in_set ↦ (λ h. absurd (ground arith), λ h. absurd (ground (arith, h.0)))
  | inr out ↦
      let rest = filter_empty_iff p xs in
      (λ h. (out, rest.0 (ground arith)), λ h. let later = rest.1 h.1 in ground arith)
]

-- A policy is valid exactly if it allows some command and none that is hard-denied, those included
-- that a capability would except.
pub validate_iff :
    (p : SecurityPolicy)
    → (validate p ≡ ok tt)
      ↔ ((p.allowed_commands ≢ []) × All (λ name. ¬ Mem name denied_commands) p.allowed_commands)
unfolding validate is_denied_command
validate_iff p =
    let each = filter_empty_iff (λ name. is_denied_command name false false) p.allowed_commands in
    (
      λ h. (
        ground arith,
        All-weaken p.allowed_commands (λ name k. (contains-eq-false_iff denied_commands name).0 k)
            (each.0 (ground arith)),
      ),
      λ (some_allowed, free).
          let none_denied = each.1 (
            All-weaken p.allowed_commands
              (λ name k. (contains-eq-false_iff denied_commands name).1 k) free) in
          ground arith,
    )
