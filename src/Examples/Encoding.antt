-- ===== src/Examples/Encoding.antt =====
-- The limit on response bodies at concrete inputs.
use rubix_redis_bridge.Prelude.{◌≡◌, false, [], ◌∷◌, err}
use rubix_redis_bridge.App.Response.{serialized_response, too_large}
use rubix_redis_bridge.App.Response.Limit.{serialized_response_lem}

serialized_response_lem_example :
    serialized_response 200 ((91 ∷ []) ∷ (49 ∷ 50 ∷ []) ∷ (93 ∷ []) ∷ []) false 3
    ≡ err (too_large 3)
serialized_response_lem_example =
    serialized_response_lem 200 ((91 ∷ []) ∷ (49 ∷ 50 ∷ []) ∷ (93 ∷ []) ∷ []) false 3
