-- ===== src/ComManger/Sessions.antt =====
-- The cached hash of the users, and the sessions.
use ifellsofuckinggood.Prelude.{
  ◌%◌, ◌≡◌, ap, ℤ, pos, negsuc, eqℤ, Bytes, Bool, true, false, List, ◌==◌, Outcome, returned,
  thrown, undefined, arith, Bool-cases, inl, inr,
}
use ifellsofuckinggood.RedisClient.{Env, State}
use ifellsofuckinggood.ComManger.{
  bit_field, Manger, set_user_map_flag, get_all_user_map, exec_hset, hset_done,
}

-- The one bit never compares equal to 1.
bit_field-ne-one : (z : ℤ) → eqℤ (bit_field z) (pos 1) ≡ false
unfolding bit_field
bit_field-ne-one (pos n) = elim (Bool-cases (n % 2 == 0)) [ inl e ↦ rw e | inr e ↦ rw e ]
bit_field-ne-one (negsuc n) = elim (Bool-cases (n % 2 == 0)) [ inl e ↦ rw e | inr e ↦ rw e ]

module _ {X Y W : Type 0} (env : Env X Y W) where
  -- Whatever value the flag is set to, the next read of the user map does not read Redis: it gives
  -- the cached hash and changes nothing.
  pub get_all_user_map-stale :
      (z : ℤ) (m : Manger X Y W)
      → get_all_user_map env (set_user_map_flag z m)
        ≡ (returned m.user_data.user_hash, set_user_map_flag z m)
  unfolding get_all_user_map set_user_map_flag
  get_all_user_map-stale z m = rw (bit_field-ne-one z)

  stale_after :
      (m : Manger X Y W) (r : Outcome (Bool × List Bytes) × State X Y W) {response : List Bytes}
      → (hset_done env m r).0 ≡ returned (true, response)
      → (get_all_user_map env (hset_done env m r).1).0 ≡ returned m.user_data.user_hash
  unfolding hset_done
  stale_after m (returned (true, r), s) h =
      ap (λ q. q.0) (get_all_user_map-stale (pos 1) (record m { redis = s }))
  stale_after m (returned (false, r), s) h = absurd (ground arith)
  stale_after m (thrown, s) h = cc
  stale_after m (undefined, s) h = cc

  -- After an ExecHset that has written the user hash of Redis, getAllUserMap still gives the hash as
  -- it was cached before.
  pub exec_hset-not-seen :
      (response response' : List Bytes) (hash_name key value : Bytes) (m : Manger X Y W)
      → (exec_hset env response hash_name key value m).0 ≡ returned (true, response')
      → (get_all_user_map env (exec_hset env response hash_name key value m).1).0
        ≡ returned m.user_data.user_hash
  unfolding exec_hset
  exec_hset-not-seen response response' hash_name key value m h = stale_after m _ h
