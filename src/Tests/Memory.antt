-- ===== src/Tests/Memory.antt =====
-- A Redis in memory, for the tests. Its sets do not expire.
use enterprise_fast_api_boil.Base.{
  ℕ, ◌+◌, String, ◌≡◌, refl, true, Option, none, some, List, ◌∷◌, ltb, arith, eq_refl,
  if◌then◌else◌, Bool-cases,
}
use enterprise_fast_api_boil.Base.Dict.{pair_eq, pair_eq_iff, beq_refl, pair_key}
use enterprise_fast_api_boil.Tokens.Redis.{
  Redis, Value, EntryKey, IndexKey, by_user, access_by_user,
}
use enterprise_fast_api_boil.Tokens.Store.{same_index}

pub record Entries : Type 0 where
  pub values : EntryKey → Option (Value × ℕ)
  pub sets : IndexKey → List String

abbrev pub alive : ℕ → Option (Value × ℕ) → Option Value
alive t none = none
alive t (some (v, until)) = if ltb t until then some v else none

abbrev pub write : EntryKey → Option (Value × ℕ) → Entries → Entries
write k v s = record s { values = λ j. if pair_eq k j then v else s.values j }

abbrev pub enter : IndexKey → String → Entries → Entries
enter k m s = record s { sets = λ j. if same_index k j then m ∷ s.sets j else s.sets j }

pub same_index_refl : (k : IndexKey) → same_index k k ≡ true
same_index_refl (by_user p i) = ground (arith, eq_refl p)
same_index_refl (access_by_user p i) = ground (arith, eq_refl p)

abbrev pub in_memory : Redis
in_memory = record {
  State = Entries;
  set = λ now k v ttl s. write k (some (v, now + ttl)) s;
  get = λ t k s. alive t (s.values k);
  delete = λ k s. write k none s;
  sadd = λ now k m s. enter k m s;
  expire = λ now k ttl s. s;
  smembers = λ t k s. s.sets k;
  get-set_self = λ now t k v ttl s h live. ground (arith, beq_refl k);
  get-set_old = λ now t k v ttl s h. ground (arith, beq_refl k);
  get-set_ne = λ now t k j v ttl s ne. ground (arith, pair_eq_iff k j);
  get-delete_self = λ t k s. ground (arith, beq_refl k);
  get-delete_none = λ t k j s gone. ground (arith, Bool-cases (pair_eq k j));
  get-sadd = λ now t k m j s. refl;
  get-expire = λ now t k ttl j s. refl;
  smembers-track = λ now t k m ttl s h live. ground (arith, same_index_refl k, eq_refl m);
  smembers-set = λ now t j k v ttl s. refl;
}
