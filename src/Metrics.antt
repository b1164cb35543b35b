-- ===== src/Metrics.antt =====
-- `MetricsCollector` of backend/observability/metrics.py. The counter of the Prometheus library
-- beside these is left out; `upper` is Python's.
use enterprise_fast_api_boil.Base.{
  ℕ, ◌+◌, String, ◌≡◌, arith, ==_iff, Option, none, some, [], ◌∷◌, ◌==◌,
}
use enterprise_fast_api_boil.Base.Dict.{Dict, Key, text_key, get, put}

instance abbrev pub number_key : Key ℕ
number_key = record { beq = ◌==◌; beq_iff = ==_iff }

-- `collections.Counter`: a missing key counts zero.
abbrev pub Counter : Type 0 → Type 0
Counter K = Dict K ℕ

abbrev or_zero : Option ℕ → ℕ
or_zero none = 0
or_zero (some n) = n

module _ {K : Type 0} ⦃e : Key K⦄ where
  -- `counter[key] += 1`
  unfoldable pub count_one : K → Counter K → Counter K
  count_one k c = put k (or_zero (get k c) + 1) c

-- `sum(counter.values())`
abbrev pub total : {K : Type 0} → Counter K → ℕ
total [] = 0
total ((k, n) ∷ c) = n + total c

pub record MetricsCollector : Type 0 where
  pub request_count : ℕ
  pub status_codes : Counter ℕ
  pub methods : Counter String
  pub paths : Counter String

-- `record`, where `upper` is the method in capitals
unfoldable pub record_request :
    (String → String) → String → ℕ → String → MetricsCollector → MetricsCollector
unfolding count_one
record_request upper method status_code path m = record m {
  request_count = m.request_count + 1;
  status_codes = count_one status_code m.status_codes;
  methods = count_one (upper method) m.methods;
  paths = count_one path m.paths;
}

-- `reset`, and a new collector
abbrev pub no_requests : MetricsCollector
no_requests = record { request_count = 0; status_codes = []; methods = []; paths = [] }

-- The three counters count every request once.
pub record IsConsistent (m : MetricsCollector) : Type 0 where
  pub by_status : total m.status_codes ≡ m.request_count
  pub by_method : total m.methods ≡ m.request_count
  pub by_path : total m.paths ≡ m.request_count

total-count_one :
    {K : Type 0} ⦃e : Key K⦄ (k : K) (c : Counter K) → total (count_one k c) ≡ total c + 1
unfolding count_one get put
total-count_one k [] = ground arith
total-count_one ⦃e⦄ k ((j, n) ∷ c) = ground (arith, total-count_one k c)

pub record_request-IsConsistent :
    (upper : String → String) (method : String) (status_code : ℕ) (path : String)
    (m : MetricsCollector)
    → IsConsistent m
    → IsConsistent (record_request upper method status_code path m)
unfolding record_request
record_request-IsConsistent upper method status_code path m h = record {
  by_status = omega (arith, total-count_one status_code m.status_codes, h.by_status);
  by_method = omega (arith, total-count_one (upper method) m.methods, h.by_method);
  by_path = omega (arith, total-count_one path m.paths, h.by_path);
}
