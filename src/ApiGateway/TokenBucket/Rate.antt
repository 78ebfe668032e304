-- ===== src/ApiGateway/TokenBucket/Rate.antt =====
-- services/api-gateway/src/token-bucket.ts: how much passes.
use native.Mathlib.Nat.{add-mul, zero-mul}
use vellar_dapp.JsMap
use vellar_dapp.JsMap.{JsMap}
use vellar_dapp.ApiGateway.TokenBucket.{
  TokenBucketOptions, BucketState, ConsumeResult, allowed, refused, tokens_at, try_consume,
}
use vellar_dapp.Prelude.{
  leb, if◌then◌else◌, Bool-cases, ℕ, ◌+◌, ◌-◌, ◌*◌, ◌≤◌, min, String, ◌≡◌, refl, sym, ap, ◌∙◌,
  subst, inl, inr, false, Option, none, some, List, [], ◌∷◌, arith, str_eq, eq_iff,
}

pub record Request : Type 0 where
  pub key : String
  pub tokens : ℕ
  pub now : ℕ

abbrev pub granted : ConsumeResult → ℕ → ℕ
granted (allowed left) n = n
granted (refused retry) n = 0

-- The requests in order, with the tokens that were granted to one key.
unfoldable pub serve :
    TokenBucketOptions → String → List Request → JsMap BucketState → JsMap BucketState × ℕ
unfolding try_consume
serve options key [] buckets = (buckets, 0)
serve options key (r ∷ rs) buckets =
    let (buckets', result) = try_consume options r.key r.tokens r.now buckets in
    let (after, total) = serve options key rs buckets' in
    (after, (if str_eq r.key key then granted result r.tokens else 0) + total)

-- The times of the requests do not go back, from `from` to `until`.
abbrev pub Ordered : ℕ → List Request → ℕ → Type 0
Ordered from [] until = from ≤ until
Ordered from (r ∷ rs) until = (from ≤ r.now) × Ordered r.now rs until

-- What a key may be granted at a time at most: the tokens of its bucket with the refill since, up to
-- the capacity; a new bucket is full.
unfoldable pub Funded : TokenBucketOptions → ℕ → Option BucketState → ℕ → Type 0
Funded options now none most = options.capacity * 1000 ≤ most
Funded options now (some s) most =
    (s.last_refill_time ≤ now)
    × (min (options.capacity * 1000)
          (s.milli_tokens + (now - s.last_refill_time) * options.refill_rate_per_second)
        ≤ most)

span : (a b c rate : ℕ) → a ≤ b → b ≤ c → (c - a) * rate ≡ (c - b) * rate + (b - a) * rate
span a b c rate le le' =
    let parts : c - a ≡ (c - b) + (b - a) = omega arith in
    ap (λ n. n * rate) parts ∙ add-mul (c - b) (b - a) rate

tokens_at-le :
    (options : TokenBucketOptions) (state : Option BucketState) (from now most : ℕ)
    → Funded options from state most
    → from ≤ now
    → tokens_at options now state ≤ most + (now - from) * options.refill_rate_per_second
unfolding Funded tokens_at
tokens_at-le options none from now most f le = omega arith
tokens_at-le options (some s) from now most (before, f) le =
    let split = span s.last_refill_time from now options.refill_rate_per_second before le in
    omega (arith, split)

abbrev pub state_of : ℕ → ℕ → BucketState
state_of now tokens = record { milli_tokens = tokens; last_refill_time = now }

-- A request leaves the tokens of its key without what was granted.
pub get-try_consume :
    (options : TokenBucketOptions) (key : String) (n now : ℕ) (buckets : JsMap BucketState)
    → let tokens = tokens_at options now (JsMap.get key buckets) in
      let got = granted (try_consume options key n now buckets).1 n * 1000 in
      (got ≤ tokens)
      × (JsMap.get key (try_consume options key n now buckets).0
          ≡ some (record { milli_tokens = tokens - got; last_refill_time = now }))
unfolding try_consume
get-try_consume options key n now buckets =
    let tokens = tokens_at options now (JsMap.get key buckets) in
    elim (Bool-cases (leb (n * 1000) tokens)) [
      | inl enough ↦ rw enough (ground (arith, enough), JsMap.get-set_self key _ buckets)
      | inr short ↦ rw short (
        omega arith,
        JsMap.get-set_self key (state_of now tokens) buckets
            ∙ ap (λ t. some (state_of now t)) (omega arith),
      )
    ]

get-try_consume_other :
    (options : TokenBucketOptions) (key other : String) (n now : ℕ) (buckets : JsMap BucketState)
    → str_eq other key ≡ false
    → JsMap.get key (try_consume options other n now buckets).0 ≡ JsMap.get key buckets
unfolding try_consume
get-try_consume_other options key other n now buckets h =
    let tokens = tokens_at options now (JsMap.get other buckets) in
    elim (Bool-cases (leb (n * 1000) tokens)) [
      | inl enough ↦ rw enough (JsMap.get-set other key _ buckets ∙ (rw h refl))
      | inr short ↦ rw short (JsMap.get-set other key _ buckets ∙ (rw h refl))
    ]

Funded-later :
    (options : TokenBucketOptions) (state : Option BucketState) (from now most : ℕ)
    → Funded options from state most
    → from ≤ now
    → Funded options now state (most + (now - from) * options.refill_rate_per_second)
unfolding Funded
Funded-later options none from now most f le = omega arith
Funded-later options (some s) from now most (before, f) le =
    let split = span s.last_refill_time from now options.refill_rate_per_second before le in
    (omega arith, omega (arith, split))

Funded-consumed :
    (options : TokenBucketOptions) (key : String) (n now : ℕ) (buckets : JsMap BucketState)
    → let got = granted (try_consume options key n now buckets).1 n * 1000 in
      Funded options now
        (JsMap.get key (try_consume options key n now buckets).0)
        (tokens_at options now (JsMap.get key buckets) - got)
unfolding Funded
Funded-consumed options key n now buckets =
    let (enough, left) = get-try_consume options key n now buckets in
    let none_since : (now - now) * options.refill_rate_per_second ≡ 0 =
      ap (λ d. d * options.refill_rate_per_second) (omega arith)
      ∙ zero-mul options.refill_rate_per_second in
    subst
      (λ o. Funded options now o (
        tokens_at options now (JsMap.get key buckets)
        - granted (try_consume options key n now buckets).1 n * 1000))
      (sym left) (omega arith, omega (arith, none_since))

until_after : (from : ℕ) (rs : List Request) (until : ℕ) → Ordered from rs until → from ≤ until
until_after from [] until o = o
until_after from (r ∷ rs) until (le, o) = omega (arith, until_after r.now rs until o)

-- Whatever requests come, for this key and others, at times that do not go back: the tokens granted to
-- a key are at most what its bucket gives at the start, where the refill is held to the capacity,
-- and the refill of the time since the start.
pub serve_within :
    (options : TokenBucketOptions) (key : String) (rs : List Request) (from until most : ℕ)
    (buckets : JsMap BucketState)
    → Funded options from (JsMap.get key buckets) most
    → Ordered from rs until
    → (serve options key rs buckets).1 * 1000
      ≤ most + (until - from) * options.refill_rate_per_second
unfolding serve
serve_within options key [] from until most buckets f o = omega arith
serve_within options key (r ∷ rs) from until most buckets f (le, o) =
    let rate = options.refill_rate_per_second in
    let after = (try_consume options r.key r.tokens r.now buckets).0 in
    let later = until_after r.now rs until o in
    let split = span from r.now until rate le later in
    elim (Bool-cases (str_eq r.key key)) [
      | inl own ↦
          let same : r.key ≡ key = ground (arith, eq_iff r.key key) in
          let got = granted (try_consume options r.key r.tokens r.now buckets).1 r.tokens * 1000 in
          let most' = tokens_at options r.now (JsMap.get r.key buckets) - got in
          let funded =
            subst (λ k. Funded options r.now (JsMap.get k after) most') same
              (Funded-consumed options r.key r.tokens r.now buckets) in
          let rest = serve_within options key rs r.now until most' after funded o in
          let bound =
            tokens_at-le options (JsMap.get r.key buckets) from r.now most
              (subst (λ k. Funded options from (JsMap.get k buckets) most) (sym same) f) le in
          let enough = (get-try_consume options r.key r.tokens r.now buckets).0 in
          rw own (omega (arith, rest, bound, enough, split))
      | inr other ↦
          let kept = get-try_consume_other options key r.key r.tokens r.now buckets other in
          let rest =
            serve_within options key rs r.now until (most + (r.now - from) * rate) after
              (subst (λ st. Funded options r.now st (most + (r.now - from) * rate)) (sym kept)
                (Funded-later options (JsMap.get key buckets) from r.now most f le))
              o in
          rw other (omega (arith, rest, split))
    ]
