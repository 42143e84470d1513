-- ===== src/Security/RateLimit/Sweeping.antt =====
-- A limiter whose sweeper runs beside one that is never swept: platform/security/ratelimit.go.
use billiards_online.Base.{
  ℕ, ◌≤◌, ◌≡◌, ◌⊎◌, inl, inr, refl, sym, ap, ◌∙◌, Bool, true, false, Bool-cases, Option, none, some,
  List, [], ◌∷◌, Text, text_eq,
}
use billiards_online.Security.RateLimit.{
  Float, Bucket, Limits, Buckets, put, refilled, capped, spent, take_token, consume, allow_at,
  reset, swept, sweep,
}

-- What floating-point numbers promise, where none is NaN or a negative zero: rounding is monotone,
-- the rate is not negative, and a number that is at least another and not above it is that number.
pub record Ordered (fl : Float) (lim : Limits fl) : Type 0 where
  pub tight : (x : fl.F) → fl.le lim.burst x ≡ true → fl.lt lim.burst x ≡ false → x ≡ lim.burst
  pub trans : (x y z : fl.F) → fl.le x y ≡ true → fl.le y z ≡ true → fl.le x z ≡ true
  pub add_mono : (a x y : fl.F) → fl.le x y ≡ true → fl.le (fl.add a x) (fl.add a y) ≡ true
  pub rate_mono :
      (x y : fl.F) → fl.le x y ≡ true → fl.le (fl.mul x lim.rate) (fl.mul y lim.rate) ≡ true
  pub seconds_mono :
      (t t' last : ℕ) → t ≤ t' → fl.le (fl.seconds t last) (fl.seconds t' last) ≡ true
  -- NewRateLimiter is given a burst of one at least.
  pub burst_some : fl.lt lim.burst fl.one ≡ false

pub data Call : Type 0 where
  allow : Text → ℕ → Call
  reset_call : Text → Call
  sweep_call : ℕ → Call

module _ (fl : Float) (lim : Limits fl) where
  -- The verdicts of a run.
  unfoldable pub verdicts : List Call → Buckets fl → List Bool
  verdicts [] bs = []
  verdicts (allow key now ∷ cs) bs =
      (allow_at fl lim key now bs).0 ∷ verdicts cs (allow_at fl lim key now bs).1
  verdicts (reset_call key ∷ cs) bs = verdicts cs (reset fl lim key bs)
  verdicts (sweep_call now ∷ cs) bs = verdicts cs (sweep fl lim now bs)

-- The same calls with a sweeper that never runs.
unfoldable pub unswept : List Call → List Call
unswept [] = []
unswept (allow key now ∷ cs) = allow key now ∷ unswept cs
unswept (reset_call key ∷ cs) = reset_call key ∷ unswept cs
unswept (sweep_call now ∷ cs) = unswept cs

-- Time does not run backwards from `t` on.
abbrev pub Forward : ℕ → List Call → Type 0
Forward t [] = Unit {0}
Forward t (allow key now ∷ cs) = (t ≤ now) × Forward now cs
Forward t (reset_call key ∷ cs) = Forward t cs
Forward t (sweep_call now ∷ cs) = (t ≤ now) × Forward now cs

module _ (fl : Float) (lim : Limits fl) (ord : Ordered fl lim) where
  abbrev Full : ℕ → Bucket fl → Type 0
  Full t b = fl.le lim.burst (refilled fl lim b t) ≡ true

  refills : (b : Bucket fl) (t t' : ℕ) → t ≤ t' → Full t b → Full t' b
  unfolding refilled
  refills b t t' h full =
      ord.trans _ _ _ full
        (ord.add_mono b.tokens _ _ (ord.rate_mono _ _ (ord.seconds_mono t t' b.last h)))

  -- A bucket that is full again may be missing on the side that is swept.
  abbrev Agree : ℕ → Option (Bucket fl) → Option (Bucket fl) → Type 0
  Agree t o o' = (o ≡ o') ⊎ ((o ≡ none) × (b : Bucket fl) × (o' ≡ some b) × Full t b)

  Agree-later : (t t' : ℕ) (o o' : Option (Bucket fl)) → t ≤ t' → Agree t o o' → Agree t' o o'
  Agree-later t t' o o' h (inl e) = inl e
  Agree-later t t' o o' h (inr (e, b, e', full)) = inr (e, b, e', refills b t t' h full)

  capped-full : (x : fl.F) → fl.le lim.burst x ≡ true → capped fl lim x ≡ lim.burst
  unfolding capped
  capped-full x full = elim (Bool-cases (fl.lt lim.burst x)) [
    | inl above ↦ rw above refl
    | inr not_above ↦ rw not_above (ord.tight x full not_above)
  ]

  take_token-burst :
      (now : ℕ) → take_token fl lim lim.burst now ≡ (true, spent fl lim lim.burst now)
  unfolding take_token
  take_token-burst now = rw ord.burst_some refl

  consume-Full :
      (b : Bucket fl) (now : ℕ) → Full now b → consume fl lim (some b) now ≡ consume fl lim none now
  unfolding consume
  consume-Full b now full =
      ap (λ x. take_token fl lim x now) (capped-full (refilled fl lim b now) full)
      ∙ take_token-burst now

  consume-Agree :
      (now : ℕ) (o o' : Option (Bucket fl))
      → Agree now o o'
      → consume fl lim o now ≡ consume fl lim o' now
  consume-Agree now o o' (inl e) = ap (λ p. consume fl lim p now) e
  consume-Agree now o o' (inr (e, b, e', full)) =
      ap (λ p. consume fl lim p now) e
      ∙ sym (consume-Full b now full)
      ∙ ap (λ p. consume fl lim p now) (sym e')

  abbrev Alike : ℕ → Buckets fl → Buckets fl → Type 0
  Alike t bs bs' = (key : Text) → Agree t (bs key) (bs' key)

  put-Alike :
      (t : ℕ) (key : Text) (o o' : Option (Bucket fl)) (bs bs' : Buckets fl)
      → Agree t o o'
      → Alike t bs bs'
      → Alike t (put fl key o bs) (put fl key o' bs')
  unfolding put
  put-Alike t key o o' bs bs' h alike k = elim (Bool-cases (text_eq k key)) [
    | inl same ↦ rw same h
    | inr other ↦ rw other (alike k)
  ]

  swept-Agree : (t : ℕ) (o o' : Option (Bucket fl)) → Agree t o o' → Agree t (swept fl lim t o) o'
  unfolding swept
  swept-Agree t o o' (inr (e, b, e', full)) = inr (ap (swept fl lim t) e, b, e', full)
  swept-Agree t none o' (inl e) = inl e
  swept-Agree t (some b) o' (inl e) = elim (Bool-cases (fl.le lim.burst (refilled fl lim b t))) [
    | inl full ↦ inr (rw full refl, b, sym e, full)
    | inr less ↦ inl (rw less e)
  ]

  allow_at-verdict :
      (key : Text) (now : ℕ) (bs : Buckets fl)
      → (allow_at fl lim key now bs).0 ≡ (consume fl lim (bs key) now).0
  unfolding allow_at
  allow_at-verdict key now bs = refl

  verdicts-Alike :
      (cs : List Call) (t : ℕ) (bs bs' : Buckets fl)
      → Forward t cs
      → Alike t bs bs'
      → verdicts fl lim cs bs ≡ verdicts fl lim (unswept cs) bs'
  unfolding verdicts unswept allow_at reset sweep
  verdicts-Alike [] t bs bs' fwd alike = refl
  verdicts-Alike (allow key now ∷ cs) t bs bs' (h, fwd) alike =
      let now_alike : Alike now bs bs' = λ k. Agree-later t now (bs k) (bs' k) h (alike k) in
      let same = consume-Agree now (bs key) (bs' key) (now_alike key) in
      ap (λ v. v ∷ verdicts fl lim cs (put fl key (some (consume fl lim (bs key) now).1) bs))
        (ap (λ (r : Bool × Bucket fl). r.0) same)
      ∙ ap ((consume fl lim (bs' key) now).0 ∷◌) (
          verdicts-Alike cs now _ _ fwd (
            put-Alike now key _ _ bs bs' (inl (ap (λ (r : Bool × Bucket fl). some r.1) same))
              now_alike))
  verdicts-Alike (reset_call key ∷ cs) t bs bs' fwd alike =
      verdicts-Alike cs t _ _ fwd (put-Alike t key none none bs bs' (inl refl) alike)
  verdicts-Alike (sweep_call now ∷ cs) t bs bs' (h, fwd) alike =
      verdicts-Alike cs now _ bs' fwd
        λ k. swept-Agree now (bs k) (bs' k) (Agree-later t now (bs k) (bs' k) h (alike k))

  -- The sweeper frees memory and nothing else: over any calls and sweeps whose times do not run
  -- backwards, from any buckets, each request gets the verdict that it would get if no bucket
  -- were ever swept.
  pub verdicts-unswept :
      (cs : List Call) (t : ℕ) (bs : Buckets fl)
      → Forward t cs
      → verdicts fl lim cs bs ≡ verdicts fl lim (unswept cs) bs
  verdicts-unswept cs t bs fwd = verdicts-Alike cs t bs bs fwd λ k. inl refl
