-- ===== src/Postgres/Laws/Transactions.antt =====
-- The rules of statements, transactions and draws: platform/postgres/postgres.go.
use billiards_online.Base.{ℕ, ◌≡◌, refl, arith, Bool-cases, inl, inr, Option-cases, Result, ok, err}
use billiards_online.Schema.{Tables, PgError}
use billiards_online.Postgres.{
  World, M, Handle, Times, Statement, exec, query, in_tx, settle, finish, next, times, tx, new_uuid,
  rand_read, time_now,
}
use billiards_online.Postgres.Laws.Triples.{
  Post, Triple, Keeps, Outcome, map_err-Triple, map_err-Keeps,
}

settle-Post :
    {A : Type 0} (Q : A → Tables → Type 0) (w : World) (o : Result PgError (A × Tables))
    → Outcome Q o
    → Post Q (settle w o).0 (settle w o).1
settle-Post Q w (ok (a, t)) q = q
settle-Post Q w (err e) q = tt

pub exec-Triple :
    {A : Type 0} {P : Tables → Type 0} {Q : A → Tables → Type 0} (db : Handle) (s : Statement A)
    → ((ts : Times) (t : Tables) → P t → Outcome Q (s ts t))
    → Triple P (exec db s) Q
unfolding exec
exec-Triple {A} {P} {Q} db s hs = record {
  at = λ w h. elim (Bool-cases (w.env.fails w.tick)) [
    | inl down ↦ rw down tt
    | inr up ↦ rw up (settle-Post Q w _ (hs (times db w) w.tables h))
  ];
}

settle-tables :
    {A : Type 0} (P : Tables → Type 0) (w : World) (o : Result PgError (A × Tables))
    → P w.tables
    → Outcome (λ _. P) o
    → P (settle w o).1.tables
settle-tables P w (ok (a, t)) h q = q
settle-tables P w (err e) h q = h

pub exec-Keeps :
    {A : Type 0} {P : Tables → Type 0} (db : Handle) (s : Statement A)
    → ((ts : Times) (t : Tables) → P t → Outcome (λ _. P) (s ts t))
    → Keeps P (exec db s)
unfolding exec
exec-Keeps {A} {P} db s hs = record {
  at = λ w h. elim (Bool-cases (w.env.fails w.tick)) [
    | inl down ↦ rw down h
    | inr up ↦ rw up (settle-tables P w _ h (hs (times db w) w.tables h))
  ];
}

finish-tables :
    {E A : Type 0} (P : Tables → Type 0) (failure : E) (before : Tables) (r : Result E A)
    (w : World)
    → P before
    → Post (λ _. P) r w
    → P (finish failure before r w).1.tables
finish-tables P failure before (err e) w h q = h
finish-tables P failure before (ok a) w h q = elim (Bool-cases (w.env.fails w.tick)) [
  | inl down ↦ rw down h
  | inr up ↦ rw up q
]

-- A transaction keeps what its body establishes whenever it succeeds.
pub in_tx-Keeps :
    {E A : Type 0} {P : Tables → Type 0} (failure : E) (db : Handle) (body : Handle → M E A)
    → ((h : Handle) → Triple P (body h) (λ _. P))
    → Keeps P (in_tx failure db body)
unfolding in_tx
in_tx-Keeps {E} {A} {P} failure db body hb = record {
  at = λ w h. elim (Bool-cases (w.env.fails w.tick)) [
    | inl down ↦ rw down h
    | inr up ↦ rw up (finish-tables P failure w.tables _ _ h ((hb _).at (next w) h))
  ];
}

finish-Post :
    {E A : Type 0} (Q : A → Tables → Type 0) (failure : E) (before : Tables) (r : Result E A)
    (w : World)
    → Post Q r w
    → let s = finish failure before r w in Post Q s.0 s.1
finish-Post Q failure before (err e) w q = tt
finish-Post Q failure before (ok a) w q = elim (Bool-cases (w.env.fails w.tick)) [
  | inl down ↦ rw down tt
  | inr up ↦ rw up q
]

pub in_tx-Triple :
    {E A : Type 0} {P : Tables → Type 0} {Q : A → Tables → Type 0} (failure : E) (db : Handle)
    (body : Handle → M E A)
    → ((h : Handle) → Triple P (body h) Q)
    → Triple P (in_tx failure db body) Q
unfolding in_tx
in_tx-Triple {E} {A} {P} {Q} failure db body hb = record {
  at = λ w h. elim (Bool-cases (w.env.fails w.tick)) [
    | inl down ↦ rw down tt
    | inr up ↦ rw up (finish-Post Q failure w.tables _ _ ((hb _).at (next w) h))
  ];
}

finish-err :
    {E A : Type 0} (failure : E) (before : Tables) (r : Result E A) (w : World) (e : E)
    → (finish failure before r w).0 ≡ err e
    → (finish failure before r w).1.tables ≡ before
finish-err failure before (err x) w e h = refl
finish-err failure before (ok a) w e h = ground arith

-- A transaction that reports an error has changed no table, whatever its body did before it.
pub in_tx-atomic :
    {E A : Type 0} (failure : E) (db : Handle) (body : Handle → M E A) (w : World) (e : E)
    → (in_tx failure db body w).0 ≡ err e
    → (in_tx failure db body w).1.tables ≡ w.tables
unfolding in_tx
in_tx-atomic failure db body w e h =
    let run = body (tx (times db w).now) (next w) in
    elim (Bool-cases (w.env.fails w.tick)) [
      | inl down ↦ rw down refl
      | inr up ↦ rw up (finish-err failure w.tables run.0 run.1 e (rw up at h))
    ]

pub query-Triple :
    {E A : Type 0} {P : Tables → Type 0} {Q : A → Tables → Type 0} (sending reading : PgError → E)
    (db : Handle) (s : Statement A)
    → ((ts : Times) (t : Tables) → P t → Outcome Q (s ts t))
    → Triple P (query sending reading db s) Q
unfolding query
query-Triple sending reading db s hs = map_err-Triple _ (exec-Triple db s hs)

pub query-Keeps :
    {E A : Type 0} {P : Tables → Type 0} (sending reading : PgError → E) (db : Handle)
    (s : Statement A)
    → ((ts : Times) (t : Tables) → P t → Outcome (λ _. P) (s ts t))
    → Keeps P (query sending reading db s)
unfolding query
query-Keeps sending reading db s hs = map_err-Keeps _ (exec-Keeps db s hs)

-- Draws from the environment touch no table.
module _ {E : Type 0} {P : Tables → Type 0} where
  pub new_uuid-Keeps : (e : E) → Keeps P (new_uuid e)
  unfolding new_uuid
  new_uuid-Keeps e = record {
    at = λ w h. elim (Option-cases (w.env.new_uuid w.tick)) [
      | inl none_drawn ↦ rw (none_drawn, new_uuid) h
      | inr (id, drawn) ↦ rw (drawn, new_uuid) h
    ];
  }

  pub rand_read-Keeps : (e : E) (n : ℕ) → Keeps P (rand_read e n)
  unfolding rand_read
  rand_read-Keeps e n = record {
    at = λ w h. elim (Option-cases (w.env.random w.tick n)) [
      | inl none_drawn ↦ rw (none_drawn, rand_read) h
      | inr (bs, drawn) ↦ rw (drawn, rand_read) h
    ];
  }

  pub time_now-Keeps : Keeps {E = E} P time_now
  unfolding time_now
  time_now-Keeps = record { at = λ w h. h }
