-- ===== src/Server/Orphans.antt =====
-- Who is still served when the process of apps/server/cmd/server/main.go closes its pool.
use billiards_online.Base.{
  ◌≡◌, ◌⊎◌, inl, inr, sym, ap, ◌∙◌, refl, Bool, List, [], ◌∷◌, Result, ok, err,
}
use billiards_online.Config.{Config, Problem}
use billiards_online.Postgres.Laws.{ok-inj}
use billiards_online.Postgres.Connect.{
  PoolConfig, Attempt, bad_url, no_pool, closed_again, reached, connect,
}
use billiards_online.Server.Process.{
  Listener, public, internal, listen, stop, broke, signals, pool, auth_limiter, room_limiter,
  Effect, closed, Ending, failed, signalled, Surroundings, using, served, connected_run, loaded_run,
}

abbrev pub other : Listener → Listener
other public = internal
other internal = public

unfoldable pub without : Listener → List Listener → List Listener
without l [] = []
without public (public ∷ ls) = without public ls
without internal (internal ∷ ls) = without internal ls
without public (internal ∷ ls) = internal ∷ without public ls
without internal (public ∷ ls) = public ∷ without internal ls

-- The listeners that take requests when the pool is closed, from those that do so now.
unfoldable pub orphans : List Listener → List Effect → List Listener
unfolding without
orphans serving [] = []
orphans serving (closed pool ∷ es) = serving
orphans serving (listen l ∷ es) = orphans (l ∷ serving) es
orphans serving (stop l ∷ es) = orphans (without l serving) es
orphans serving (broke l ∷ es) = orphans (without l serving) es
orphans serving (e ∷ es) = orphans serving es

-- A process one of whose listeners ended by an error.
pub record Breaks (s : Surroundings) (l : Listener) : Type 0 where
  pub cfg : Config
  pub loaded : s.loaded ≡ ok cfg
  pub pool : PoolConfig
  pub connected : connect s.driver cfg.database ≡ reached pool
  pub ending : s.ending ≡ failed l

-- At the pool's end no listener takes requests, unless one has broken, and then the other does.
abbrev pub OrphansOf : Surroundings → List Effect → Type 0
OrphansOf s es =
    (¬ ((l : Listener) × Breaks s l) × (orphans [] es ≡ []))
    ⊎ ((l : Listener) × Breaks s l × (orphans [] es ≡ other l ∷ []))

-- At the pool's end, by what connecting and waiting came to.
module _ (s : Surroundings) (cfg : Config) (there : s.loaded ≡ ok cfg) where
  same_config : (l : Listener) (b : Breaks s l) → b.cfg ≡ cfg
  same_config l b = ok-inj (sym b.loaded ∙ there)

  unbroken :
      (r : Attempt) (es : List Effect)
      → connect s.driver cfg.database ≡ r
      → ((p : PoolConfig) (l : Listener) → r ≡ reached p → s.ending ≡ failed l → ⊥)
      → orphans [] es ≡ []
      → OrphansOf s es
  unbroken r es e never none_left = inl (
    λ x.
        let (l, b) = x in
        never b.pool l
          (sym e
            ∙ ap (λ (c : Config). connect s.driver c.database) (sym (same_config l b))
            ∙ b.connected)
          b.ending,
    none_left,
  )

  connected_run-OrphansOf :
      (r : Attempt)
      → connect s.driver cfg.database ≡ r
      → OrphansOf s (using signals (connected_run s r)).1
  unfolding connected_run using orphans served
  connected_run-OrphansOf bad_url e =
      unbroken bad_url (using signals (connected_run s bad_url)).1 e (λ p l h k. absurd (cc h)) refl
  connected_run-OrphansOf no_pool e =
      unbroken no_pool (using signals (connected_run s no_pool)).1 e (λ p l h k. absurd (cc h)) refl
  connected_run-OrphansOf (closed_again q) e =
      unbroken (closed_again q) (using signals (connected_run s (closed_again q))).1 e
        (λ p l h k. absurd (cc h)) refl
  connected_run-OrphansOf (reached q) e = ends s.ending s.public_stops s.internal_stops refl
    where
      ends :
          (end : Ending) (a b : Bool)
          → s.ending ≡ end
          → OrphansOf s
              (using signals
                (using pool (using auth_limiter (using room_limiter (served end a b))))).1
      ends (failed public) a b h =
          inr (
            public,
            record { cfg = cfg; loaded = there; pool = q; connected = e; ending = h },
            refl,
          )
      ends (failed internal) a b h = inr (
        internal,
        record { cfg = cfg; loaded = there; pool = q; connected = e; ending = h },
        refl,
      )
      ends signalled a b h =
          unbroken (reached q)
            (using signals
              (using pool (using auth_limiter (using room_limiter (served signalled a b))))).1
            e (λ p l same_pool k. absurd (cc (sym h ∙ k))) refl

pub loaded_run-OrphansOf :
    (s : Surroundings) (l : Result (List Problem) Config)
    → s.loaded ≡ l
    → OrphansOf s (loaded_run s l).1
unfolding loaded_run orphans
loaded_run-OrphansOf s (err ps) e =
    inl (λ x. let (l, b) = x in absurd (cc (sym b.loaded ∙ e)), refl)
loaded_run-OrphansOf s (ok cfg) e =
    connected_run-OrphansOf s cfg e (connect s.driver cfg.database) refl
