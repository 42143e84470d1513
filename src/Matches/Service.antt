-- ===== src/Matches/Service.antt =====
-- internal/matches/service.go, and the part of internal/matches/registry.go that it calls.
use billiards_online.Base.{ℕ, none, some, List, ◌∷◌, not, ◌==◌, select, ok}
use billiards_online.Matches.Model.{Match, CreateInput, Error, internal, normalize}
use billiards_online.Matches.Repository.{insert_match, select_match}
use billiards_online.Postgres.{M, Handle, pool, ◌>>=◌, ◌>>◌, pure, lift, in_tx, new_uuid}

-- `Registry.Start`: the actor's entry in the map, in place of an older one of the same match.
unfoldable pub register : Match → List Match → List Match
register m ms = m ∷ select (λ n. not (n.id == m.id)) ms

-- `StartActor`; a service without a registry starts nothing.
unfoldable pub start_actor : {E : Type 0} → Match → M E (Unit {0})
unfolding register
start_actor m w = elim w.registry [
  | none ↦ (ok tt, w)
  | some ms ↦ (ok tt, record w { registry = some (register m ms) })
]

unfoldable pub create_in_tx : Handle → CreateInput → M Error Match
create_in_tx db input = do
  normal ← lift (normalize input)
  id ← new_uuid internal
  insert_match db id normal

unfoldable pub create : CreateInput → M Error Match
create input = do m ← in_tx internal pool (λ db. create_in_tx db input); start_actor m; pure m

unfoldable pub get : ℕ → M Error Match
get id = select_match pool id
