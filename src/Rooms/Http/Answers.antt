-- ===== src/Rooms/Http/Answers.antt =====
-- What the answers of internal/rooms/handler.go say about the tables.
use billiards_online.Base.{ℕ, ◌≡◌, ◌≢◌, refl, Option, none, some, err}
use billiards_online.Rooms.Model.{Error, internal}
use billiards_online.Rooms.Http.{
  start, write_start_error, write_room_error, leave, with_user, with_room,
}
use billiards_online.Rooms.Start as Start
use billiards_online.Rooms.Service as Service
use billiards_online.Rooms.Service.{leave_in_tx}
use billiards_online.Rooms.Starting.{start_atomic}
use billiards_online.Http.{answered}
use billiards_online.Postgres.Laws.{in_tx-atomic}
use billiards_online.Postgres.{pool, World}

leave_atomic :
    (rid uid : ℕ) (w : World) (e : Error)
    → (Service.leave rid uid w).0 ≡ err e
    → (Service.leave rid uid w).1.tables ≡ w.tables
unfolding Service.leave
leave_atomic rid uid w e h = in_tx-atomic internal pool (leave_in_tx rid uid) w e h

-- The handler of a start, if it does not answer 201, has changed no table.
pub start-unchanged :
    (user room : Option ℕ) (w : World)
    → (start user room w).0.status ≢ 201
    → (start user room w).1.tables ≡ w.tables
unfolding start with_user with_room
start-unchanged none room w h = refl
start-unchanged (some uid) none w h = refl
start-unchanged (some uid) (some rid) w h =
    answered (λ r. r.status ≡ 201) (Start.start rid uid) _ write_start_error w
      (start_atomic rid uid w) (λ m. refl) h

-- The handler of a leave, if it does not answer 204, has changed no table.
pub leave-unchanged :
    (user room : Option ℕ) (w : World)
    → (leave user room w).0.status ≢ 204
    → (leave user room w).1.tables ≡ w.tables
unfolding leave with_user with_room
leave-unchanged none room w h = refl
leave-unchanged (some uid) none w h = refl
leave-unchanged (some uid) (some rid) w h =
    answered (λ r. r.status ≡ 204) (Service.leave rid uid) _ write_room_error w
      (leave_atomic rid uid w) (λ m. refl) h
