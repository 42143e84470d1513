-- ===== src/Server/Finishing.antt =====
-- About the middlewares of apps/server/cmd/server/middleware.go: how every request ends.
use mathlib.Core.List.{append_assoc}
use billiards_online.Base.{
  ℕ, ◌≤◌, ◌<◌, ◌≡◌, ◌⊎◌, refl, sym, ap, ◌∙◌, Bool-cases, inl, inr, List, [], ◌∷◌, ◌++◌, Text, codes,
  text_eq, byte_len, leb, arith,
}
use billiards_online.Logging.{
  Logger, Line, Attr, text, with_logger, with_attrs, error, emit, emit-error,
}
use billiards_online.Logging as Logging
use billiards_online.Server.Recovering.{ended, Respects, entered, left, recovers}
use billiards_online.Server.Headers.{
  IsKept, get-set, IsSecured, Promises, chosen_id_bounds, chosen_id_cases,
}
use billiards_online.Server.Middleware.{
  get_header, set_header, Deps, Request, header_request_id, chosen_id, severity, Exchange, Outcome,
  returned, Handler, first_status, request_id, log_request, line_attrs, logged, request_logger,
  recovery, secure_headers, chain,
}
use billiards_online.Postgres.{World, time_now}

severity-error : (s : ℕ) (path : Text) → 500 ≤ s → severity s path ≡ (error, codes "request failed")
unfolding severity
severity-error s path h = ground arith

module _ {B : Type 0} where
  -- The line of a failed request, whatever the least level is.
  log_request-failed :
      (d : Deps B) (path : Text) (started ended_at : ℕ) (x : Exchange B)
      → 500 ≤ first_status x.status 200
      → (log_request d path started x ended_at).log
        ≡ x.log
          ++ record {
            level = error;
            message = codes "request failed";
            attrs =
                (Logging.logger d.default x.context).attrs
                ++ line_attrs d path (first_status x.status 200) x started ended_at;
          }
            ∷ []
  unfolding log_request
  log_request-failed d path started ended_at x h = rw (severity-error _ path h) (
      rw
        (emit-error (Logging.logger d.default x.context) (codes "request failed")
          (line_attrs d path (first_status x.status 200) x started ended_at))
        refl)

  -- The start of every attribute list of a request's lines.
  abbrev pub known_as : Logger → Exchange B → List Attr
  known_as l x =
      l.attrs ++ (Logging.key_request_id, text (get_header header_request_id x.headers)) ∷ []

  -- The log ends with an error whose attributes begin with the logger's own and the request id that
  -- the response shows.
  pub record Reported (l : Logger) (x : Exchange B) : Type 0 where
    pub before : List Line
    pub line : Line
    pub log : x.log ≡ before ++ line ∷ []
    pub level : line.level ≡ error
    pub rest : List Attr
    pub attrs : line.attrs ≡ known_as l x ++ rest

  -- How a request has ended: the headers, the request id, the status that came of the handler's
  -- one run, and, if that is a failure, the last line of the log.
  pub record IsFinished (l : Logger) (given : Request) (h : Handler B) (x : Exchange B)
      : Type 0 where
    pub secures : IsSecured x.headers
    pub bounds :
        (1 ≤ byte_len (get_header header_request_id x.headers))
        × (byte_len (get_header header_request_id x.headers) ≤ 64)
    pub kept :
        (get_header header_request_id x.headers ≡ given.request_id) ⊎ (¬ IsKept given.request_id)
    pub status : (y : Exchange B) × (w : World) × (y.request ≡ given) × (x.status ≡ ended (h y w).0)
    pub failed : (first_status x.status 200 < 500) ⊎ Reported l x

  module _ (d : Deps B) (l : Logger) (h : Handler B) (x : Exchange B) (w : World)
      (r : Respects d h) where
    -- What requestLogger hands down.
    abbrev named : Exchange B
    named = record x {
      context = with_logger x.context (
          with_attrs l
            ((Logging.key_request_id, text (get_header header_request_id x.headers)) ∷ []));
    }

    abbrev started : World
    started = (time_now {E = Unit {0}} w).1

    abbrev result : Outcome B × World
    result = recovery d (secure_headers h) named started

    abbrev last : Exchange B
    last =
        log_request d x.request.path (w.env.clock w.tick) (left d h named started)
          (result.1.env.clock result.1.tick)

    request_logger_lem : (request_logger d l (recovery d (secure_headers h)) x w).0 ≡ returned last
    unfolding request_logger logged
    request_logger_lem = rw (recovers d h named started r).at refl

    last-id : get_header header_request_id last.headers ≡ get_header header_request_id x.headers
    unfolding log_request
    last-id = (recovers d h named started r).id

    last-secures : IsSecured last.headers
    unfolding log_request
    last-secures = (recovers d h named started r).secures

    last-status : last.status ≡ ended (h (entered d h named started) started).0
    unfolding log_request
    last-status = (recovers d h named started r).status

    last-Reported : 500 ≤ first_status last.status 200 → Reported l last
    unfolding log_request Logging.logger with_attrs
    last-Reported f =
        let y = left d h named started in
        let extra =
          line_attrs d x.request.path (first_status y.status 200) y (w.env.clock w.tick)
            (result.1.env.clock result.1.tick) in
        let more = (recovers d h named started r).more in
        record {
          before = y.log;
          line = record {
            level = error;
            message = codes "request failed";
            attrs = (Logging.logger d.default y.context).attrs ++ extra;
          };
          log = log_request-failed d x.request.path _ _ y f;
          level = refl;
          rest = more ++ extra;
          attrs =
              ap (λ known. known ++ extra) (recovers d h named started r).attrs
              ∙ append_assoc
                  (l.attrs
                    ++ (Logging.key_request_id, text (get_header header_request_id x.headers)) ∷ [])
                  more extra
              ∙ ap (λ id. (l.attrs ++ (Logging.key_request_id, text id) ∷ []) ++ (more ++ extra))
                  (sym last-id);
        }

  -- What requestID hands down.
  module _ (d : Deps B) (x : Exchange B) (w : World) where
    abbrev drawn : Text × World
    drawn = chosen_id d.format_time x.request.request_id w

    abbrev numbered : Exchange B
    numbered = record x {
      headers = set_header header_request_id drawn.0 x.headers;
      context = Logging.with d.default x.context ((Logging.key_request_id, text drawn.0) ∷ []);
    }

    numbered-id : get_header header_request_id numbered.headers ≡ drawn.0
    unfolding text_eq
    numbered-id = simp get-set

  -- However a handler ends, a panic included, the middlewares let the request end in an orderly
  -- way, if the handler leaves the headers and the logger's attributes it was given in place: the
  -- response has the four security headers and a request id of 1 to 64 bytes, the client's own if
  -- that is such a one; its status is the one the handler's one run wrote first, or 500 if it
  -- panicked before it wrote; and whenever the status is 500 or more, then whatever the level of
  -- the log, its last line is an error that carries the request id that the response shows.
  pub chain-IsFinished :
      (d : Deps B) (l : Logger) (h : Handler B) (x : Exchange B) (w : World)
      → Respects d h
      → Promises d w
      → (y : Exchange B) × ((chain d l h x w).0 ≡ returned y) × IsFinished l x.request h y
  unfolding chain request_id
  chain-IsFinished d l h x w r p =
      let y = numbered d x w in
      let v = (drawn d x w).1 in
      let id : get_header header_request_id (last d l h y v r).headers ≡ (drawn d x w).0 =
        last-id d l h y v r ∙ numbered-id d x w in
      (
        last d l h y v r,
        request_logger_lem d l h y v r,
        record {
          secures = last-secures d l h y v r;
          bounds = rw id (chosen_id_bounds d x.request.request_id w p);
          kept = elim (chosen_id_cases d.format_time x.request.request_id w) [
            | inl same ↦ inl (id ∙ same)
            | inr other ↦ inr other
          ];
          status = (
            entered d h (named d l h y v r) (started d l h y v r),
            started d l h y v r,
            refl,
            last-status d l h y v r,
          );
          failed = elim (Bool-cases (leb 500 (first_status (last d l h y v r).status 200))) [
            | inl bad ↦ inr (last-Reported d l h y v r (ground arith))
            | inr fine ↦ inl (ground arith)
          ];
        },
      )
