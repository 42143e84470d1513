-- ===== src/Server/Recovering.antt =====
-- What `recovery` and `secureHeaders` of apps/server/cmd/server/middleware.go make of a handler.
use billiards_online.Base.{ℕ, ◌≡◌, refl, sym, ap, subst, ◌∙◌, Option, some, List, ◌++◌}
use billiards_online.Logging.{
  Logger, Line, Attr, text, with_logger, with_attrs, error, emit, emit-error,
}
use billiards_online.Logging as Logging
use billiards_online.Server.Headers.{IsSecured, secured-id, secured-IsSecured}
use billiards_online.Server.Middleware.{
  get_header, secured, Deps, header_request_id, Exchange, Outcome, returned, panicked, Handler,
  first_status, write, recovered, recovery, secure_headers,
}
use billiards_online.Postgres.{World}

module _ {B : Type 0} where
  abbrev pub exchange : Outcome B → Exchange B
  exchange (returned x) = x
  exchange (panicked v x) = x

  -- The status that a handler's end leads to: a panic is a 500, if nothing is written yet.
  abbrev pub ended : Outcome B → Option ℕ
  ended (returned x) = x.status
  ended (panicked v x) = some (first_status x.status 500)

  -- What a handler leaves alone: the five headers, and the attributes that its logger has.
  pub record Respects (d : Deps B) (h : Handler B) : Type 0 where
    pub id :
        (x : Exchange B) (w : World)
        → get_header header_request_id (exchange (h x w).0).headers
          ≡ get_header header_request_id x.headers
    pub secures :
        (x : Exchange B) (w : World) → IsSecured x.headers → IsSecured (exchange (h x w).0).headers
    pub attrs :
        (x : Exchange B) (w : World)
        → (more : List Attr) × ((Logging.logger d.default (exchange (h x w).0).context).attrs
            ≡ (Logging.logger d.default x.context).attrs ++ more)

  -- What recovery and secureHeaders give the middlewares above them.
  pub record IsRecovered (d : Deps B) (h : Handler B) (y : Exchange B) (w : World) (z : Exchange B)
      : Type 0 where
    pub at : (recovery d (secure_headers h) y w).0 ≡ returned z
    pub id : get_header header_request_id z.headers ≡ get_header header_request_id y.headers
    pub secures : IsSecured z.headers
    pub more : List Attr
    pub attrs :
        (Logging.logger d.default z.context).attrs
        ≡ (Logging.logger d.default y.context).attrs ++ more
    pub status : z.status ≡ ended (h (record y { headers = secured y.headers }) w).0

  recovered-returns :
      (d : Deps B) (o : Outcome B) → recovered d o ≡ returned (exchange (recovered d o))
  unfolding recovered
  recovered-returns d (returned x) = refl
  recovered-returns d (panicked v x) = refl

  recovered-headers :
      (d : Deps B) (o : Outcome B) → (exchange (recovered d o)).headers ≡ (exchange o).headers
  unfolding recovered write
  recovered-headers d (returned x) = refl
  recovered-headers d (panicked v x) = refl

  recovered-context :
      (d : Deps B) (o : Outcome B) → (exchange (recovered d o)).context ≡ (exchange o).context
  unfolding recovered write
  recovered-context d (returned x) = refl
  recovered-context d (panicked v x) = refl

  recovered-status : (d : Deps B) (o : Outcome B) → (exchange (recovered d o)).status ≡ ended o
  unfolding recovered write
  recovered-status d (returned x) = refl
  recovered-status d (panicked v x) = refl

  module _ (d : Deps B) (h : Handler B) (y : Exchange B) (w : World) where
    abbrev pub entered : Exchange B
    entered = record y { headers = secured y.headers }

    abbrev pub left : Exchange B
    left = exchange (recovered d (h entered w).0)

    pub recovers : Respects d h → IsRecovered d h y w left
    unfolding recovery secure_headers
    recovers r = record {
      at = recovered-returns d (h entered w).0;
      id =
          ap (get_header header_request_id) (recovered-headers d (h entered w).0)
          ∙ r.id entered w
          ∙ secured-id y.headers;
      secures =
          subst IsSecured (sym (recovered-headers d (h entered w).0))
            (r.secures entered w (secured-IsSecured y.headers));
      more = (r.attrs entered w).0;
      attrs =
          ap (λ c. (Logging.logger d.default c).attrs) (recovered-context d (h entered w).0)
          ∙ (r.attrs entered w).1;
      status = recovered-status d (h entered w).0;
    }
