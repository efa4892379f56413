-- ===== src/Al/Told.antt =====
-- What a client is told of the device's answer to a service data unit: the data that it read, or
-- the device's error.
use iol_hat.Base.{ℕ, ◌+◌, ◌*◌, ◌<◌, ◌≤◌, ◌≡◌, refl, ◌∙◌, true, List, [], ◌∷◌}
use iol_hat.Base.{some, take, overwrite, length, arith}
use mathlib.Core.Path.{subst}
use iol_hat.Base.{drop, ap, take-overwrite_block}
use iol_hat.Fsm.{iteration, event_loop}
use iol_hat.Types.SmiError
use iol_hat.Types.Dl.{Status, Direction, Iservice, read_response_pos, read_response_neg}
use iol_hat.Types.Dl.{write_response_neg}
use iol_hat.Al.State.{OdState, CnfCb, Service, Call, Port}
use iol_hat.Base.Bits.{or_below_256}
use iol_hat.Al.Errors.{al_status_to_errortype, device_error, qualifier_error, al_err_to_errortype}
use iol_hat.Al.Od.{al_od_send_al_cnf}
use iol_hat.Al.Od.{call_read_cnf, call_write_cnf, confirm}
use iol_hat.Al.Od.{iolink_al_od_fsm, iolink_al_od_event}
use iol_hat.Al.Jobs.{Job, callback, run}
use iol_hat.Al.Jobs.{al_dl_isdu_transport_cnf_cb}
use iol_hat.Al.Api.{dl_isdu_transport_cnf}
use iol_hat.Al.Delivery.{
  bystanders, IsAwaiting, run-IsAwaiting, read_request, write_request, read-IsAwaiting,
  write-IsAwaiting, response-IsAwaiting,
}

-- The service with the device's answer.
abbrev answered_service : Port → Status → Iservice → Service
answered_service p stat qualifier = record p.al.service { errinfo = stat; qualifier = qualifier }

module _ (p : Port) where
  read_told :
      (client len : ℕ) (bytes : List ℕ) (stat : Status) (qualifier : Iservice)
      → IsAwaiting Direction.read (CnfCb.al_read_cnf_cb client) bytes len p
      → let q = callback (Job.dl_isdu_trans_cnf stat qualifier) p in
        (q.al.od_state ≡ OdState.onreq_idle)
        × (q.out
            ≡ Call.al_read_cnf client len bytes
                (al_err_to_errortype (answered_service p stat qualifier) true)
              ∷ p.out)
  unfolding callback al_dl_isdu_transport_cnf_cb iolink_al_od_event event_loop iteration
      iolink_al_od_fsm al_od_send_al_cnf call_read_cnf confirm
  read_told client len bytes stat qualifier h =
      ground (arith, h.od_state, h.direction, h.cnf_cb, h.data_read, h.data_len)

  write_told :
      (client len : ℕ) (bytes : List ℕ) (stat : Status) (qualifier : Iservice)
      → IsAwaiting Direction.write (CnfCb.al_write_cnf_cb client) bytes len p
      → let q = callback (Job.dl_isdu_trans_cnf stat qualifier) p in
        (q.al.od_state ≡ OdState.onreq_idle)
        × (q.out
            ≡ Call.al_write_cnf client
                (al_err_to_errortype (answered_service p stat qualifier) true)
              ∷ p.out)
  unfolding callback al_dl_isdu_transport_cnf_cb iolink_al_od_event event_loop iteration
      iolink_al_od_fsm al_od_send_al_cnf call_write_cnf confirm
  write_told client len bytes stat qualifier h =
      ground (arith, h.od_state, h.direction, h.cnf_cb, h.data_read, h.data_len)

read_pos_error :
    (s : Service)
    → s.direction ≡ Direction.read
    → s.errinfo ≡ Status.no_error
    → s.qualifier ≡ read_response_pos
    → al_err_to_errortype s true ≡ SmiError.no_error
unfolding al_err_to_errortype qualifier_error al_status_to_errortype
read_pos_error s d e q = ground arith

abbrev pub neg_response : Direction → Iservice
neg_response Direction.read = read_response_neg
neg_response Direction.write = write_response_neg

neg_error :
    (s : Service) (d : Direction) (x y : ℕ) (rest : List ℕ)
    → s.direction ≡ d
    → s.errinfo ≡ Status.no_error
    → s.qualifier ≡ neg_response d
    → s.data_len ≡ 2
    → s.data_read ≡ x ∷ (y ∷ rest)
    → y < 256
    → al_err_to_errortype s true ≡ x * 256 + y
unfolding al_err_to_errortype qualifier_error al_status_to_errortype device_error
neg_error s Direction.read x y rest d e q l b h =
    rw (d, e, q, l, b) (ground (arith, or_below_256 x y h))
neg_error s Direction.write x y rest d e q l b h =
    rw (d, e, q, l, b) (ground (arith, or_below_256 x y h))

overwrite_two :
    (xs : List ℕ) (x y : ℕ) → length xs ≡ 241 → overwrite xs 0 (x ∷ (y ∷ [])) ≡ x ∷ (y ∷ drop 2 xs)
overwrite_two [] x y h = absurd (omega arith)
overwrite_two (a ∷ []) x y h = absurd (omega arith)
overwrite_two (a ∷ (b ∷ [])) x y h = refl
overwrite_two (a ∷ (b ∷ (c ∷ xs))) x y h = refl

delivered :
    (p : Port) (js : List Job) (bytes : List ℕ) (client len : ℕ)
    → bystanders js ≡ true
    → IsAwaiting Direction.read (CnfCb.al_read_cnf_cb client) bytes len p
    → let q = run js p in
      let r = callback (Job.dl_isdu_trans_cnf Status.no_error read_response_pos) q in
      (r.al.od_state ≡ OdState.onreq_idle)
      × (r.out ≡ Call.al_read_cnf client len bytes SmiError.no_error ∷ q.out)
delivered p js bytes client len b h =
    let a = run-IsAwaiting js p b h in
    let t = read_told (run js p) client len bytes Status.no_error read_response_pos a in
    let e =
      read_pos_error (answered_service (run js p) Status.no_error read_response_pos) a.direction
        refl refl in
    (t.0, t.1 ∙ ap (λ x. Call.al_read_cnf client len bytes x ∷ (run js p).out) e)

failed :
    (p : Port) (js : List Job) (client x y : ℕ) (rest : List ℕ)
    → bystanders js ≡ true
    → IsAwaiting Direction.write (CnfCb.al_write_cnf_cb client) (x ∷ (y ∷ rest)) 2 p
    → y < 256
    → let q = run js p in
      let r = callback (Job.dl_isdu_trans_cnf Status.no_error write_response_neg) q in
      (r.al.od_state ≡ OdState.onreq_idle)
      × (r.out ≡ Call.al_write_cnf client (x * 256 + y) ∷ q.out)
failed p js client x y rest b h l =
    let a = run-IsAwaiting js p b h in
    let t = write_told (run js p) client 2 (x ∷ (y ∷ rest)) Status.no_error write_response_neg a in
    let e =
      neg_error (answered_service (run js p) Status.no_error write_response_neg) Direction.write x y
        rest a.direction refl refl a.data_len a.data_read l in
    (t.0, t.1 ∙ ap (λ z. Call.al_write_cnf client z ∷ (run js p).out) e)

-- The run of a request up to the response of the device, with the jobs that come in between.
abbrev pub responded : List Job → List ℕ → ℕ → Job → Port → Port
responded js bytes qualifier request p =
    (dl_isdu_transport_cnf (some bytes) (length bytes) qualifier Status.no_error
      (run js (callback request p))).0

-- A client that reads an index from 2 on of an idle application layer gets what the device
-- responds: the request goes to the data link layer with its index and subindex, and whatever other
-- requests, events and control codes come before the response of at most 241 bytes and before its
-- job is worked off, that job tells the client these bytes without an error, and the layer is idle
-- again.
pub read-delivered :
    (p : Port) (index subindex client : ℕ) (bytes : List ℕ) (before after : List Job)
    → p.al.od_state ≡ OdState.onreq_idle
    → length p.al.service.data_read ≡ 241
    → 2 ≤ index
    → length bytes ≤ 241
    → bystanders before ≡ true
    → bystanders after ≡ true
    → let request = Job.al_read_req index subindex client in
      let q = run after (responded before bytes read_response_pos request p) in
      let r = callback (Job.dl_isdu_trans_cnf Status.no_error read_response_pos) q in
      let told = overwrite p.al.service.data_read 0 bytes in
      ((callback request p).out
        ≡ Call.dl_isdu_transport_req (read_request index subindex p.al.service.data_read) ∷ p.out)
      × (r.al.od_state ≡ OdState.onreq_idle)
      × (r.out ≡ Call.al_read_cnf client (length bytes) told SmiError.no_error ∷ q.out)
      × (take (length bytes) told ≡ bytes)
read-delivered p index subindex client bytes before after h l i n b a =
    let request = Job.al_read_req index subindex client in
    let s = read-IsAwaiting p index subindex client h i in
    let w = run-IsAwaiting before (callback request p) b s.0 in
    let v =
      response-IsAwaiting (run before (callback request p)) bytes read_response_pos Status.no_error
        w n refl in
    let t = delivered _ after _ client (length bytes) a v in
    let e =
      take-overwrite_block p.al.service.data_read 0 (length bytes) bytes (omega arith)
        (omega arith) in
    (s.1, t.0, t.1, e)

-- A client that writes an index from 2 on through an idle application layer is told of the error
-- that the device responds with: the request goes to the data link layer with its index, subindex
-- and data, and whatever other requests, events and control codes come before a negative response
-- of two bytes and before its job is worked off, that job tells the client the number that the two
-- bytes are, the first one on top, and the layer is idle again.
pub write_error-told :
    (p : Port) (index subindex len client x y : ℕ) (bytes : List ℕ) (before after : List Job)
    → p.al.od_state ≡ OdState.onreq_idle
    → length p.al.service.data_read ≡ 241
    → 2 ≤ index
    → y < 256
    → bystanders before ≡ true
    → bystanders after ≡ true
    → let request = Job.al_write_req index subindex len bytes client in
      let q = run after (responded before (x ∷ (y ∷ [])) write_response_neg request p) in
      let r = callback (Job.dl_isdu_trans_cnf Status.no_error write_response_neg) q in
      ((callback request p).out
        ≡ Call.dl_isdu_transport_req (write_request index subindex bytes len) ∷ p.out)
      × (r.al.od_state ≡ OdState.onreq_idle)
      × (r.out ≡ Call.al_write_cnf client (x * 256 + y) ∷ q.out)
write_error-told p index subindex len client x y bytes before after h l i g b a =
    let request = Job.al_write_req index subindex len bytes client in
    let s = write-IsAwaiting p index subindex len client bytes h i in
    let w = run-IsAwaiting before (callback request p) b s.0 in
    let v =
      response-IsAwaiting (run before (callback request p)) (x ∷ (y ∷ [])) write_response_neg
        Status.no_error w (omega arith) refl in
    let two = overwrite_two p.al.service.data_read x y l in
    let t =
      failed _ after client x y _ a
        (subst
          (λ z.
            IsAwaiting Direction.write (CnfCb.al_write_cnf_cb client) z 2
              (responded before (x ∷ (y ∷ [])) write_response_neg request p))
          two v)
        g in
    (s.1, t.0, t.1)
