-- ===== src/Al/Reporting.antt =====
-- What the client is told of a set of events, and when data storage uploads instead.
use iol_hat.Base.{ℕ, suc, ◌<◌, ◌≤◌, ◌≡◌, refl, ◌∙◌, ap, Bool, true, false, List, [], ◌∷◌}
use iol_hat.Base.{overwrite, length, arith, inl, take-overwrite_block, get_or, zero}
use iol_hat.Base.{length-overwrite, ==_iff, inr, sym, lt_or_ge, ◌≢◌}
use iol_hat.Base.Slices.{get_or-overwrite, get_or-overwrite_in, get_or_outside}
use iol_hat.Fsm.{iteration, event_loop}
use iol_hat.Types.ArgBlock
use iol_hat.Types.EventCode
use iol_hat.Al.State.{EventState, DiagEntry, Call, Port}
use iol_hat.Al.EventSet.{al_event_idle, iolink_al_event_fsm, iolink_al_event_event, has_upload_req}
use iol_hat.Al.Jobs.{Job, callback, run, al_event_rsp_cb}
use iol_hat.Al.Collecting.{event_jobs, IsCollecting, reported, run-IsHandling}

-- A port that is ready for the next set.
pub record IsReady (p : Port) : Type 0 where
  pub event_state : p.al.event_state ≡ EventState.event_idle
  pub event_cnt : p.al.event_cnt ≡ 0
  pub events : length p.al.events ≡ 6

ready-IsCollecting : (p : Port) → IsReady p → IsCollecting 0 p.al.events p.out p
ready-IsCollecting p h = record {
  collecting = inl h.event_state;
  event_cnt = h.event_cnt;
  events = refl;
  out = refl;
}

rsp-IsReady :
    (p : Port)
    → p.al.event_state ≡ EventState.du_event_handling
    → length p.al.events ≡ 6
    → let q = callback Job.al_event_rsp p in
      IsReady q × (q.al.events ≡ p.al.events) × (q.out ≡ p.out)
unfolding callback al_event_rsp_cb iolink_al_event_event event_loop iteration iolink_al_event_fsm
    al_event_idle
rsp-IsReady p h n = ground arith

-- The array that a set leaves: its events over what stood there.
abbrev pub after_set : List DiagEntry → Port → List DiagEntry
after_set es p = overwrite p.al.events 0 es

handled :
    (e : DiagEntry) (es : List DiagEntry) (p : Port) (b : Bool)
    → IsReady p
    → length (e ∷ es) ≤ 6
    → has_upload_req (after_set (e ∷ es) p) ≡ b
    → let q = run (event_jobs (e ∷ es)) p in
      let r = callback Job.al_event_rsp q in
      (q.out ≡ reported (length (e ∷ es)) (after_set (e ∷ es) p) b p.out)
      × IsReady r
      × (r.al.events ≡ after_set (e ∷ es) p)
      × (r.out ≡ q.out)
handled e es p b h l u =
    let c =
      run-IsHandling e es p 0 p.al.events p.out (omega arith) h.events (ready-IsCollecting p h) in
    let n = ap length c.events ∙ length-overwrite p.al.events 0 (e ∷ es) ∙ h.events in
    let r = rsp-IsReady (run (event_jobs (e ∷ es)) p) c.event_state n in
    (c.out ∙ told (omega arith) u, r.0, r.1 ∙ c.events, r.2)
  where
    told :
        {n : ℕ} {f : Bool}
        → n ≡ length (e ∷ es)
        → f ≡ b
        → reported n (after_set (e ∷ es) p) f p.out
          ≡ reported (length (e ∷ es)) (after_set (e ∷ es) p) b p.out
    told x y = rw (x, y) refl

-- From a port that is ready, a set of one to six events is reported to the client with all its
-- events in their order, where neither they nor what the array still holds of earlier sets ask for
-- an upload; the response is asked for before, and once it is worked off the port is ready for the
-- next set.
pub events-reported :
    (e : DiagEntry) (es : List DiagEntry) (p : Port)
    → IsReady p
    → length (e ∷ es) ≤ 6
    → has_upload_req (after_set (e ∷ es) p) ≡ false
    → let q = run (event_jobs (e ∷ es)) p in
      (q.out
        ≡ Call.smi_cnf_devevent ArgBlock.void_block ArgBlock.sizeof_devevent
            (length (e ∷ es))
            (e ∷ es)
          ∷ (Call.al_event_rsp ∷ p.out))
      × IsReady (callback Job.al_event_rsp q)
events-reported e es p h l u =
    let r = handled e es p false h l u in
    let t =
      take-overwrite_block p.al.events 0 (length (e ∷ es)) (e ∷ es) (omega arith)
        (omega (arith, h.events)) in
    (
      r.0
          ∙ ap
              (λ xs.
                Call.smi_cnf_devevent ArgBlock.void_block ArgBlock.sizeof_devevent (length (e ∷ es))
                  xs
                ∷ (Call.al_event_rsp ∷ p.out))
              t,
      r.1,
    )

abbrev event_code : DiagEntry → ℕ
event_code e = e.event_code

abbrev pub no_entry : DiagEntry
no_entry = record { event_qualifier = 0; event_code = 0 }

has_upload_req-at :
    (es : List DiagEntry) (k : ℕ)
    → (get_or es k no_entry).event_code ≡ EventCode.dev_ds_upload_req
    → has_upload_req es ≡ true
unfolding has_upload_req
has_upload_req-at [] k h = absurd (omega arith)
has_upload_req-at (e ∷ es) zero h =
    ground (arith, (==_iff e.event_code EventCode.dev_ds_upload_req).1 h)
has_upload_req-at (e ∷ es) (suc k) h = ground (arith, has_upload_req-at es k h)

-- A place that asks for an upload is one of the list's.
place_inside :
    (es : List DiagEntry) (k : ℕ)
    → (get_or es k no_entry).event_code ≡ EventCode.dev_ds_upload_req
    → k < length es
place_inside es k h = elim (lt_or_ge k (length es)) [
  | inl l ↦ l
  | inr g ↦ absurd (nothing (ap event_code (sym (get_or_outside es k no_entry g)) ∙ h))
]
  where
    nothing : 0 ≢ EventCode.dev_ds_upload_req
    nothing e = omega arith

-- The sets of events one after the other, with the response to each worked off.
abbrev pub run_sets : List (List DiagEntry) → Port → Port
run_sets [] p = p
run_sets (es ∷ ess) p = run_sets ess (callback Job.al_event_rsp (run (event_jobs es) p))

-- The calls of so many uploads, on top of earlier ones.
abbrev pub uploads : ℕ → List Call → List Call
uploads zero out = out
uploads (suc n) out = uploads n (Call.ds_upload ∷ (Call.al_event_rsp ∷ out))

-- Each of the sets has an event and does not reach a place.
abbrev pub AreBelow : ℕ → List (List DiagEntry) → Type 0
AreBelow k [] = Unit {0}
AreBelow k (es ∷ ess) = (0 < length es) × (length es ≤ k) × AreBelow k ess

-- A port that is ready for the next set, with an upload request at a place of the array.
pub record IsHolding (k : ℕ) (entry : DiagEntry) (p : Port) : Type 0 where
  pub ready : IsReady p
  pub stale : get_or p.al.events k no_entry ≡ entry

module _ (k : ℕ) (entry : DiagEntry) (asks : entry.event_code ≡ EventCode.dev_ds_upload_req) where
  abbrev HasUploaded : ℕ → List Call → Port → Type 0
  HasUploaded n out q = IsHolding k entry q × (q.out ≡ uploads n out)

  again :
      (es : List DiagEntry) (p : Port)
      → IsHolding k entry p
      → 0 < length es
      → length es ≤ k
      → HasUploaded 1 p.out (callback Job.al_event_rsp (run (event_jobs es) p))
  again [] p h s n = absurd (omega arith)
  again (e ∷ es) p h s n =
      let inside = place_inside p.al.events k (ap event_code h.stale ∙ asks) in
      let at_k = get_or-overwrite p.al.events 0 k (e ∷ es) no_entry (omega arith) ∙ h.stale in
      let r =
        handled e es p true h.ready (omega (arith, inside, h.ready.events))
          (has_upload_req-at (after_set (e ∷ es) p) k (ap event_code at_k ∙ asks)) in
      (record { ready = r.1; stale = ap (λ xs. get_or xs k no_entry) r.2 ∙ at_k }, r.3 ∙ r.0)

  again_all :
      (ess : List (List DiagEntry)) (p : Port)
      → IsHolding k entry p
      → AreBelow k ess
      → HasUploaded (length ess) p.out (run_sets ess p)
  again_all [] p h b = (h, refl)
  again_all (es ∷ ess) p h (s, n, b) =
      let (first, out) = again es p h s n in
      let (rest, more) =
        again_all ess (callback Job.al_event_rsp (run (event_jobs es) p)) first b in
      (rest, more ∙ ap (uploads (length ess)) out)

-- From a port that is ready, once an event at some place of a set of at most six has asked for an
-- upload, that set and each further one of any number of sets that do not reach that place makes
-- data storage upload, whatever their events are, and none of these is reported; the port is then
-- ready for the next set, and the event is still at its place. The response to each set has been
-- worked off before the next set.
pub stale_upload-again :
    (d : DiagEntry) (ds : List DiagEntry) (ess : List (List DiagEntry)) (p : Port) (k : ℕ)
    → IsReady p
    → length (d ∷ ds) ≤ 6
    → (get_or (d ∷ ds) k no_entry).event_code ≡ EventCode.dev_ds_upload_req
    → AreBelow k ess
    → let q = run_sets ((d ∷ ds) ∷ ess) p in
      IsHolding k (get_or (d ∷ ds) k no_entry) q × (q.out ≡ uploads (suc (length ess)) p.out)
stale_upload-again d ds ess p k h l c b =
    let inside = place_inside (d ∷ ds) k c in
    let at_k =
      get_or-overwrite_in p.al.events k (d ∷ ds) no_entry inside (omega (arith, h.events)) in
    let r =
      handled d ds p true h l
        (has_upload_req-at (after_set (d ∷ ds) p) k (ap event_code at_k ∙ c)) in
    let stale : IsHolding k (get_or (d ∷ ds) k no_entry)
        (callback Job.al_event_rsp (run (event_jobs (d ∷ ds)) p)) =
      record { ready = r.1; stale = ap (λ xs. get_or xs k no_entry) r.2 ∙ at_k } in
    let (rest, more) =
      again_all k (get_or (d ∷ ds) k no_entry) c ess
        (callback Job.al_event_rsp (run (event_jobs (d ∷ ds)) p)) stale b in
    (rest, more ∙ ap (uploads (length ess)) (r.3 ∙ r.0))
