-- ===== src/Ds/Replay.antt =====
-- How `ds_write_param` takes a parameter out of the stored data.
use iol_hat.Base.{ℕ, ◌+◌, ◌*◌, ◌/◌, ◌≤◌, ◌≡◌, refl, ap, ◌∙◌, arith}
use iol_hat.Base.{List, [], ◌∷◌, ◌++◌, length, drop, u8, u16}
use iol_hat.Base.Slices.{get_or-drop, drop-drop, take-append}
use iol_hat.Types.SmiError
use iol_hat.Ds.State.{Event, Call, Port, max_size}
use iol_hat.Ds.Actions.{byte_at, ds_write_param}
use iol_hat.Ds.Jobs.{Job}
use iol_hat.Ds.Store.{Param, IsParam, size_of, encode}

abbrev pub write_ok : Job
write_ok = Job.al_write_cnf SmiError.no_error

abbrev pub param_call : Param → Call
param_call r = Call.al_write_req r.index r.subindex (size_of r) r.bytes

-- The write requests for the parameters, in their order, after the calls that were made before.
abbrev pub sent : List Param → List Call → List Call
sent [] out = out
sent (r ∷ rs) out = sent rs (param_call r ∷ out)

abbrev pub dl_end_call : Call
dl_end_call = Call.al_write_req 3 1 1 (4 ∷ [])

-- The four bytes of a head and what follows it.
head_at :
    (bytes : List ℕ) (pos a b c d : ℕ) (rest : List ℕ)
    → drop pos bytes ≡ a ∷ b ∷ c ∷ d ∷ rest
    → (byte_at bytes pos ≡ a)
      × (byte_at bytes (pos + 1) ≡ b)
      × (byte_at bytes (pos + 2) ≡ c)
      × (byte_at bytes (pos + 3) ≡ d)
      × (drop (pos + 4) bytes ≡ rest)
head_at bytes pos a b c d rest e = (
  get_or-drop bytes pos 0 0 (omega arith) ∙ ap (λ xs. byte_at xs 0) e,
  get_or-drop bytes pos 1 0 refl ∙ ap (λ xs. byte_at xs 1) e,
  get_or-drop bytes pos 2 0 refl ∙ ap (λ xs. byte_at xs 2) e,
  get_or-drop bytes pos 3 0 refl ∙ ap (λ xs. byte_at xs 3) e,
  drop-drop bytes pos 4 refl ∙ ap (λ xs. drop 4 xs) e,
)

-- What `ds_write_param` leaves when a record stands at the position.
pub record IsSent (p q : Port) (r : Param) : Type 0 where
  pub out : q.out ≡ param_call r ∷ p.out
  pub pos : q.ds.master_ds.pos ≡ p.ds.master_ds.pos + length (encode r)
  pub bytes : q.ds.master_ds.bytes ≡ p.ds.master_ds.bytes
  pub size : q.ds.master_ds.size ≡ p.ds.master_ds.size
  pub state : q.ds.state ≡ p.ds.state

-- Where the encoding of a parameter stands at the position, the device is asked to write this very
-- parameter, and the position moves behind the encoding; the stored data stay.
pub ds_write_param-IsSent :
    (p : Port) (e : Event) (r : Param) (rest : List ℕ)
    → drop p.ds.master_ds.pos p.ds.master_ds.bytes ≡ encode r ++ rest
    → IsParam r
    → p.ds.master_ds.pos + length (encode r) ≤ max_size
    → IsSent p (ds_write_param p e).0 r
unfolding ds_write_param
ds_write_param-IsSent p e r rest d v h =
    let pos = p.ds.master_ds.pos in
    let bytes = p.ds.master_ds.bytes in
    let f =
      head_at bytes pos (u8 (r.index / 256)) (u8 r.index) r.subindex (u8 (size_of r))
        (r.bytes ++ rest) d in
    let p1 : u16 (pos + 1) ≡ pos + 1 = omega arith in
    let p2 : u16 (pos + 1 + 1) ≡ pos + 2 = omega arith in
    let p3 : u16 (pos + 2 + 1) ≡ pos + 3 = omega arith in
    let p4 : u16 (pos + 3 + 1) ≡ pos + 4 = omega arith in
    let index : u16 (u8 (r.index / 256) * 256 + u8 r.index) ≡ r.index =
      omega (arith, v.index_u16) in
    let len : u8 (size_of r) ≡ size_of r = omega (arith, v.len_u8) in
    rw (p1, p2, p3, p4, f.0, f.1, f.2, f.3, f.4, index, len)
      (record {
        out =
            ap (λ bs. Call.al_write_req r.index r.subindex (size_of r) bs ∷ p.out)
              (take-append r.bytes rest refl);
        pos = omega (arith, v.len_u8);
        bytes = refl;
        size = refl;
        state = refl;
      })
